-- ===== src/DeletePlan.antt =====
-- nest-api/src/fs/delete-plan.ts: what a delete asks the operator to confirm.
pub mod Commands
mod Tests
use trekker.Prelude.{
  ℕ, suc, ◌+◌, Bool, true, false, not, ◌&&◌, ◌||◌, Option, none, some, List, [], ◌∷◌, ◌++◌, map,
  if◌then◌else◌, leb, ◌==◌, length, all, filter,
}
use trekker.Text.{
  Text, codes, text_eq, is_empty, split, join, non_empty, trim_end, cut_last, trim, decimal,
}
use trekker.Shell.{quote, quoted_quote}

abbrev pub max_token_length : ℕ
max_token_length = 512

abbrev pub name_of_cut : Text → Option (Text × Text) → Text
name_of_cut trimmed (some (before, c ∷ name)) = name
name_of_cut trimmed _ = trimmed

-- The last segment, a trailing slash left aside.
unfoldable pub last_name : Text → Text
unfolding trim_end cut_last
last_name path = let trimmed = trim_end 47 path in name_of_cut trimmed (cut_last 47 trimmed)

unfoldable pub confirmation_token : List Text → Text
unfolding last_name decimal
confirmation_token (path ∷ []) = last_name path
confirmation_token paths = codes "delete " ++ (decimal (length paths) ++ codes " items")

unfoldable pub token_matches : Text → Text → Bool
unfolding trim text_eq
token_matches typed expected =
    text_eq (trim typed) (trim expected) && leb (length typed) max_token_length

pub record RiskInput : Type 0 where
  pub kind : Text
  pub size : ℕ
  pub uid : ℕ

pub record DeleteRisk : Type 0 where
  pub directories : ℕ
  pub root_owned : ℕ
  pub unreadable : ℕ
  pub links : ℕ

unfoldable pub freed_bytes : List RiskInput → ℕ
unfolding text_eq
freed_bytes [] = 0
freed_bytes (e ∷ es) =
    let rest = freed_bytes es in if text_eq e.kind (codes "directory") then rest else e.size + rest

unfoldable pub assess_risk : List RiskInput → ℕ → ℕ → DeleteRisk
unfolding text_eq
assess_risk entries unreadable links = record {
  directories = length (filter (λ (e : RiskInput). text_eq e.kind (codes "directory")) entries);
  root_owned = length (filter (λ (e : RiskInput). e.uid == 0) entries);
  unreadable = unreadable;
  links = links;
}

-- `[A-Za-z0-9_@%+=:,./-]`
abbrev pub is_displayed : ℕ → Bool
is_displayed c =
    (leb 65 c && leb c 90)
    || (leb 97 c && leb c 122)
    || (leb 48 c && leb c 57)
    || (c == 95
        || c == 64
        || c == 37
        || c == 43
        || c == 61
        || c == 58
        || c == 44
        || c == 46
        || c == 47
        || c == 45)

unfoldable pub shell_display : Text → Text
unfolding split join
shell_display path =
    if not (is_empty path) && all is_displayed path
    then path
    else quote ∷ (join quoted_quote (split quote path) ++ (quote ∷ []))

unfoldable pub equivalent_command : List Text → Bool → Text
unfolding shell_display join
equivalent_command paths recursive =
    codes "rm "
    ++ ((if recursive then codes "-rf" else codes "-f")
        ++ (32 ∷ join (32 ∷ []) (map shell_display paths)))

unfoldable pub path_depth : Text → ℕ
unfolding split
path_depth path = length (non_empty (split 47 path))
