-- ===== src/Shell.antt =====
-- nest-api/src/hosts/drivers/shell-quote.ts: the allowlists, the quoting of an argument, and the
-- command line that is handed to a remote shell. A thrown error is `thrown`.
pub mod Lexer
pub mod Laws
mod Tests
use trekker.Prelude.{
  ℕ, ◌+◌, ◌-◌, Bool, true, false, ◌&&◌, ◌||◌, Option, none, some, List, [], ◌∷◌, ◌++◌, leb, ◌==◌,
  if◌then◌else◌,
}
use trekker.Text.{Text, codes, text_eq, member, includes, split, join, digits_below_100}

pub data Refusal : Type 0 where
  nul_byte nice_out_of_range : Refusal
  sudo_only not_listed : Text → Refusal

pub data Outcome (A : Type 0) : Type 0 where
  thrown : Refusal → Outcome A
  returned : A → Outcome A

infixl 5 ◌>>=◌
abbrev pub ◌>>=◌ : {A B : Type 0} → Outcome A → (A → Outcome B) → Outcome B
thrown refusal >>= next = thrown refusal
returned x >>= next = next x

abbrev pub allowed_programs : List Text
allowed_programs =
    codes "du"
    ∷ codes "df"
    ∷ codes "stat"
    ∷ codes "tail"
    ∷ codes "sha256sum"
    ∷ codes "git"
    ∷ codes "readlink"
    ∷ codes "id"
    ∷ []

abbrev pub sudo_only_programs : List Text
sudo_only_programs =
    codes "cat" ∷ codes "tee" ∷ codes "rm" ∷ codes "chmod" ∷ codes "chown" ∷ codes "mv" ∷ []

unfoldable pub is_allowed_program : Text → Bool
unfolding member
is_allowed_program program = member program allowed_programs

unfoldable pub is_sudo_only_program : Text → Bool
unfolding member
is_sudo_only_program program = member program sudo_only_programs

abbrev pub quote : ℕ
quote = 39

-- `'\''`
abbrev pub quoted_quote : Text
quoted_quote = 39 ∷ 92 ∷ 39 ∷ 39 ∷ []

unfoldable pub quote_argument : Text → Outcome Text
unfolding includes split join
quote_argument argument =
    if includes 0 argument
    then thrown nul_byte
    else returned (quote ∷ (join quoted_quote (split quote argument) ++ quote ∷ []))

-- `args.map(quoteArgument)`, which throws at the first argument that does.
unfoldable pub quote_arguments : List Text → Outcome (List Text)
unfolding quote_argument
quote_arguments [] = returned []
quote_arguments (a ∷ args) = do q ← quote_argument a; qs ← quote_arguments args; returned (q ∷ qs)

pub data SudoMode : Type 0 where
  password probe : SudoMode

-- A JavaScript number, as far as `Number.isInteger` and the bounds 0 and 19 read it.
pub data Number : Type 0 where
  integer : ℕ → Number
  negative_integer : ℕ → Number
  not_an_integer : Number

pub record RemoteCommandOptions : Type 0 where
  pub nice : Option Number
  pub sudo : Option SudoMode

abbrev pub nice_max : ℕ
nice_max = 19

unfoldable pub sudo_prefix : SudoMode → Text
sudo_prefix probe = codes "sudo -n"
sudo_prefix password = codes "sudo -S -p ''"

-- The last part: a `nice` in front of what is there already.
unfoldable pub with_nice : Option Number → Text → Outcome Text
unfolding quote_argument digits_below_100
with_nice none payload = returned payload
with_nice (some (integer n)) payload =
    if leb n nice_max
    then (do
      q ← quote_argument (digits_below_100 n)
      returned (codes "nice -n " ++ (q ++ 32 ∷ payload)))
    else thrown nice_out_of_range
with_nice (some _) payload = thrown nice_out_of_range

abbrev pub with_sudo : Option SudoMode → Text → Text
with_sudo none command = command
with_sudo (some mode) command = sudo_prefix mode ++ 32 ∷ command

abbrev pub has_sudo : Option SudoMode → Bool
has_sudo none = false
has_sudo (some _) = true

unfoldable pub build_remote_command : Text → List Text → RemoteCommandOptions → Outcome Text
unfolding is_allowed_program is_sudo_only_program quote_arguments with_nice sudo_prefix join
build_remote_command program args options =
    if is_allowed_program program || (has_sudo options.sudo && is_sudo_only_program program)
    then (do
      quoted ← quote_arguments args
      let command = join (32 ∷ []) (program ∷ quoted)
      with_nice options.nice (with_sudo options.sudo command))
    else (if is_sudo_only_program program
        then thrown (sudo_only program)
        else thrown (not_listed program))
