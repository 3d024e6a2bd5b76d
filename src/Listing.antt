-- ===== src/Listing.antt =====
-- front/src/helpers/listing.ts: the paths of the explorer.
pub mod Crumbs
mod Tests
use trekker.Prelude.{Bool, true, false, not, ◌||◌, List, [], ◌∷◌, ◌++◌, if◌then◌else◌}
use trekker.Text.{Text, codes, text_eq, starts_with, split, join, non_empty}

unfoldable pub drop_last : List Text → List Text
drop_last [] = []
drop_last (x ∷ []) = []
drop_last (x ∷ y ∷ xs) = x ∷ drop_last (y ∷ xs)

unfoldable pub parent_path : Text → Text
unfolding drop_last split join
parent_path path = 47 ∷ join (47 ∷ []) (drop_last (non_empty (split 47 path)))

unfoldable pub join_path : Text → Text → Text
unfolding text_eq
join_path base name = if text_eq base (codes "/") then 47 ∷ name else base ++ (47 ∷ name)

-- What a segment of a link's target does to the segments so far.
abbrev pub enter : Text → List Text → List Text
enter segment base =
    if text_eq segment [] || text_eq segment (codes ".")
    then base
    else if text_eq segment (codes "..")
    then drop_last base
    else base ++ (segment ∷ [])

unfoldable pub enter_each : List Text → List Text → List Text
unfolding text_eq drop_last
enter_each [] base = base
enter_each (segment ∷ segments) base = enter_each segments (enter segment base)

unfoldable pub resolve_target : Text → Text → Text
unfolding enter_each split join starts_with
resolve_target directory target =
    let base = if starts_with (codes "/") target then [] else non_empty (split 47 directory) in
    47 ∷ join (47 ∷ []) (enter_each (split 47 target) base)

pub record Crumb : Type 0 where
  pub label : Text
  pub path : Text
  pub last : Bool

abbrev pub is_none : List Text → Bool
is_none [] = true
is_none (_ ∷ _) = false

-- The crumbs of the segments that stand behind those above.
unfoldable pub crumbs_from : List Text → List Text → List Crumb
unfolding join
crumbs_from above [] = []
crumbs_from above (segment ∷ segments) =
    let here = above ++ (segment ∷ []) in
    record {
      label = segment ++ (if is_none segments then [] else codes "/");
      path = 47 ∷ join (47 ∷ []) here;
      last = is_none segments;
    }
    ∷ crumbs_from here segments

unfoldable pub breadcrumbs : Text → List Crumb
unfolding crumbs_from split
breadcrumbs path =
    let segments = non_empty (split 47 path) in
    record { label = codes "/"; path = codes "/"; last = is_none segments }
    ∷ crumbs_from [] segments
