-- ===== src/UploadName.antt =====
-- nest-api/src/fs/upload-name.ts: the name that a partial upload is written under, by which the sweep
-- knows it again; and nest-api/src/fs/entry-name.ts: the names that a new entry may have.
pub mod Partial
mod Tests
use trekker.Prelude.{
  ℕ, ◌+◌, Bool, true, false, not, ◌&&◌, ◌||◌, Option, none, some, List, [], ◌∷◌, ◌++◌,
  if◌then◌else◌, ltb, length,
}
use trekker.Text.{Text, codes, text_eq, starts_with, trim}
use trekker.RenamePlan.{ProblemCode, RenameProblem, name_problem}

abbrev pub partial_prefix : Text
partial_prefix = codes ".trekker-"

abbrev pub partial_suffix : Text
partial_suffix = codes ".part"

unfoldable pub partial_name : Text → Text
partial_name token = partial_prefix ++ (token ++ partial_suffix)

-- `endsWith`
unfoldable pub ends_with : Text → Text → Bool
unfolding text_eq
ends_with suffix [] = text_eq [] suffix
ends_with suffix (c ∷ s) = let rest = ends_with suffix s in text_eq (c ∷ s) suffix || rest

unfoldable pub is_partial_name : Text → Bool
unfolding starts_with ends_with
is_partial_name name =
    starts_with partial_prefix name
    && ends_with partial_suffix name
    && ltb (length partial_prefix + length partial_suffix) (length name)

pub data EntryNameProblem : Type 0 where
  of_segment : ProblemCode → EntryNameProblem
  space dot : EntryNameProblem

unfoldable pub entry_name_problem : Text → Option EntryNameProblem
unfolding name_problem trim text_eq ends_with
entry_name_problem name = elim (name_problem name) [
  | some segment ↦ some (of_segment segment.code)
  | none ↦
      if not (text_eq name (trim name))
      then some space
      else if ends_with (codes ".") name
      then some dot
      else none
]
