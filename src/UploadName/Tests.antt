-- ===== src/UploadName/Tests.antt =====
-- Names of partial uploads and of new entries.
use trekker.Prelude.{◌≡◌, refl, false, none, some}
use trekker.Text.{codes, starts_with, text_eq, includes, trim}
use trekker.RenamePlan.{byte_length, name_problem}
use trekker.UploadName.{ends_with, is_partial_name, space, entry_name_problem}

notes_kept : is_partial_name (codes ".trekker-notes") ≡ false
unfolding is_partial_name starts_with ends_with text_eq
notes_kept = refl

no_token : is_partial_name (codes ".trekker-.part") ≡ false
unfolding is_partial_name starts_with ends_with text_eq
no_token = refl

trailing : entry_name_problem (codes "report ") ≡ some space
unfolding entry_name_problem name_problem includes text_eq byte_length trim
trailing = refl

accepted : entry_name_problem (codes "report.txt") ≡ none
unfolding entry_name_problem name_problem includes text_eq byte_length trim ends_with
accepted = refl
