-- ===== src/DeletePlan/Tests.antt =====
-- What is shown and asked for a delete, on examples.
use trekker.Prelude.{◌≡◌, refl, true, some, List, [], ◌∷◌}
use trekker.Text.{Text, codes, text_eq, trim, trim_end, cut_last, decimal}
use trekker.Shell.Lexer.{shell_words}
use trekker.DeletePlan.{
  last_name, confirmation_token, token_matches, freed_bytes, equivalent_command,
}
use trekker.DeletePlan.Commands.{shell_words-equivalent_command}

abbrev paths : List Text
paths = codes "/a b" ∷ codes "/it's" ∷ codes "/c=1" ∷ []

one : confirmation_token (codes "/var/log/" ∷ []) ≡ codes "log"
unfolding confirmation_token last_name trim_end cut_last
one = refl

three : confirmation_token paths ≡ codes "delete 3 items"
unfolding confirmation_token decimal
three = refl

forgiven : token_matches (codes "log ") (codes "log") ≡ true
unfolding token_matches trim text_eq
forgiven = refl

files_only :
    freed_bytes (
      record { kind = codes "directory"; size = 4096; uid = 0 }
      ∷ record { kind = codes "file"; size = 7; uid = 1 }
      ∷ [])
    ≡ 7
unfolding freed_bytes text_eq
files_only = refl

shell_words-equivalent_command_example :
    shell_words (equivalent_command paths true) ≡ some (codes "rm" ∷ codes "-rf" ∷ paths)
shell_words-equivalent_command_example = shell_words-equivalent_command paths true
