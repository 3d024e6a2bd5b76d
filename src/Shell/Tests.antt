-- ===== src/Shell/Tests.antt =====
-- Runs of the quoting.
use trekker.Shell.Laws.{
  shell_words-build_remote_command, build_remote_command-returned_iff, nice_words, sudo_words,
  IsPermitted, NoNul, Fits,
}
use trekker.Prelude.{◌↔◌, All, List, ◌++◌, ◌≡◌, refl, some, [], ◌∷◌}
use trekker.Text.{Text, codes}
use trekker.Shell.{
  RemoteCommandOptions, returned, quote_argument, build_remote_command, password, integer,
}
use trekker.Shell.Lexer.{shell_words}

quote_test : quote_argument (codes "it's") ≡ returned (codes "'it'\\''s'")
unfolding quote_argument
quote_test = refl

abbrev as_root : RemoteCommandOptions
as_root = record { nice = some (integer 10); sudo = some password }

build_test :
    build_remote_command (codes "rm") (codes "-rf" ∷ codes "/a b/c's" ∷ []) as_root
    ≡ returned (codes "nice -n '10' sudo -S -p '' rm '-rf' '/a b/c'\\''s'")
unfolding build_remote_command
build_test = refl

words_test :
    shell_words (codes "nice -n '10' sudo -S -p '' rm '-rf' '/a b/c'\\''s'")
    ≡ some (
        codes "nice"
        ∷ codes "-n"
        ∷ codes "10"
        ∷ codes "sudo"
        ∷ codes "-S"
        ∷ codes "-p"
        ∷ []
        ∷ codes "rm"
        ∷ codes "-rf"
        ∷ codes "/a b/c's"
        ∷ [])
unfolding shell_words
words_test = refl

abbrev spaced : List Text
spaced = codes "-rf" ∷ codes "/a b/c's" ∷ []

shell_words-build_remote_command_example :
    shell_words (codes "nice -n '10' sudo -S -p '' rm '-rf' '/a b/c'\\''s'")
    ≡ some (nice_words (some (integer 10)) ++ (sudo_words (some password) ++ codes "rm" ∷ spaced))
shell_words-build_remote_command_example =
    shell_words-build_remote_command (codes "rm") spaced as_root
      (codes "nice -n '10' sudo -S -p '' rm '-rf' '/a b/c'\\''s'") build_test

build_remote_command-returned_iff_example :
    ((cmd : Text) × (build_remote_command (codes "rm") spaced as_root ≡ returned cmd))
    ↔ (IsPermitted (codes "rm") (some password) × All NoNul spaced × Fits (some (integer 10)))
build_remote_command-returned_iff_example =
    build_remote_command-returned_iff (codes "rm") spaced as_root
