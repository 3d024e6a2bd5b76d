-- ===== src/Shell/Lexer.antt =====
-- How a POSIX shell splits a simple command into words, as far as single quotes, backslashes and
-- blanks go (XCU 2.2 and 2.3). A character with any other meaning to the shell makes it give up,
-- so a command that is split has no expansion, redirection, separator or comment in it. That a word
-- with `=` in front of the command is an assignment is left out.
use trekker.Prelude.{
  ℕ, Bool, ◌&&◌, ◌||◌, Option, none, some, List, [], ◌∷◌, ◌++◌, ◌==◌, leb, if◌then◌else◌,
}
use trekker.Text.{Text}

pub data Mode : Type 0 where
  bare quoted escaped : Mode

-- `word` is the word that has been begun, `words` are those that are complete.
pub record Lexer : Type 0 where
  pub mode : Mode
  pub word : Option Text
  pub words : List Text

-- A letter, a digit, or one of `% + , - . / : = @ _`: a character that stands for itself unquoted.
abbrev pub is_plain : ℕ → Bool
is_plain c =
    (leb 97 c && leb c 122)
    || (leb 65 c && leb c 90)
    || (leb 43 c && leb c 58)
    || (c == 37 || c == 61 || c == 64 || c == 95)

abbrev pub opened : Option Text → Text
opened none = []
opened (some w) = w

abbrev pub closed : Option Text → List Text → List Text
closed none ws = ws
closed (some w) ws = ws ++ w ∷ []

abbrev pub put : Mode → ℕ → Lexer → Option Lexer
put m c l = some (record l { mode = m; word = some (opened l.word ++ c ∷ []) })

unfoldable pub step_in : Mode → ℕ → Lexer → Option Lexer
step_in quoted c l = if c == 39 then some (record l { mode = bare }) else put quoted c l
step_in escaped c l = put bare c l
step_in bare c l =
    if c == 32
    then some (record { mode = bare; word = none; words = closed l.word l.words })
    else if c == 39
    then some (record l { mode = quoted; word = some (opened l.word) })
    else if c == 92
    then some (record l { mode = escaped; word = some (opened l.word) })
    else if is_plain c
    then put bare c l
    else none

abbrev pub step : ℕ → Lexer → Option Lexer
step c l = step_in l.mode c l

unfoldable pub run : Text → Lexer → Option Lexer
run [] l = some l
run (c ∷ s) l = elim (step c l) [ none ↦ none | some l' ↦ run s l' ]

abbrev pub start : Lexer
start = record { mode = bare; word = none; words = [] }

abbrev pub finish : Mode → Lexer → Option (List Text)
finish bare l = some (closed l.word l.words)
finish _ l = none

-- The words of a whole command line.
unfoldable pub shell_words : Text → Option (List Text)
unfolding run step_in
shell_words s = elim (run s start) [ none ↦ none | some l ↦ finish l.mode l ]
