-- ===== src/DeletePlan/Commands.antt =====
-- The command that is shown for a delete, as a shell reads it.
use trekker.Prelude.{
  ℕ, ◌≡◌, refl, ap, ◌∙◌, sym, Bool, true, false, not, ◌&&◌, none, some, List, [], ◌∷◌, ◌++◌, map,
  append-nil, arith, if◌then◌else◌, all, if_either, and_true,
}
use trekker.Text.{Text, codes, is_empty, join}
use trekker.Shell.{quote}
use trekker.Shell.Lexer.{Lexer, bare, quoted, is_plain, closed, start, step_in, run, shell_words}
use trekker.Shell.Laws.Running.{at, run-append, run-escape, IsPlain, IsWord, run-word, escape}
use trekker.Shell.Laws.{tails, join-tails, settle, closed-settle}
use trekker.DeletePlan.{is_displayed, shell_display, equivalent_command}

displayed_plain : (c : ℕ) → is_displayed c ≡ true → is_plain c ≡ true
displayed_plain c h = ground (arith, h)

all-IsPlain : (s : Text) → all is_displayed s ≡ true → IsPlain s
all-IsPlain [] h = tt
all-IsPlain (c ∷ s) h =
    let (a, b) = and_true (is_displayed c) (all is_displayed s) h in
    (displayed_plain c a, all-IsPlain s b)

displayed-IsWord : (s : Text) → (not (is_empty s) && all is_displayed s) ≡ true → IsWord s
displayed-IsWord [] h = cc
displayed-IsWord (c ∷ s) h =
    let (a, b) = and_true (is_displayed c) (all is_displayed s) h in
    (displayed_plain c a, all-IsPlain s b)

-- A text in single quotes, its own quotes escaped, adds that text as a word.
run-quoted :
    (p : Text) (ws : List Text)
    → run (quote ∷ (escape p ++ (quote ∷ []))) (at bare none ws) ≡ some (at bare (some p) ws)
unfolding run step_in
run-quoted p ws = ground (
  arith,
  run-escape p [] ws,
  run-append (escape p) (quote ∷ []) (at quoted (some []) ws) (at quoted (some p) ws),
)

run-shell_display :
    (p : Text) (ws : List Text)
    → run (shell_display p) (at bare none ws) ≡ some (at bare (some p) ws)
unfolding shell_display
run-shell_display p ws =
    if_either (λ s. run s (at bare none ws) ≡ some (at bare (some p) ws))
      (not (is_empty p) && all is_displayed p) (λ e. run-word p ws (displayed-IsWord p e))
      (λ _. run-quoted p ws)

run-tails_display :
    (paths : List Text) (w : Text) (ws : List Text)
    → run (tails (map shell_display paths)) (at bare (some w) ws) ≡ some (settle w ws paths)
unfolding run step_in
run-tails_display [] w ws = refl
run-tails_display (p ∷ paths) w ws = ground (
  arith,
  run-append (shell_display p) (tails (map shell_display paths)) (at bare none (ws ++ w ∷ []))
      (at bare (some p) (ws ++ w ∷ [])),
  run-shell_display p (ws ++ w ∷ []),
  run-tails_display paths p (ws ++ w ∷ []),
)

-- The lexer after the paths, the last of which is still open.
run-paths :
    (paths : List Text) (ws : List Text)
    → (l : Lexer) × (run (join (32 ∷ []) (map shell_display paths)) (at bare none ws) ≡ some l)
      × (l.mode ≡ bare)
      × (closed l.word l.words ≡ ws ++ paths)
unfolding run join
run-paths [] ws = (at bare none ws, refl, refl, sym (append-nil ws))
run-paths (p ∷ paths) ws =
    let (l, e, m, c) = closed-settle p ws paths in
    (
      l,
      ap (λ t. run t (at bare none ws)) (join-tails (shell_display p) (map shell_display paths))
          ∙ run-append (shell_display p) (tails (map shell_display paths)) (at bare none ws)
              (at bare (some p) ws) (run-shell_display p ws)
          ∙ run-tails_display paths p ws
          ∙ ap some e,
      m,
      c,
    )

words_of_run :
    (cmd : Text) (ws : List Text) (l : Lexer)
    → run cmd start ≡ some l
    → l.mode ≡ bare
    → closed l.word l.words ≡ ws
    → shell_words cmd ≡ some ws
unfolding shell_words
words_of_run cmd ws l e m c = ground (arith, e, m, c)

-- The command that is shown, pasted into a shell, is `rm` with the flag and exactly the paths.
pub shell_words-equivalent_command :
    (paths : List Text) (recursive : Bool)
    → shell_words (equivalent_command paths recursive)
      ≡ some (codes "rm" ∷ (if recursive then codes "-rf" else codes "-f") ∷ paths)
unfolding equivalent_command run step_in
shell_words-equivalent_command paths true =
    let (l, e, m, c) = run-paths paths (codes "rm" ∷ codes "-rf" ∷ []) in words_of_run _ _ l e m c
shell_words-equivalent_command paths false =
    let (l, e, m, c) = run-paths paths (codes "rm" ∷ codes "-f" ∷ []) in words_of_run _ _ l e m c
