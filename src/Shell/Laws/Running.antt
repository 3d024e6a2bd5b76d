-- ===== src/Shell/Laws/Running.antt =====
-- Runs of the lexer over quoted arguments, plain words and the prefixes.
use trekker.Prelude.{
  ℕ, ◌≡◌, inl, inr, true, Option, none, some, List, [], ◌∷◌, ◌++◌, append-nil, append_assoc, arith,
  ◌==◌, if◌then◌else◌, All, Bool-cases, Option-cases, ==_iff,
}
use trekker.Text.{Text, split, join, includes}
use trekker.Text.Laws.{join-push_head, join-split_sep}
use trekker.Shell.{returned, quoted_quote, quote, quote_argument}
use trekker.Shell.Lexer.{Lexer, Mode, bare, quoted, is_plain, opened, step, step_in, run}

abbrev pub at : Mode → Option Text → List Text → Lexer
at m w ws = record { mode = m; word = w; words = ws }

pub run-append : (xs ys : Text) (l m : Lexer) → run xs l ≡ some m → run (xs ++ ys) l ≡ run ys m
unfolding run
run-append [] ys l m h = ground arith
run-append (x ∷ xs) ys l m h = elim (Option-cases (step x l)) [
  | inl e ↦ absurd (ground arith)
  | inr (k, e) ↦ ground (arith, run-append xs ys k m)
]

-- `argument.split("'").join("'\\''")`
abbrev pub escape : Text → Text
escape a = join quoted_quote (split quote a)

escape-cons :
    (c : ℕ) (a : Text)
    → escape (c ∷ a) ≡ (if c == quote then quoted_quote ++ escape a else c ∷ escape a)
unfolding split
escape-cons c a = elim (Bool-cases (c == quote)) [
  | inl e ↦ rw e (join-split_sep quoted_quote quote a)
  | inr e ↦ rw e (join-push_head quoted_quote c (split quote a))
]

pub run-escape :
    (a w : Text) (ws : List Text)
    → run (escape a) (at quoted (some w) ws) ≡ some (at quoted (some (w ++ a)) ws)
unfolding run step_in split join
run-escape [] w ws = rw append-nil
run-escape (c ∷ a) w ws = elim (Bool-cases (c == quote)) [
  | inl e ↦ rw (escape-cons c a) (
      rw e (
        ground (
          arith,
          run-escape a (w ++ quote ∷ []) ws,
          append_assoc w (quote ∷ []) a,
          (==_iff c quote).0 e,
        )))
  | inr e ↦
      rw (escape-cons c a)
        (rw e (ground (arith, run-escape a (w ++ c ∷ []) ws, append_assoc w (c ∷ []) a)))
]

-- A quoted argument adds exactly its text to the word that stands before it.
pub run-quote_argument :
    (a q : Text) (w : Option Text) (ws : List Text)
    → quote_argument a ≡ returned q
    → run q (at bare w ws) ≡ some (at bare (some (opened w ++ a)) ws)
unfolding quote_argument run step_in
run-quote_argument a q w ws h = elim (Bool-cases (includes 0 a)) [
  | inl e ↦ absurd (ground arith)
  | inr e ↦ ground (
    arith,
    run-escape a (opened w) ws,
    run-append (escape a) (quote ∷ []) (at quoted (some (opened w)) ws)
        (at quoted (some (opened w ++ a)) ws),
  )
]

abbrev pub IsPlain : Text → Type 0
IsPlain = All (λ c. is_plain c ≡ true)

run-plain :
    (s w : Text) (ws : List Text)
    → IsPlain s
    → run s (at bare (some w) ws) ≡ some (at bare (some (w ++ s)) ws)
unfolding run step_in
run-plain [] w ws h = rw append-nil
run-plain (c ∷ s) w ws h =
    ground (arith, run-plain s (w ++ c ∷ []) ws h.1, append_assoc w (c ∷ []) s, h.0)

-- A name of plain characters, with at least one.
abbrev pub IsWord : Text → Type 0
IsWord [] = ⊥
IsWord (c ∷ s) = (is_plain c ≡ true) × IsPlain s

pub run-word :
    (s : Text) (ws : List Text) → IsWord s → run s (at bare none ws) ≡ some (at bare (some s) ws)
unfolding run step_in
run-word [] ws h = absurd h
run-word (c ∷ s) ws h = ground (arith, run-plain s (c ∷ []) ws h.1, h.0)
