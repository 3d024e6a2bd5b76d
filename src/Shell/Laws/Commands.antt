-- ===== src/Shell/Laws/Commands.antt =====
-- Whole command lines: what the shell splits them into, and when there is one.
use trekker.Prelude.{
  ◌≡◌, refl, ap, ◌∙◌, inl, inr, Bool, true, false, ◌&&◌, ◌||◌, Option, none, some, List, [], ◌∷◌,
  ◌++◌, append-nil, append_assoc, arith, All, Bool-cases, if◌then◌else◌, leb,
}
use trekker.Text.{Text, codes, join, digits_below_100}
use trekker.Text.Laws.{All-member}
use trekker.Shell.{
  Outcome, returned, thrown, sudo_only, not_listed, ◌>>=◌, quote_argument, quote_arguments,
  SudoMode, password, probe, sudo_prefix, allowed_programs, sudo_only_programs, is_allowed_program,
  is_sudo_only_program, Number, integer, RemoteCommandOptions, with_nice, with_sudo, has_sudo,
  build_remote_command,
}
use trekker.Shell.Lexer.{Lexer, bare, closed, step_in, run, shell_words}
use trekker.Shell.Laws.Running.{at, run-append, run-quote_argument, run-word, IsWord}

-- Inversion of a successful bind.
pub >>=-eq-returned :
    {A B : Type 0} (m : Outcome A) (f : A → Outcome B) {b : B}
    → (m >>= f) ≡ returned b
    → (a : A) × (m ≡ returned a) × (f a ≡ returned b)
>>=-eq-returned (returned a) f h = (a, refl, h)
>>=-eq-returned (thrown e) f h = cc

-- The pieces of a joined command after its first.
abbrev pub tails : List Text → Text
tails [] = []
tails (q ∷ qs) = 32 ∷ (q ++ tails qs)

pub join-tails : (w : Text) (qs : List Text) → join (32 ∷ []) (w ∷ qs) ≡ w ++ tails qs
unfolding join
join-tails w [] = rw append-nil
join-tails w (q ∷ qs) = ap (λ t. w ++ 32 ∷ t) (join-tails q qs)

-- The state of the lexer after the arguments: the last one is still open.
abbrev pub settle : Text → List Text → List Text → Lexer
settle w ws [] = at bare (some w) ws
settle w ws (a ∷ args) = settle a (ws ++ w ∷ []) args

pub closed-settle :
    (w : Text) (ws args : List Text)
    → (l : Lexer) × (settle w ws args ≡ l)
      × (l.mode ≡ bare)
      × (closed l.word l.words ≡ ws ++ w ∷ args)
closed-settle w ws [] = (_, refl, refl, refl)
closed-settle w ws (a ∷ args) =
    let (l, e, m, c) = closed-settle a (ws ++ w ∷ []) args in
    (l, e, m, c ∙ append_assoc ws (w ∷ []) (a ∷ args))

run-tails :
    (args qs : List Text) (w : Text) (ws : List Text)
    → quote_arguments args ≡ returned qs
    → run (tails qs) (at bare (some w) ws) ≡ some (settle w ws args)
unfolding run step_in quote_arguments
run-tails [] qs w ws h = ground arith
run-tails (a ∷ args) qs w ws h =
    let (q, hq, rest) = >>=-eq-returned (quote_argument a) _ h in
    let (qs', hqs, e) = >>=-eq-returned (quote_arguments args) _ rest in
    ground (
      arith,
      run-append q (tails qs') (at bare none (ws ++ w ∷ [])) (at bare (some a) (ws ++ w ∷ [])),
      run-quote_argument a q none (ws ++ w ∷ []) hq,
      run-tails args qs' a (ws ++ w ∷ []) hqs,
    )

allowed_words : All IsWord allowed_programs
allowed_words = ground arith

sudo_only_words : All IsWord sudo_only_programs
sudo_only_words = ground arith

program-IsWord :
    (program : Text) (sudo : Bool)
    → (is_allowed_program program || (sudo && is_sudo_only_program program)) ≡ true
    → IsWord program
unfolding is_allowed_program is_sudo_only_program
program-IsWord program sudo h = elim (Bool-cases (is_allowed_program program)) [
  | inl e ↦ All-member IsWord program allowed_programs allowed_words e
  | inr e ↦ All-member IsWord program sudo_only_programs sudo_only_words (ground arith)
]

-- The words that `sudo` and `nice` put in front of the program.
abbrev pub sudo_words : Option SudoMode → List Text
sudo_words none = []
sudo_words (some probe) = codes "sudo" ∷ codes "-n" ∷ []
sudo_words (some password) = codes "sudo" ∷ codes "-S" ∷ codes "-p" ∷ [] ∷ []

abbrev pub nice_words : Option Number → List Text
nice_words (some (integer n)) = codes "nice" ∷ codes "-n" ∷ digits_below_100 n ∷ []
nice_words _ = []

run-with_sudo :
    (sudo : Option SudoMode) (command : Text) (ws : List Text)
    → run (with_sudo sudo command) (at bare none ws)
      ≡ run command (at bare none (ws ++ sudo_words sudo))
unfolding run step_in sudo_prefix
run-with_sudo none command ws = rw append-nil
run-with_sudo (some probe) command ws = simp append_assoc
run-with_sudo (some password) command ws = simp append_assoc

run-with_nice :
    (nice : Option Number) (payload cmd : Text)
    → with_nice nice payload ≡ returned cmd
    → run cmd (at bare none []) ≡ run payload (at bare none (nice_words nice))
unfolding run step_in with_nice
run-with_nice none payload cmd h = ground arith
run-with_nice (some (integer n)) payload cmd h = elim (Bool-cases (leb n 19)) [
  | inl fits ↦
      let (q, hq, e) =
        >>=-eq-returned (quote_argument (digits_below_100 n)) _ (rw (fits, with_nice) at h) in
      ground (
        arith,
        run-append q (32 ∷ payload) (at bare none (codes "nice" ∷ codes "-n" ∷ []))
            (at bare (some (digits_below_100 n)) (codes "nice" ∷ codes "-n" ∷ [])),
        run-quote_argument (digits_below_100 n) q none (codes "nice" ∷ codes "-n" ∷ []) hq,
      )
  | inr big ↦ absurd (ground arith)
]
run-with_nice (some _) payload cmd h = cc

run-command :
    (program : Text) (args qs ws : List Text)
    → IsWord program
    → quote_arguments args ≡ returned qs
    → run (join (32 ∷ []) (program ∷ qs)) (at bare none ws) ≡ some (settle program ws args)
run-command program args qs ws h e = rw (join-tails program qs) (
    run-append program (tails qs) (at bare none ws) (at bare (some program) ws)
      (run-word program ws h)
    ∙ run-tails args qs program ws e)

shell_words_of_run :
    (cmd program : Text) (ws args : List Text)
    → run cmd (at bare none []) ≡ some (settle program ws args)
    → shell_words cmd ≡ some (ws ++ program ∷ args)
unfolding shell_words
shell_words_of_run cmd program ws args h =
    let (l, e, m, c) = closed-settle program ws args in ground (arith, h, e, m, c)

pub refused-ne-returned :
    (b : Bool) (program : Text) {cmd : Text}
    → (if b then thrown (sudo_only program) else thrown (not_listed program)) ≡ returned cmd
    → ⊥
refused-ne-returned true program h = cc
refused-ne-returned false program h = cc

-- Whatever the arguments hold, a command line that is built is split by the shell into exactly the
-- program and the arguments it was built from, behind the words that `nice` and `sudo` add.
pub shell_words-build_remote_command :
    (program : Text) (args : List Text) (options : RemoteCommandOptions) (cmd : Text)
    → build_remote_command program args options ≡ returned cmd
    → shell_words cmd
      ≡ some (nice_words options.nice ++ (sudo_words options.sudo ++ program ∷ args))
unfolding build_remote_command
shell_words-build_remote_command program args options cmd h =
    elim (Bool-cases
      (is_allowed_program program || (has_sudo options.sudo && is_sudo_only_program program))) [
        | inr e ↦ absurd (refused-ne-returned (is_sudo_only_program program) program (rw e at h))
        | inl e ↦
            let (qs, hqs, rest) = >>=-eq-returned (quote_arguments args) _ (rw e at h) in
            let ran =
              run-with_nice options.nice _ cmd rest
              ∙ run-with_sudo options.sudo _ (nice_words options.nice)
              ∙ run-command program args qs (nice_words options.nice ++ sudo_words options.sudo)
                  (program-IsWord program _ e) hqs in
            shell_words_of_run cmd program _ args ran
            ∙ ap some
                (append_assoc (nice_words options.nice) (sudo_words options.sudo) (program ∷ args))
      ]
