-- ===== src/Shell/Laws/Guards.antt =====
-- When there is a command line at all.
use trekker.Prelude.{
  ℕ, ◌≤◌, ◌≡◌, ◌↔◌, refl, ◌⊎◌, inl, inr, true, false, ◌&&◌, ◌||◌, Option, none, some, List, [], ◌∷◌,
  ◌++◌, arith, All, Bool-cases, or_iff, or-false, leb,
}
use trekker.Text.{Text, codes, member, join, split, includes, digits_below_100}
use trekker.Shell.{
  returned, quote, quoted_quote, quote_argument, quote_arguments, SudoMode, allowed_programs,
  sudo_only_programs, is_allowed_program, is_sudo_only_program, Number, integer,
  RemoteCommandOptions, with_nice, with_sudo, has_sudo, build_remote_command,
}
use trekker.Shell.Laws.Commands.{>>=-eq-returned, refused-ne-returned}

-- The sudo-only programs need a `sudo` option; `nice` is an integer from 0 to 19.
abbrev pub IsPermitted : Text → Option SudoMode → Type 0
IsPermitted program none = member program allowed_programs ≡ true
IsPermitted program (some _) =
    (member program allowed_programs ≡ true) ⊎ (member program sudo_only_programs ≡ true)

abbrev pub Fits : Option Number → Type 0
Fits none = Unit
Fits (some (integer n)) = n ≤ 19
Fits (some _) = ⊥

abbrev pub NoNul : Text → Type 0
NoNul a = includes 0 a ≡ false

IsPermitted-iff :
    (program : Text) (sudo : Option SudoMode)
    → ((is_allowed_program program || (has_sudo sudo && is_sudo_only_program program)) ≡ true)
      ↔ IsPermitted program sudo
unfolding is_allowed_program is_sudo_only_program
IsPermitted-iff program none = rw or-false (λ h. h, λ h. h)
IsPermitted-iff program (some m) =
    or_iff (member program allowed_programs) (member program sudo_only_programs)

quote_arguments-NoNul : (args qs : List Text) → quote_arguments args ≡ returned qs → All NoNul args
unfolding quote_arguments quote_argument
quote_arguments-NoNul [] qs h = tt
quote_arguments-NoNul (a ∷ args) qs h =
    let (q, hq, rest) = >>=-eq-returned (quote_argument a) _ h in
    let (qs', hqs, e) = >>=-eq-returned (quote_arguments args) _ rest in
    (ground (arith, hq), quote_arguments-NoNul args qs' hqs)

quote_arguments_total :
    (args : List Text) → All NoNul args → (qs : List Text) × (quote_arguments args ≡ returned qs)
unfolding quote_arguments quote_argument
quote_arguments_total [] h = ([], refl)
quote_arguments_total (a ∷ args) h =
    let (qs, e) = quote_arguments_total args h.1 in
    ((quote ∷ (join quoted_quote (split quote a) ++ quote ∷ [])) ∷ qs, rw (h.0, e) refl)

digits-NoNul : (n : ℕ) → n ≤ 19 → NoNul (digits_below_100 n)
unfolding digits_below_100 includes
digits-NoNul n h = ground arith

with_nice_total :
    (nice : Option Number) (payload : Text)
    → Fits nice
    → (cmd : Text) × (with_nice nice payload ≡ returned cmd)
unfolding with_nice quote_argument
with_nice_total none payload h = (payload, refl)
with_nice_total (some (integer n)) payload h = (
  codes "nice -n "
      ++ ((quote ∷ (join quoted_quote (split quote (digits_below_100 n)) ++ quote ∷ []))
          ++ 32 ∷ payload),
  ground (arith, digits-NoNul n h),
)
with_nice_total (some _) payload h = absurd h

with_nice-Fits :
    (nice : Option Number) (payload cmd : Text) → with_nice nice payload ≡ returned cmd → Fits nice
unfolding with_nice
with_nice-Fits none payload cmd h = tt
with_nice-Fits (some (integer n)) payload cmd h = elim (Bool-cases (leb n 19)) [
  | inl e ↦ ground arith
  | inr e ↦ absurd (ground arith)
]
with_nice-Fits (some _) payload cmd h = cc

-- A command line is built exactly when the program is on the list that applies, no argument holds
-- a NUL, and the niceness, if any, is an integer from 0 to 19.
pub build_remote_command-returned_iff :
    (program : Text) (args : List Text) (options : RemoteCommandOptions)
    → ((cmd : Text) × (build_remote_command program args options ≡ returned cmd))
      ↔ (IsPermitted program options.sudo × All NoNul args × Fits options.nice)
unfolding build_remote_command
build_remote_command-returned_iff program args options = (
  λ h.
      elim (Bool-cases
        (is_allowed_program program || (has_sudo options.sudo && is_sudo_only_program program))) [
          | inr e ↦
              absurd (refused-ne-returned (is_sudo_only_program program) program (rw e at h.1))
          | inl e ↦
              let (qs, hqs, rest) = >>=-eq-returned (quote_arguments args) _ (rw e at h.1) in
              (
                (IsPermitted-iff program options.sudo).0 e,
                quote_arguments-NoNul args qs hqs,
                with_nice-Fits options.nice _ h.0 rest,
              )
        ],
  λ h.
      let (qs, hqs) = quote_arguments_total args h.1 in
      let (cmd, e) =
        with_nice_total options.nice (with_sudo options.sudo (join (32 ∷ []) (program ∷ qs))) h.2 in
      (cmd, rw ((IsPermitted-iff program options.sudo).1 h.0, hqs) e),
)
