-- ===== src/TransferPlan/Names.antt =====
-- The name that `keep both` finds.
use trekker.Prelude.{
  ℕ, zero, suc, ◌+◌, ◌≤◌, ◌<◌, ◌≡◌, refl, subst, inl, inr, true, false, Option, none, some, List,
  arith, if◌then◌else◌, if_either, ◌==◌, Bool-cases, ==_iff,
}
use trekker.Text.{Text, member}
use trekker.TransferPlan.{numbered_name, max_keep_both_attempts, try_names, free_name}

-- The names in the order they are tried: the name itself, and then it with each number.
abbrev pub candidate : Text → ℕ → Text
candidate name k = if k == 1 then name else numbered_name name k

-- The first candidate from `from` to `to` that is not taken, or none if all of them are.
abbrev pub IsFirstFree : Text → List Text → ℕ → ℕ → Option Text → Type 0
IsFirstFree name taken from to none =
    (j : ℕ) → from ≤ j → j < to → member (candidate name j) taken ≡ true
IsFirstFree name taken from to (some c) =
    (member c taken ≡ false)
    × ((k : ℕ) × (from ≤ k)
        × (k < to)
        × (candidate name k ≡ c)
        × ((j : ℕ) → from ≤ j → j < k → member (candidate name j) taken ≡ true))

step_taken :
    (name : Text) (taken : List Text) (from to : ℕ)
    → member (candidate name from) taken ≡ true
    → ((j : ℕ) → suc from ≤ j → j < to → member (candidate name j) taken ≡ true)
    → (j : ℕ) → from ≤ j
    → j < to
    → member (candidate name j) taken ≡ true
step_taken name taken from to h hs j l u = elim (Bool-cases (from == j)) [
  | inl e ↦ subst_at ((==_iff from j).0 e)
  | inr e ↦ hs j (let ne : suc from ≤ j = ground (arith, e, l) in ne) u
]
  where
    subst_at : from ≡ j → member (candidate name j) taken ≡ true
    subst_at e = subst (λ x. member (candidate name x) taken ≡ true) e h

step_first :
    (name : Text) (taken : List Text) (from to : ℕ) (r : Option Text)
    → member (candidate name from) taken ≡ true
    → IsFirstFree name taken (suc from) to r
    → IsFirstFree name taken from to r
step_first name taken from to none h = λ hs. step_taken name taken from to h hs
step_first name taken from to (some c) h = λ (free, (k, low, high, same, before)).
    (free, (k, omega arith, high, same, step_taken name taken from k h before))

first_here :
    (name : Text) (taken : List Text) (from to : ℕ)
    → from < to
    → member (candidate name from) taken ≡ false
    → IsFirstFree name taken from to (some (candidate name from))
first_here name taken from to l h = (h, (from, omega arith, l, refl, λ j a b. absurd (omega arith)))

candidate_numbered : (name : Text) (n : ℕ) → 2 ≤ n → candidate name n ≡ numbered_name name n
candidate_numbered name n h =
    if_either (λ c. c ≡ numbered_name name n) (n == 1)
      (λ e. let one : n ≡ 1 = (==_iff n 1).0 e in absurd (omega arith)) (λ _. refl)

shift : (a b : ℕ) → suc a + b ≡ a + suc b
shift a b = omega arith

try_names-first :
    (left attempt : ℕ) (name : Text) (taken : List Text)
    → 2 ≤ attempt
    → IsFirstFree name taken attempt (attempt + left) (try_names left attempt name taken)
unfolding try_names
try_names-first zero attempt name taken h = λ j a b. absurd (omega arith)
try_names-first (suc left) attempt name taken h =
    let same = candidate_numbered name attempt h in
    if_either (IsFirstFree name taken attempt (attempt + suc left))
      (member (numbered_name name attempt) taken)
      (λ e. step_first name taken attempt (attempt + suc left) _ (rw same e) (
        subst
          (λ to. IsFirstFree name taken (suc attempt) to (try_names left (suc attempt) name taken))
          (shift attempt left) (try_names-first left (suc attempt) name taken (omega arith))))
      (λ e.
        subst (λ c. IsFirstFree name taken attempt (attempt + suc left) (some c)) same
          (first_here name taken attempt (attempt + suc left) (omega arith) (rw same e)))

-- The name chosen is not taken and is the first such of the name itself and `name (2)` to
-- `name (999)`; there is none only if all of these are taken.
pub free_name-IsFirstFree :
    (name : Text) (taken : List Text)
    → IsFirstFree name taken 1 max_keep_both_attempts (free_name name taken)
unfolding free_name
free_name-IsFirstFree name taken =
    if_either (IsFirstFree name taken 1 1000) (member name taken)
      (λ e. step_first name taken 1 1000 _ e (try_names-first 998 2 name taken (omega arith)))
      (λ e. first_here name taken 1 1000 (omega arith) e)
