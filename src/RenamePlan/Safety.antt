-- ===== src/RenamePlan/Safety.antt =====
-- A plan that is not refused loses no file.
use trekker.Prelude.{
  ◌≤◌, ◌≡◌, refl, sym, ap, subst, ◌∙◌, inl, inr, Bool, true, false, not, none, some, List, [], ◌∷◌,
  arith, Bool-cases, Option-cases, if◌then◌else◌, if_either, map, length, All, All-any,
}
use mathlib.Core.Bool.{false≢true}
use trekker.Text.{Text, text_eq, member}
use trekker.Text.Laws.{text_eq_refl}
use trekker.Text.Unique.{AreUnique, map-AreUnique, member-filter, eq_of_short}
use trekker.RenamePlan.{
  RenameMapping, RenamePlan, RenameInput, Applied, is_some, is_refused, moves_of, moving, names_of,
  occupied, targets_from, sharing, name_problem, problem_of, mappings_of, judged, plan_from, judge,
  Targets,
}
use trekker.RenamePlan.Targets.{leading_to, sharing-targets_from}

-- Where the batch takes a name of the directory.
abbrev pub renamed : List RenameMapping → Text → Text
renamed [] name = name
renamed (m ∷ ms) name = if text_eq m.name name then m.next else renamed ms name

-- A mapping with no problem has a free target of its own.
abbrev IsClear : List Text → Targets → Text → Type 0
IsClear taken targets next =
    (name_problem next ≡ none) × (length (sharing next targets) ≤ 1) × (member next taken ≡ false)

problem_of-IsClear :
    (taken : List Text) (targets : Targets) (m : RenameMapping)
    → problem_of taken targets m ≡ none
    → IsClear taken targets m.next
unfolding problem_of
problem_of-IsClear taken targets m h = elim (Option-cases (name_problem m.next)) [
  | inr (p, e) ↦ absurd (ground (arith, e))
  | inl e ↦ (e, ground (arith, e), ground (arith, e))
]

-- The targets of a batch all of whose moving mappings are clear.
module _ (taken : List Text) (targets : Targets) where
  renamed-IsClear :
      (ms : List RenameMapping) (a : Text)
      → All (λ (m : RenameMapping). IsClear taken targets m.next) ms
      → member a (names_of ms) ≡ true
      → IsClear taken targets (renamed ms a)
  unfolding member
  renamed-IsClear [] a h e = cc
  renamed-IsClear (m ∷ ms) a h e =
      if_either (IsClear taken targets) (text_eq m.name a) (λ f. h.0)
        (λ f. renamed-IsClear ms a h.1 (ground (arith, e, f)))

renamed_still :
    (ms : List RenameMapping) (a : Text) → member a (names_of ms) ≡ false → renamed ms a ≡ a
unfolding member
renamed_still [] a h = refl
renamed_still (m ∷ ms) a h = ground (arith, renamed_still ms a)

keep-leading_to :
    (m : RenameMapping) (ms : List RenameMapping) (next a : Text)
    → member a (names_of (leading_to next ms)) ≡ true
    → member a (names_of (leading_to next (m ∷ ms))) ≡ true
unfolding member
keep-leading_to m ms next a h =
    if_either (λ l. member a (names_of l) ≡ true) (text_eq m.next next) (λ e. ground (arith, h))
      (λ e. h)

-- A moved name is among those that lead to where it goes.
member-leading_to :
    (ms : List RenameMapping) (a : Text)
    → member a (names_of ms) ≡ true
    → member a (names_of (leading_to (renamed ms a) ms)) ≡ true
unfolding member
member-leading_to [] a h = h
member-leading_to (m ∷ ms) a h = elim (Bool-cases (text_eq m.name a)) [
  | inl e ↦ rw (e, text_eq_refl m.next) (ground (arith, e))
  | inr e ↦
      let later = member-leading_to ms a (ground (arith, h, e)) in
      let same : renamed (m ∷ ms) a ≡ renamed ms a = rw e in
      subst (λ n. member a (names_of (leading_to n (m ∷ ms))) ≡ true) (sym same)
        (keep-leading_to m ms (renamed ms a) a later)
]

abbrev ClearMoves : List Text → List RenameMapping → Type 0
ClearMoves existing ms =
    All (λ (m : RenameMapping). IsClear (occupied existing ms) (targets_from [] ms) m.next) ms

module _ (existing : List Text) (ms : List RenameMapping) (clear : ClearMoves existing ms) where
  target-IsClear :
      (a : Text)
      → member a (names_of ms) ≡ true
      → IsClear (occupied existing ms) (targets_from [] ms) (renamed ms a)
  target-IsClear a h = renamed-IsClear (occupied existing ms) (targets_from [] ms) ms a clear h

  both_moved :
      (a b : Text)
      → member a (names_of ms) ≡ true
      → member b (names_of ms) ≡ true
      → renamed ms a ≡ renamed ms b
      → a ≡ b
  both_moved a b ha hb e =
      let few = (target-IsClear a ha).1 in
      let shown = sharing-targets_from (renamed ms a) ms in
      eq_of_short a b (names_of (leading_to (renamed ms a) ms)) (rw shown at few)
        (member-leading_to ms a ha) (rw (← e) at (member-leading_to ms b hb))

  -- A name that stays is not the target of one that moves.
  one_moved :
      (a b : Text)
      → member b existing ≡ true
      → member a (names_of ms) ≡ true
      → member b (names_of ms) ≡ false
      → renamed ms a ≡ renamed ms b
      → ⊥
  unfolding occupied
  one_moved a b mb ha hb e =
      let free = (target-IsClear a ha).2 in
      let stays =
        member-filter (λ name. not (member name (names_of ms))) b existing mb (rw hb refl) in
      false≢true
        (sym free ∙ ap (λ t. member t (occupied existing ms)) (e ∙ renamed_still ms b hb) ∙ stays)

  renamed_injective :
      (a b : Text)
      → member a existing ≡ true
      → member b existing ≡ true
      → renamed ms a ≡ renamed ms b
      → a ≡ b
  renamed_injective a b ma mb e = elim (Bool-cases (member a (names_of ms))) [
    | inl ha ↦ elim (Bool-cases (member b (names_of ms))) [
      | inl hb ↦ both_moved a b ha hb e
      | inr hb ↦ absurd (one_moved a b mb ha hb e)
    ]
    | inr ha ↦ elim (Bool-cases (member b (names_of ms))) [
      | inl hb ↦ absurd (one_moved b a ma hb ha (sym e))
      | inr hb ↦ sym (renamed_still ms a ha) ∙ e ∙ renamed_still ms b hb
    ]
  ]

judged-none :
    (taken : List Text) (targets : Targets) (m : RenameMapping)
    → m.changed ≡ true
    → is_some (judged taken targets m).problem ≡ false
    → problem_of taken targets m ≡ none
judged-none taken targets m e h = elim (Option-cases (problem_of taken targets m)) [
  | inl f ↦ f
  | inr (p, f) ↦ absurd (ground (arith, e, h, f))
]

-- From a plan that is not refused to the moves that it makes.
IsClear-of_judged :
    (taken : List Text) (targets : Targets) (ms : List RenameMapping)
    → All (λ (m : RenameMapping). is_some m.problem ≡ false) (map (judged taken targets) ms)
    → All (λ (m : RenameMapping). IsClear taken targets m.next) (moving ms)
IsClear-of_judged taken targets [] h = tt
IsClear-of_judged taken targets (m ∷ ms) h =
    if_either (All (λ (x : RenameMapping). IsClear taken targets x.next)) m.changed
      (λ e. (
        problem_of-IsClear taken targets m (judged-none taken targets m e h.0),
        IsClear-of_judged taken targets ms h.1,
      ))
      (λ e. IsClear-of_judged taken targets ms h.1)

judged_same :
    (taken : List Text) (targets : Targets) (m : RenameMapping)
    → ((judged taken targets m).changed ≡ m.changed)
      × ((judged taken targets m).name ≡ m.name)
      × ((judged taken targets m).next ≡ m.next)
judged_same taken targets m =
    if_either
      (λ (x : RenameMapping). (x.changed ≡ m.changed) × (x.name ≡ m.name) × (x.next ≡ m.next))
      m.changed (λ e. (refl, refl, refl)) (λ e. (refl, refl, refl))

renamed-cons :
    (b c : Bool) (m k : RenameMapping) (xs ys : List RenameMapping) (a : Text)
    → b ≡ c
    → m.name ≡ k.name
    → m.next ≡ k.next
    → renamed xs a ≡ renamed ys a
    → renamed (if b then m ∷ xs else xs) a ≡ renamed (if c then k ∷ ys else ys) a
renamed-cons true true m k xs ys a e f g h = cc
renamed-cons false false m k xs ys a e f g h = h
renamed-cons true false m k xs ys a e f g h = cc
renamed-cons false true m k xs ys a e f g h = cc

-- Judging changes no name and no target.
judged_keeps :
    (taken : List Text) (targets : Targets) (ms : List RenameMapping) (a : Text)
    → renamed (moving (map (judged taken targets) ms)) a ≡ renamed (moving ms) a
judged_keeps taken targets [] a = refl
judged_keeps taken targets (m ∷ ms) a =
    let (c, n, x) = judged_same taken targets m in
    renamed-cons _ m.changed (judged taken targets m) m _ (moving ms) a c n x
      (judged_keeps taken targets ms a)

map_pointwise :
    (f g : Text → Text) (xs : List Text) → ((x : Text) → f x ≡ g x) → map f xs ≡ map g xs
map_pointwise f g [] h = refl
map_pointwise f g (x ∷ xs) h = cc (h x, map_pointwise f g xs h)

plan_from-AreUnique :
    (input : RenameInput) (ms : List RenameMapping)
    → is_refused (plan_from input ms) ≡ false
    → AreUnique input.existing
    → AreUnique (map (renamed (moves_of (plan_from input ms))) input.existing)
unfolding is_refused moves_of
plan_from-AreUnique input ms ok u =
    let taken = occupied input.existing (moving ms) in
    let targets = targets_from [] (moving ms) in
    let clear = IsClear-of_judged taken targets ms (All-any _ (map (judged taken targets) ms) ok) in
    subst AreUnique
      (sym (
        map_pointwise (renamed (moving (map (judged taken targets) ms))) (renamed (moving ms))
          input.existing (judged_keeps taken targets ms)))
      (map-AreUnique (renamed (moving ms)) input.existing
        (renamed_injective input.existing (moving ms) clear) u)

judge-some :
    (input : RenameInput) (results : List Applied) {plan : RenamePlan}
    → judge input results ≡ some plan
    → (ms : List RenameMapping) × (plan_from input ms ≡ plan)
unfolding judge
judge-some input results h = elim (Option-cases (mappings_of input.names results)) [
  | inl e ↦ absurd (ground (arith, e))
  | inr (ms, e) ↦ (ms, ground (arith, e))
]

-- Carrying out a plan that is not refused takes the names of the directory, none of which stands
-- twice, to names none of which stands twice: no entry lands on another.
pub renamed-AreUnique :
    (input : RenameInput) (results : List Applied) (plan : RenamePlan)
    → judge input results ≡ some plan
    → is_refused plan ≡ false
    → AreUnique input.existing
    → AreUnique (map (renamed (moves_of plan)) input.existing)
renamed-AreUnique input results plan h ok u =
    let (ms, e) = judge-some input results h in
    subst (λ p. AreUnique (map (renamed (moves_of p)) input.existing)) e
      (plan_from-AreUnique input ms (ap is_refused e ∙ ok) u)
