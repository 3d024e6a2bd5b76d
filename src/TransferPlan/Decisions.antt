-- ===== src/TransferPlan/Decisions.antt =====
-- Which conflicts still wait for an answer.
use trekker.Prelude.{
  ◌≡◌, ◌≢◌, ◌↔◌, refl, inl, inr, Bool, true, false, ◌&&◌, Option, List, [], ◌∷◌, map, if◌then◌else◌,
  if_either, Bool-cases, All,
}
use trekker.TransferPlan.{
  ConflictStrategy, PlannedItem, decision_of, or_else, decision_for, is_ask, undecided,
}

-- The item is no conflict, or there is an answer to it.
abbrev pub IsAnswered : ConflictStrategy → Option ConflictStrategy → Bool → Type 0
IsAnswered strategy chosen conflict =
    conflict ≡ true → or_else chosen strategy ≢ ConflictStrategy.ask

is_ask_of : (s : ConflictStrategy) → (is_ask (decision_of s) ≡ false) ↔ (s ≢ ConflictStrategy.ask)
is_ask_of ConflictStrategy.ask = (λ h _. cc, λ h. absurd (h refl))
is_ask_of ConflictStrategy.overwrite = (λ h e. cc, λ h. refl)
is_ask_of ConflictStrategy.skip = (λ h e. cc, λ h. refl)
is_ask_of ConflictStrategy.keep_both = (λ h e. cc, λ h. refl)

asks_iff :
    (strategy : ConflictStrategy) (chosen : Option ConflictStrategy) (conflict : Bool)
    → ((conflict && is_ask (decision_for strategy chosen conflict)) ≡ false)
      ↔ IsAnswered strategy chosen conflict
unfolding decision_for
asks_iff strategy chosen false = (λ h e. cc, λ h. refl)
asks_iff strategy chosen true =
    let (forth, back) = is_ask_of (or_else chosen strategy) in (λ h _. forth h, λ h. back (h refl))

-- With the blanket strategy and the answers to single rows, nothing is undecided exactly when every
-- conflict has an answer other than `ask`.
pub undecided-decision_for_iff :
    (strategy : ConflictStrategy) (chosen : PlannedItem → Option ConflictStrategy)
    (items : List PlannedItem)
    → (undecided items
          (map (λ (i : PlannedItem). decision_for strategy (chosen i) i.conflict) items)
        ≡ [])
      ↔ All (λ (i : PlannedItem). IsAnswered strategy (chosen i) i.conflict) items
unfolding undecided
undecided-decision_for_iff strategy chosen [] = (λ h. tt, λ h. refl)
undecided-decision_for_iff strategy chosen (i ∷ items) =
    let (forth, back) = undecided-decision_for_iff strategy chosen items in
    let (answered, asks) = asks_iff strategy (chosen i) i.conflict in
    (
      λ h. elim (Bool-cases (i.conflict && is_ask (decision_for strategy (chosen i) i.conflict))) [
        | inl e ↦ absurd (cc (h, taken e))
        | inr e ↦ (answered e, forth (left_out e h))
      ],
      λ (h, hs). skip_answered (asks h) (back hs),
    )
  where
    rest : List PlannedItem
    rest =
        undecided items
          (map (λ (i : PlannedItem). decision_for strategy (chosen i) i.conflict) items)

    test : Bool
    test = i.conflict && is_ask (decision_for strategy (chosen i) i.conflict)

    taken : test ≡ true → (if test then i ∷ rest else rest) ≡ i ∷ rest
    taken e = if_either (λ l. l ≡ i ∷ rest) test (λ _. refl) (λ f. absurd (cc (e, f)))

    left_out : test ≡ false → (if test then i ∷ rest else rest) ≡ [] → rest ≡ []
    left_out e = if_either (λ l. l ≡ [] → rest ≡ []) test (λ f. absurd (cc (e, f))) (λ _ h. h)

    skip_answered : test ≡ false → rest ≡ [] → (if test then i ∷ rest else rest) ≡ []
    skip_answered e h = if_either (λ l. l ≡ []) test (λ f. absurd (cc (e, f))) (λ _. h)
