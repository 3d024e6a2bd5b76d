-- ===== src/RenamePlan/Targets.antt =====
-- The map of targets, read as a filter over the mappings that move.
use trekker.Prelude.{
  ◌≡◌, refl, sym, ap, ◌∙◌, inl, inr, Bool, true, false, List, [], ◌∷◌, ◌++◌, append-nil,
  append_assoc, filter, Bool-cases, if◌then◌else◌,
}
use mathlib.Core.Bool.{false≢true}
use trekker.Text.{Text, text_eq}
use trekker.Text.Laws.{eq_of_text_eq}
use trekker.RenamePlan.{RenameMapping, names_of, Targets, add_target, targets_from, sharing}

abbrev pub leading_to : Text → List RenameMapping → List RenameMapping
leading_to next = filter (λ (m : RenameMapping). text_eq m.next next)

abbrev singleton_if : Bool → Text → List Text
singleton_if b x = if b then x ∷ [] else []

sharing-add_target :
    (next key name : Text) (targets : Targets)
    → sharing next (add_target key name targets)
      ≡ sharing next targets ++ singleton_if (text_eq key next) name
unfolding sharing add_target
sharing-add_target next key name [] = refl
sharing-add_target next key name ((k, names) ∷ targets) =
    let ih = sharing-add_target next key name targets in
    elim (Bool-cases (text_eq k key)) [
      | inl same ↦
          let moved = ap (λ t. text_eq t next) (sym (eq_of_text_eq k key same)) in
          elim (Bool-cases (text_eq k next)) [
            | inl e ↦ rw (same, e, moved ∙ e) refl
            | inr e ↦ rw (same, e, moved ∙ e) (sym (append-nil (sharing next targets)))
          ]
      | inr other ↦ elim (Bool-cases (text_eq k next)) [
        | inl e ↦ rw (other, e, apart k key next e other) (sym (append-nil names))
        | inr e ↦ rw (other, e) ih
      ]
    ]
  where
    apart :
        (k key next : Text)
        → text_eq k next ≡ true
        → text_eq k key ≡ false
        → text_eq key next ≡ false
    apart k key next e other = elim (Bool-cases (text_eq key next)) [
      | inr f ↦ f
      | inl f ↦ absurd (false≢true (sym other ∙ ap (text_eq k) (eq_of_text_eq key next f) ∙ e))
    ]

names_of-leading_to :
    (next : Text) (m : RenameMapping) (ms : List RenameMapping)
    → singleton_if (text_eq m.next next) m.name ++ names_of (leading_to next ms)
      ≡ names_of (leading_to next (m ∷ ms))
names_of-leading_to next m ms = elim (Bool-cases (text_eq m.next next)) [
  | inl e ↦ rw e
  | inr e ↦ rw e
]

targets_from_lem :
    (next : Text) (targets : Targets) (ms : List RenameMapping)
    → sharing next (targets_from targets ms) ≡ sharing next targets ++ names_of (leading_to next ms)
unfolding targets_from
targets_from_lem next targets [] = sym (append-nil (sharing next targets))
targets_from_lem next targets (m ∷ ms) =
    targets_from_lem next (add_target m.next m.name targets) ms
    ∙ ap (λ l. l ++ names_of (leading_to next ms)) (sharing-add_target next m.next m.name targets)
    ∙ append_assoc (sharing next targets) (singleton_if (text_eq m.next next) m.name)
        (names_of (leading_to next ms))
    ∙ ap (λ l. sharing next targets ++ l) (names_of-leading_to next m ms)

-- What the map holds for a new name: the moving names that lead to it, in order.
pub sharing-targets_from :
    (next : Text) (ms : List RenameMapping)
    → sharing next (targets_from [] ms) ≡ names_of (leading_to next ms)
unfolding sharing
sharing-targets_from next ms = targets_from_lem next [] ms
