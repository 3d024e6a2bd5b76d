-- ===== src/UploadName/Partial.antt =====
-- Which names the sweep of partial uploads takes for its own.
use trekker.Prelude.{
  ℕ, ◌<◌, ◌≡◌, ◌↔◌, refl, sym, ap, subst, ◌∙◌, inl, inr, Bool, true, ◌&&◌, [], ◌∷◌, ◌++◌, arith,
  ltb, length, length-append, and_true, Bool-cases, append_assoc,
}
use trekker.Text.{Text, text_eq, starts_with}
use trekker.Text.Laws.{text_eq_refl, eq_of_text_eq}
use trekker.UploadName.{partial_prefix, partial_suffix, partial_name, ends_with, is_partial_name}

starts_with-split : (p n : Text) → starts_with p n ≡ true → (r : Text) × (n ≡ p ++ r)
unfolding starts_with
starts_with-split [] n h = (n, refl)
starts_with-split (a ∷ p) [] h = cc
starts_with-split (a ∷ p) (b ∷ n) h =
    let (r, e) = starts_with-split p n (ground (arith, h)) in
    let same : a ≡ b = ground (arith, h) in (r, cc (same, e))

ends_with-split : (s n : Text) → ends_with s n ≡ true → (a : Text) × (n ≡ a ++ s)
unfolding ends_with
ends_with-split s [] h = ([], eq_of_text_eq [] s h)
ends_with-split s (c ∷ n) h = elim (Bool-cases (text_eq (c ∷ n) s)) [
  | inl e ↦ ([], eq_of_text_eq (c ∷ n) s e)
  | inr e ↦ let (a, f) = ends_with-split s n (ground (arith, h, e)) in (c ∷ a, ap (λ t. c ∷ t) f)
]

starts_with-append : (p r : Text) → starts_with p (p ++ r) ≡ true
unfolding starts_with
starts_with-append [] r = refl
starts_with-append (a ∷ p) r = ground (arith, starts_with-append p r)

ends_with-append : (s a : Text) → ends_with s (a ++ s) ≡ true
unfolding ends_with
ends_with-append [] [] = refl
ends_with-append (c ∷ s) [] = ground (arith, text_eq_refl (c ∷ s))
ends_with-append s (c ∷ a) = ground (arith, ends_with-append s a)

-- Of two ways to cut a text, the longer front begins with the shorter one.
longer_front :
    (p r a s : Text)
    → p ++ r ≡ a ++ s
    → length p < length a
    → (t : Text) × (0 < length t) × (a ≡ p ++ t)
longer_front [] r a s e l = (a, l, refl)
longer_front (x ∷ p) r [] s e l = absurd (omega arith)
longer_front (x ∷ p) r (y ∷ a) s e l =
    let tail : p ++ r ≡ a ++ s = cc e in
    let head : x ≡ y = cc e in
    let (t, n, f) = longer_front p r a s tail (omega (arith, l)) in (t, n, cc (head, f))

all_three : (a b : Bool) (n : ℕ) → a ≡ true → b ≡ true → 14 < n → (a && b && ltb 14 n) ≡ true
all_three a b n ha hb l = ground (arith, ha, hb, l)

-- A name is taken for a partial upload exactly when it is the name that some token, not the empty
-- one, gives: the sweep, which deletes, takes no other.
pub is_partial_name_iff :
    (name : Text)
    → (is_partial_name name ≡ true)
      ↔ ((token : Text) × (0 < length token) × (name ≡ partial_name token))
unfolding is_partial_name partial_name
is_partial_name_iff name = (forth, back)
  where
    forth :
        is_partial_name name ≡ true
        → (token : Text) × (0 < length token) × (name ≡ partial_name token)
    forth h =
        let (both, long) =
          and_true (starts_with partial_prefix name && ends_with partial_suffix name) _ h in
        let (front, behind) =
          and_true (starts_with partial_prefix name) (ends_with partial_suffix name) both in
        let (r, e) = starts_with-split partial_prefix name front in
        let (a, f) = ends_with-split partial_suffix name behind in
        let size : 14 < length name = ground (arith, long) in
        let sum = ap length f ∙ length-append a partial_suffix in
        let (t, n, g) =
          longer_front partial_prefix r a partial_suffix (sym e ∙ f) (omega (arith, size, sum)) in
        (t, n, f ∙ ap (λ x. x ++ partial_suffix) g ∙ append_assoc partial_prefix t partial_suffix)

    back :
        (token : Text) × (0 < length token) × (name ≡ partial_name token)
        → is_partial_name name ≡ true
    back (t, n, e) =
        let behind =
          subst (λ x. ends_with partial_suffix x ≡ true)
            (append_assoc partial_prefix t partial_suffix)
            (ends_with-append partial_suffix (partial_prefix ++ t)) in
        let long : 14 < length (partial_name t) = omega (
          arith,
          n,
          length-append partial_prefix (t ++ partial_suffix),
          length-append t partial_suffix,
        ) in
        subst (λ x. is_partial_name x ≡ true) (sym e)
          (all_three _ _ _ (starts_with-append partial_prefix (t ++ partial_suffix)) behind long)
