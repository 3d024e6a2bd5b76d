-- ===== src/Text/Unique.antt =====
-- Lists of texts in which none stands twice, and membership in them.
use trekker.Prelude.{
  ◌≡◌, refl, sym, ap, ◌∙◌, Bool, true, false, ◌||◌, List, [], ◌∷◌, ◌++◌, map, arith, filter,
  Bool-cases, inl, inr, length, ◌≤◌,
}
use trekker.Text.{Text, text_eq, member}
use trekker.Text.Laws.{eq_of_text_eq, text_eq_refl, text_eq_comm}

abbrev pub IsFresh : Text → List Text → Type 0
IsFresh x xs = member x xs ≡ false

-- No identifier stands twice.
abbrev pub AreUnique : List Text → Type 0
AreUnique [] = Unit
AreUnique (x ∷ xs) = IsFresh x xs × AreUnique xs

pub member-append :
    (x : Text) (xs ys : List Text) → member x (xs ++ ys) ≡ (member x xs || member x ys)
unfolding member
member-append x [] ys = refl
member-append x (z ∷ xs) ys = ground (arith, member-append x xs ys)

pub member-filter :
    (p : Text → Bool) (x : Text) (xs : List Text)
    → member x xs ≡ true
    → p x ≡ true
    → member x (filter p xs) ≡ true
unfolding member
member-filter p x [] h e = h
member-filter p x (y ∷ ys) h e = elim (Bool-cases (text_eq y x)) [
  | inl same ↦ let py = ap p (eq_of_text_eq y x same) ∙ e in rw py (ground (arith, same))
  | inr other ↦
      let later = member-filter p x ys (ground (arith, h, other)) e in
      elim (Bool-cases (p y)) [ inl py ↦ rw py (ground (arith, later)) | inr py ↦ rw py later ]
]

pub AreUnique-push :
    (xs : List Text) (x : Text) → AreUnique xs → IsFresh x xs → AreUnique (xs ++ (x ∷ []))
unfolding member
AreUnique-push [] x u f = (refl, tt)
AreUnique-push (y ∷ ys) x (fresh, u) f = (
  rw (member-append y ys (x ∷ [])) (ground (arith, fresh, f, text_eq_comm x y)),
  AreUnique-push ys x u (ground (arith, f)),
)

-- Two members of a list with one element are the same.
pub eq_of_short :
    (x y : Text) (xs : List Text) → length xs ≤ 1 → member x xs ≡ true → member y xs ≡ true → x ≡ y
unfolding member
eq_of_short x y [] h mx my = cc
eq_of_short x y (z ∷ []) h mx my =
    sym (eq_of_text_eq z x (ground (arith, mx))) ∙ eq_of_text_eq z y (ground (arith, my))
eq_of_short x y (z ∷ w ∷ xs) h mx my = absurd (omega arith)

map-IsFresh :
    (f : Text → Text) (x : Text) (xs : List Text)
    → ((y : Text) → member y xs ≡ true → f x ≡ f y → x ≡ y)
    → IsFresh x xs
    → IsFresh (f x) (map f xs)
unfolding member
map-IsFresh f x [] inj h = refl
map-IsFresh f x (y ∷ ys) inj h =
    let rest = map-IsFresh f x ys (λ z m. inj z (ground (arith, m))) (ground (arith, h)) in
    elim (Bool-cases (text_eq (f y) (f x))) [
      | inr e ↦ ground (arith, e, rest)
      | inl e ↦
          let same = inj y (ground (arith, text_eq_refl y)) (sym (eq_of_text_eq (f y) (f x) e)) in
          absurd (cc (same, h, text_eq_refl y))
    ]

-- A map that is injective on the members keeps them apart.
pub map-AreUnique :
    (f : Text → Text) (xs : List Text)
    → ((x y : Text) → member x xs ≡ true → member y xs ≡ true → f x ≡ f y → x ≡ y)
    → AreUnique xs
    → AreUnique (map f xs)
unfolding member
map-AreUnique f [] inj u = tt
map-AreUnique f (x ∷ xs) inj u = (
  map-IsFresh f x xs (λ y m. inj x y (ground (arith, text_eq_refl x)) (ground (arith, m))) u.0,
  map-AreUnique f xs (λ y z m n. inj y z (ground (arith, m)) (ground (arith, n))) u.1,
)
