-- ===== src/Text/Laws.antt =====
-- Laws of the string functions.
use trekker.Prelude.{
  ℕ, ◌≡◌, refl, ap, subst, ◌↔◌, true, List, [], ◌∷◌, ◌++◌, inl, inr, arith, ◌==◌, All, Bool-cases,
  ◌∙◌, false, some, none, ==_refl, ◌||◌, all,
}
use trekker.Text.{
  is_dot, Text, text_eq, member, includes, push_head, split, join, cut_last, cut_first,
}

pub text_eq_refl : (s : Text) → text_eq s s ≡ true
unfolding text_eq
text_eq_refl [] = refl
text_eq_refl (a ∷ s) = ground (arith, text_eq_refl s)

pub eq_of_text_eq : (s t : Text) → text_eq s t ≡ true → s ≡ t
unfolding text_eq
eq_of_text_eq [] [] h = refl
eq_of_text_eq [] (b ∷ t) h = cc
eq_of_text_eq (a ∷ s) [] h = cc
eq_of_text_eq (a ∷ s) (b ∷ t) h = ground (arith, eq_of_text_eq s t)

pub text_eq_iff : (s t : Text) → (text_eq s t ≡ true) ↔ (s ≡ t)
text_eq_iff s t = (eq_of_text_eq s t, λ e. rw e (text_eq_refl t))

pub text_eq_comm : (s t : Text) → text_eq s t ≡ text_eq t s
text_eq_comm s t = elim (Bool-cases (text_eq s t)) [
  | inl e ↦ rw (e, eq_of_text_eq s t e, text_eq_refl) refl
  | inr e ↦ elim (Bool-cases (text_eq t s)) [
    | inl e' ↦ cc (e', text_eq_refl t, eq_of_text_eq t s e')
    | inr e' ↦ rw (e, e')
  ]
]

module _ (P : Text → Type 0) where
  pub All-member : (s : Text) (ts : List Text) → All P ts → member s ts ≡ true → P s
  unfolding member
  All-member s [] h m = cc
  All-member s (t ∷ ts) h m = elim (Bool-cases (text_eq t s)) [
    | inl e ↦ subst P (eq_of_text_eq t s e) h.0
    | inr e ↦ All-member s ts h.1 (ground arith)
  ]

pub split_cons : (sep : ℕ) (s : Text) → (w : Text) × (ws : List Text) × (split sep s ≡ w ∷ ws)
unfolding split
split_cons sep [] = ([], [], refl)
split_cons sep (c ∷ s) =
    let (w, ws, e) = split_cons sep s in
    elim (Bool-cases (c == sep)) [
      | inl h ↦ ([], split sep s, rw h)
      | inr h ↦ (c ∷ w, ws, rw h (ap (push_head c) e))
    ]

pub join-push_head :
    (sep : Text) (c : ℕ) (ws : List Text) → join sep (push_head c ws) ≡ c ∷ join sep ws
unfolding join
join-push_head sep c [] = refl
join-push_head sep c (w ∷ []) = refl
join-push_head sep c (w ∷ v ∷ ws) = refl

-- An empty first piece of a split text is the separator in front of the rest.
pub join-split_sep :
    (sep : Text) (c : ℕ) (s : Text) → join sep ([] ∷ split c s) ≡ sep ++ join sep (split c s)
unfolding join
join-split_sep sep c s = let (w, ws, e) = split_cons c s in rw e refl

-- A piece of a split text does not hold the separator.
pub split-All : (sep : ℕ) (s : Text) → All (λ w. includes sep w ≡ false) (split sep s)
unfolding split includes
split-All sep [] = (refl, tt)
split-All sep (c ∷ s) = elim (Bool-cases (c == sep)) [
  | inl e ↦ rw e (refl, split-All sep s)
  | inr e ↦ rw e (push_head-All sep c (split sep s) e (split-All sep s))
]
  where
    push_head-All :
        (sep c : ℕ) (ws : List Text)
        → (c == sep) ≡ false
        → All (λ w. includes sep w ≡ false) ws
        → All (λ w. includes sep w ≡ false) (push_head c ws)
    push_head-All sep c [] e h = (ground (arith, e), tt)
    push_head-All sep c (w ∷ ws) e h = (ground (arith, e, h.0), h.1)

pub split-append :
    (sep : ℕ) (w s : Text) → includes sep w ≡ false → split sep (w ++ sep ∷ s) ≡ w ∷ split sep s
unfolding split includes
split-append sep [] s h = rw (==_refl sep)
split-append sep (c ∷ w) s h = ground (arith, split-append sep w s)

pub split_whole : (sep : ℕ) (w : Text) → includes sep w ≡ false → split sep w ≡ w ∷ []
unfolding split includes
split_whole sep [] h = refl
split_whole sep (c ∷ w) h = ground (arith, split_whole sep w)

-- Joining the pieces and splitting again gives them back.
pub split-join :
    (sep : ℕ) (w : Text) (ws : List Text)
    → All (λ v. includes sep v ≡ false) (w ∷ ws)
    → split sep (join (sep ∷ []) (w ∷ ws)) ≡ w ∷ ws
unfolding join
split-join sep w [] h = split_whole sep w h.0
split-join sep w (v ∷ ws) h =
    split-append sep w (join (sep ∷ []) (v ∷ ws)) h.0 ∙ ap (λ l. w ∷ l) (split-join sep v ws h.1)

cut_last-none : (c : ℕ) (x : Text) → includes c x ≡ false → cut_last c x ≡ none
unfolding cut_last includes
cut_last-none c [] h = refl
cut_last-none c (d ∷ x) h = ground (arith, cut_last-none c x)

pub cut_last-append :
    (c : ℕ) (a x : Text) → includes c x ≡ false → cut_last c (a ++ c ∷ x) ≡ some (a, c ∷ x)
unfolding cut_last
cut_last-append c [] x h = rw (cut_last-none c x h, cut_last, ==_refl c)
cut_last-append c (d ∷ a) x h = rw (cut_last-append c a x h, cut_last)

pub cut_first-none : (c : ℕ) (x : Text) → includes c x ≡ false → cut_first c x ≡ none
unfolding cut_first includes
cut_first-none c [] h = refl
cut_first-none c (d ∷ x) h = ground (arith, cut_first-none c x)

pub cut_first-append :
    (c : ℕ) (a x : Text) → includes c a ≡ false → cut_first c (a ++ c ∷ x) ≡ some (a, c ∷ x)
unfolding cut_first includes
cut_first-append c [] x h = rw (==_refl c) refl
cut_first-append c (d ∷ a) x h = ground (arith, cut_first-append c a x, h)

pub includes-append :
    (c : ℕ) (xs ys : Text) → includes c (xs ++ ys) ≡ (includes c xs || includes c ys)
unfolding includes
includes-append c [] ys = refl
includes-append c (x ∷ xs) ys = let rest = includes-append c xs ys in ground (arith, rest)

pub append_without :
    (c : ℕ) (a b : Text) → includes c a ≡ false → includes c b ≡ false → includes c (a ++ b) ≡ false
unfolding includes
append_without c [] b h k = k
append_without c (x ∷ a) b h k =
    let rest = append_without c a b (ground (arith, h)) k in ground (arith, h, rest)

pub dots-newline : (s : Text) → all is_dot s ≡ true → includes 10 s ≡ false
unfolding includes
dots-newline [] h = refl
dots-newline (c ∷ s) h = let rest = dots-newline s (ground (arith, h)) in ground (arith, h, rest)
