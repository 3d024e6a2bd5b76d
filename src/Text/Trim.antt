-- ===== src/Text/Trim.antt =====
-- Texts that `trimEnd` leaves as they are.
use trekker.Prelude.{ℕ, ◌≡◌, refl, Bool, true, false, not, [], ◌∷◌, ◌++◌, arith}
use trekker.Text.{Text, is_space, trim_end_space}

-- The last character is no white space, and there is one.
unfoldable pub ends_open : Text → Bool
unfolding is_space
ends_open [] = false
ends_open (c ∷ []) = not (is_space c)
ends_open (c ∷ d ∷ s) = ends_open (d ∷ s)

pub ends_open_space : (c : ℕ) → ends_open (c ∷ []) ≡ true → is_space c ≡ false
unfolding ends_open
ends_open_space c h = ground (arith, h)

pub trim_end_space-whole : (s : Text) → ends_open s ≡ true → trim_end_space s ≡ s
unfolding trim_end_space ends_open
trim_end_space-whole [] h = refl
trim_end_space-whole (c ∷ []) h = rw (ends_open_space c h) refl
trim_end_space-whole (c ∷ d ∷ s) h = rw (trim_end_space-whole (d ∷ s) h) refl

pub ends_open-cons : (c : ℕ) (s : Text) → ends_open s ≡ true → ends_open (c ∷ s) ≡ true
unfolding ends_open
ends_open-cons c [] h = cc
ends_open-cons c (d ∷ s) h = h

pub ends_open-append : (xs s : Text) → ends_open s ≡ true → ends_open (xs ++ s) ≡ true
ends_open-append [] s h = h
ends_open-append (x ∷ xs) s h = ends_open-cons x (xs ++ s) (ends_open-append xs s h)
