-- ===== src/PathGuard/Paths.antt =====
-- The path strings: what cleaning makes of a path, and containment read segment by segment.
use trekker.Prelude.{
  ℕ, ◌≡◌, ◌↔◌, refl, sym, ap, ap₂, ◌∙◌, true, false, not, ◌||◌, List, [], ◌∷◌, ◌++◌, append-nil,
  append_assoc, arith, All, ==_iff,
}
use trekker.Text.{Text, text_eq, includes, starts_with, split, join, non_empty, is_empty}
use trekker.Text.Laws.{split-All, split-join}
use trekker.PathGuard.{slash, root, contains, clean_path}

-- Equality or a longer path: one test once both carry the separator.
below_eq :
    (c : ℕ) (a p : Text)
    → (text_eq p a || starts_with (a ++ c ∷ []) p) ≡ starts_with (a ++ c ∷ []) (p ++ c ∷ [])
unfolding text_eq starts_with
below_eq c [] [] = ground arith
below_eq c [] (x ∷ p) = ground arith
below_eq c (x ∷ a) [] =
    elim a
      as (λ a.
        (text_eq [] (x ∷ a) || starts_with ((x ∷ a) ++ c ∷ []) [])
        ≡ starts_with ((x ∷ a) ++ c ∷ []) ([] ++ c ∷ [])) [
          | [] ↦ ground arith
          | _ ∷ _ ↦ ground arith
        ]
below_eq c (x ∷ a) (y ∷ p) = ground (arith, below_eq c a p, ==_iff x y, ==_iff y x)

-- A segment of a path: not empty, and with no separator in it.
abbrev pub IsSegment : Text → Type 0
IsSegment [] = ⊥
IsSegment (c ∷ s) = includes slash (c ∷ s) ≡ false

-- The path with these segments.
abbrev pub path_of : List Text → Text
path_of segments = slash ∷ join root segments

abbrev pub IsPrefix : List Text → List Text → Type 0
IsPrefix [] vs = Unit
IsPrefix (a ∷ us) [] = ⊥
IsPrefix (a ∷ us) (b ∷ vs) = (a ≡ b) × IsPrefix us vs

abbrev pub slashed : List Text → Text
slashed [] = []
slashed (a ∷ us) = slash ∷ (a ++ slashed us)

pub path_of-slashed : (a : Text) (us : List Text) → path_of (a ∷ us) ≡ slashed (a ∷ us)
unfolding join
path_of-slashed a [] = rw append-nil
path_of-slashed a (b ∷ us) = ap (λ t. slash ∷ (a ++ t)) (path_of-slashed b us)

starts_with-segment :
    (a b x y : Text)
    → includes slash a ≡ false
    → includes slash b ≡ false
    → (starts_with (a ++ slash ∷ x) (b ++ slash ∷ y) ≡ true) ↔ ((a ≡ b) × (starts_with x y ≡ true))
unfolding starts_with includes
starts_with-segment [] [] x y h k = (λ e. (refl, ground arith), λ e. ground arith)
starts_with-segment [] (d ∷ b) x y h k = (λ e. absurd (ground arith), λ e. absurd (ground arith))
starts_with-segment (c ∷ a) [] x y h k = (λ e. absurd (ground arith), λ e. absurd (ground arith))
starts_with-segment (c ∷ a) (d ∷ b) x y h k =
    let (forth, back) = starts_with-segment a b x y (ground arith) (ground arith) in
    (λ e. (ground (arith, forth), ground (arith, forth)), λ e. ground (arith, back))

pub no_slash : (u : Text) → IsSegment u → includes slash u ≡ false
no_slash [] h = absurd h
no_slash (c ∷ u) h = h

headed : (us : List Text) → (x : Text) × (slashed us ++ root ≡ slash ∷ x)
headed [] = ([], refl)
headed (u ∷ us) = ((u ++ slashed us) ++ root, refl)

slashed-prefix_step :
    (u v : Text) (us vs : List Text)
    → includes slash u ≡ false
    → includes slash v ≡ false
    → (starts_with (slashed us ++ root) (slashed vs ++ root) ≡ true) ↔ IsPrefix us vs
    → (starts_with (slashed (u ∷ us) ++ root) (slashed (v ∷ vs) ++ root) ≡ true)
      ↔ ((u ≡ v) × IsPrefix us vs)
unfolding starts_with
slashed-prefix_step u v us vs hu hv ih =
    let (x, ex) = headed us in
    let (y, ey) = headed vs in
    let ih' = rw (ex, ey) at ih in
    let (forth, back) = starts_with-segment u v x y hu hv in
    rw (append_assoc u (slashed us) root, append_assoc v (slashed vs) root, ex, ey)
      (λ e. ((forth e).0, ih'.0 (forth e).1), λ e. back (e.0, ih'.1 e.1))

slashed-prefix_iff :
    (us vs : List Text)
    → All IsSegment us
    → All IsSegment vs
    → (starts_with (slashed us ++ root) (slashed vs ++ root) ≡ true) ↔ IsPrefix us vs
unfolding starts_with
slashed-prefix_iff [] [] h k = (λ e. tt, λ e. refl)
slashed-prefix_iff [] (v ∷ vs) h k = (λ e. tt, λ e. refl)
slashed-prefix_iff ([] ∷ us) vs h k = absurd h.0
slashed-prefix_iff ((c ∷ u) ∷ us) [] h k = (λ e. cc, λ e. absurd e)
slashed-prefix_iff ((c ∷ u) ∷ us) (v ∷ vs) h k =
    slashed-prefix_step (c ∷ u) v us vs h.0 (no_slash v k.0) (slashed-prefix_iff us vs h.1 k.1)

pub text_eq-root :
    (a : Text) (us : List Text) → IsSegment a → text_eq (path_of (a ∷ us)) root ≡ false
unfolding text_eq join
text_eq-root [] us h = absurd h
text_eq-root (c ∷ a) [] h = refl
text_eq-root (c ∷ a) (b ∷ us) h = refl

contains-slashed :
    (u v : Text) (us vs : List Text)
    → IsSegment u
    → contains (path_of (u ∷ us)) (path_of (v ∷ vs))
      ≡ starts_with (slashed (u ∷ us) ++ root) (slashed (v ∷ vs) ++ root)
unfolding contains
contains-slashed u v us vs h = rw (text_eq-root u us h) (
    below_eq slash (path_of (u ∷ us)) (path_of (v ∷ vs))
    ∙ ap₂ (λ a p. starts_with (a ++ root) (p ++ root)) (path_of-slashed u us)
        (path_of-slashed v vs))

contains-root : (u : Text) (us : List Text) → IsSegment u → contains (path_of (u ∷ us)) root ≡ false
unfolding contains text_eq starts_with join
contains-root [] us h = absurd h
contains-root (c ∷ u) [] h = refl
contains-root (c ∷ u) (v ∷ us) h = refl

root-contains : (p : Text) → contains root (slash ∷ p) ≡ true
unfolding contains text_eq starts_with
root-contains [] = refl
root-contains (c ∷ p) = refl

-- Containment compares whole segments: one cleaned path contains another exactly when its segments
-- are the first segments of the other, so that `/data` does not contain `/database`.
pub contains-path_of_iff :
    (us vs : List Text)
    → All IsSegment us
    → All IsSegment vs
    → (contains (path_of us) (path_of vs) ≡ true) ↔ IsPrefix us vs
unfolding join
contains-path_of_iff [] vs h k = (λ e. tt, λ e. root-contains (join root vs))
contains-path_of_iff (u ∷ us) [] h k = (λ e. cc (contains-root u us h.0), λ e. absurd e)
contains-path_of_iff (u ∷ us) (v ∷ vs) h k =
    rw (contains-slashed u v us vs h.0) (slashed-prefix_iff (u ∷ us) (v ∷ vs) h k)

IsSegment-of : (w : Text) → includes slash w ≡ false → not (is_empty w) ≡ true → IsSegment w
IsSegment-of [] h e = cc
IsSegment-of (c ∷ w) h e = h

non_empty-IsSegment :
    (ws : List Text) → All (λ w. includes slash w ≡ false) ws → All IsSegment (non_empty ws)
non_empty-IsSegment [] h = tt
non_empty-IsSegment ([] ∷ ws) h = non_empty-IsSegment ws h.1
non_empty-IsSegment ((c ∷ w) ∷ ws) h = (h.0, non_empty-IsSegment ws h.1)

-- The segments of any path, cleaned.
abbrev pub segments : Text → List Text
segments path = non_empty (split slash path)

pub segments-IsSegment : (path : Text) → All IsSegment (segments path)
segments-IsSegment path = non_empty-IsSegment (split slash path) (split-All slash path)

pub clean_path-segments : (path : Text) → clean_path path ≡ path_of (segments path)
unfolding clean_path
clean_path-segments path = refl

non_empty_self : (us : List Text) → All IsSegment us → non_empty us ≡ us
non_empty_self [] h = refl
non_empty_self ([] ∷ us) h = absurd h.0
non_empty_self ((c ∷ u) ∷ us) h = ap (λ l. (c ∷ u) ∷ l) (non_empty_self us h.1)

no_slashes : (us : List Text) → All IsSegment us → All (λ w. includes slash w ≡ false) us
no_slashes [] h = tt
no_slashes (u ∷ us) h = (no_slash u h.0, no_slashes us h.1)

pub split-path_of : (us : List Text) → All IsSegment us → non_empty (split slash (path_of us)) ≡ us
unfolding split join
split-path_of [] h = refl
split-path_of (u ∷ us) h =
    rw (split-join slash u us (no_slashes (u ∷ us) h)) (non_empty_self (u ∷ us) h)

-- Cleaning keeps the segments of a path in their order, drops the empty ones, and changes nothing
-- the second time.
pub clean_path_canonical :
    (path : Text)
    → (segments (clean_path path) ≡ segments path)
      × (clean_path (clean_path path) ≡ clean_path path)
clean_path_canonical path =
    let same = split-path_of (segments path) (segments-IsSegment path) in
    let kept = rw (← clean_path-segments path) at same in
    (kept, clean_path-segments (clean_path path) ∙ ap path_of kept ∙ sym (clean_path-segments path))
