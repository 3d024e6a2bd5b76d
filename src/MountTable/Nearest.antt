-- ===== src/MountTable/Nearest.antt =====
-- nest-api/src/fs/mount-table.ts: the mount point that a path is on.
use trekker.Prelude.{
  ◌≤◌, ◌≡◌, refl, sym, subst, ◌⊎◌, inl, inr, Bool, true, false, ◌&&◌, Option, none, some, List, [],
  ◌∷◌, arith, length, if◌then◌else◌, Bool-cases, All, and_true,
}
use trekker.Text.{Text, member}
use trekker.Text.Laws.{text_eq_refl}
use trekker.MountTable.{normalise, holds, is_longer, nearest, mount_point_for}

-- The point does not hold the path, or is no longer than the best.
abbrev pub IsNoBetter : Text → Text → Text → Type 0
IsNoBetter target best point = (holds point target ≡ false) ⊎ (length point ≤ length best)

-- The best of the points: it holds the path, and no longer one of them does; none where none does.
abbrev pub IsNearest : Text → List Text → Option Text → Type 0
IsNearest target points none = All (λ p. holds p target ≡ false) points
IsNearest target points (some best) =
    (member best points ≡ true) × (holds best target ≡ true) × All (IsNoBetter target best) points

-- What the loop has so far, of the points before and those to come.
abbrev IsSoFar : Text → Option Text → Type 0
IsSoFar target none = Unit
IsSoFar target (some best) = holds best target ≡ true

-- The result against the best so far.
abbrev IsEnd : Text → List Text → Option Text → Option Text → Type 0
IsEnd target points none none = All (λ p. holds p target ≡ false) points
IsEnd target points (some so_far) none = ⊥
IsEnd target points none (some best) =
    (member best points ≡ true) × (holds best target ≡ true) × All (IsNoBetter target best) points
IsEnd target points (some so_far) (some best) =
    ((best ≡ so_far) ⊎ (member best points ≡ true))
    × (holds best target ≡ true)
    × (length so_far ≤ length best)
    × All (IsNoBetter target best) points

member_later :
    (best p : Text) (points : List Text)
    → member best points ≡ true
    → member best (p ∷ points) ≡ true
unfolding member
member_later best p points h = ground (arith, h)

member_here : (best p : Text) (points : List Text) → best ≡ p → member best (p ∷ points) ≡ true
unfolding member
member_here best p points e = rw (e, text_eq_refl p) refl

module _ (target p : Text) (points : List Text) where
  -- The point is taken for the best so far.
  taken-IsEnd :
      (so_far result : Option Text)
      → is_longer p so_far ≡ true
      → IsEnd target points (some p) result
      → IsEnd target (p ∷ points) so_far result
  taken-IsEnd none none e f = absurd f
  taken-IsEnd (some b) none e f = f
  taken-IsEnd none (some best) e (inl same, held, long, all) =
      (member_here best p points same, held, (inr long, all))
  taken-IsEnd none (some best) e (inr later, held, long, all) =
      (member_later best p points later, held, (inr long, all))
  taken-IsEnd (some b) (some best) e (inl same, held, long, all) =
      (inr (member_here best p points same), held, ground (arith, e, long), (inr long, all))
  taken-IsEnd (some b) (some best) e (inr later, held, long, all) =
      (inr (member_later best p points later), held, ground (arith, e, long), (inr long, all))

  -- The point is passed over.
  kept-IsEnd :
      (so_far result : Option Text)
      → (holds p target ≡ false) ⊎ (is_longer p so_far ≡ false)
      → IsEnd target points so_far result
      → IsEnd target (p ∷ points) so_far result
  kept-IsEnd none none (inl e) all = (e, all)
  kept-IsEnd none none (inr e) all = cc
  kept-IsEnd (some b) none e f = f
  kept-IsEnd none (some best) (inl e) (later, held, all) =
      (member_later best p points later, held, (inl e, all))
  kept-IsEnd none (some best) (inr e) f = cc
  kept-IsEnd (some b) (some best) (inl e) (from, held, long, all) =
      (still from, held, long, (inl e, all))
    where
      still :
          (best ≡ b) ⊎ (member best points ≡ true) → (best ≡ b) ⊎ (member best (p ∷ points) ≡ true)
      still (inl same) = inl same
      still (inr later) = inr (member_later best p points later)
  kept-IsEnd (some b) (some best) (inr e) (from, held, long, all) =
      (still from, held, long, (inr (ground (arith, e, long)), all))
    where
      still :
          (best ≡ b) ⊎ (member best points ≡ true) → (best ≡ b) ⊎ (member best (p ∷ points) ≡ true)
      still (inl same) = inl same
      still (inr later) = inr (member_later best p points later)

and_false : (a b : Bool) → (a && b) ≡ false → (a ≡ false) ⊎ (b ≡ false)
and_false true b h = inr h
and_false false b h = inl refl

-- A point that is taken holds the path.
nearest-IsEnd :
    (target : Text) (points : List Text) (so_far : Option Text)
    → IsSoFar target so_far
    → IsEnd target points so_far (nearest target points so_far)
unfolding nearest
nearest-IsEnd target [] none h = tt
nearest-IsEnd target [] (some best) h = (inl refl, h, omega arith, tt)
nearest-IsEnd target (p ∷ points) so_far h =
    elim (Bool-cases (holds p target && is_longer p so_far)) [
      | inl e ↦
          let both = and_true (holds p target) (is_longer p so_far) e in
          let end = nearest-IsEnd target points (some p) both.0 in
          subst
            (λ (b : Bool).
              IsEnd target (p ∷ points) so_far
                (nearest target points (if b then some p else so_far)))
            (sym e) (taken-IsEnd target p points so_far (nearest target points (some p)) both.1 end)
      | inr e ↦
          subst
            (λ (b : Bool).
              IsEnd target (p ∷ points) so_far
                (nearest target points (if b then some p else so_far)))
            (sym e)
            (kept-IsEnd target p points so_far (nearest target points so_far)
              (and_false (holds p target) (is_longer p so_far) e)
              (nearest-IsEnd target points so_far h))
    ]

IsEnd-IsNearest :
    (target : Text) (points : List Text) (result : Option Text)
    → IsEnd target points none result
    → IsNearest target points result
IsEnd-IsNearest target points none h = h
IsEnd-IsNearest target points (some best) h = h

-- The mount point that a path is on is one of the points that hold the path, and no longer one does; it
-- is none just where no point holds the path.
pub mount_point_for-IsNearest :
    (path : Text) (points : List Text)
    → IsNearest (normalise path) points (mount_point_for path points)
unfolding mount_point_for
mount_point_for-IsNearest path points =
    IsEnd-IsNearest (normalise path) points (nearest (normalise path) points none)
      (nearest-IsEnd (normalise path) points none tt)
