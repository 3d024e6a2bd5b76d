-- ===== src/Disks/Names.antt =====
-- front/src/helpers/disks.ts: the short names fit.
use trekker.Prelude.{
  ℕ, zero, suc, ◌+◌, ◌-◌, ◌≤◌, ◌≡◌, List, [], ◌∷◌, ◌++◌, if_either, ltb, leb, length, arith,
}
use trekker.Text.{Text, split, non_empty}
use trekker.Disks.{longest_tail, skip, or_end, short_mount, backwards}

length-skip : (n : ℕ) (s : Text) → length (skip n s) ≡ length s - n
unfolding skip
length-skip zero s = omega arith
length-skip (suc n) [] = omega arith
length-skip (suc n) (c ∷ s) = omega (arith, length-skip n s)

longest_tail_fits :
    (limit : ℕ) (tail : Text) (segments : List Text)
    → length tail + 1 ≤ limit
    → length (longest_tail limit tail segments) + 1 ≤ limit
unfolding longest_tail
longest_tail_fits limit tail [] h = h
longest_tail_fits limit tail (s ∷ segments) h =
    if_either (λ (t : Text). length t + 1 ≤ limit) (ltb limit (length (47 ∷ (s ++ tail)) + 1))
      (λ _. h) (λ e. longest_tail_fits limit (47 ∷ (s ++ tail)) segments (ground (arith, e)))

or_end_fits :
    (tail : Text) (limit : ℕ) (mount_point : Text)
    → 2 ≤ limit
    → length tail + 1 ≤ limit
    → length (or_end tail limit mount_point) + 1 ≤ limit
or_end_fits (c ∷ tail) limit mount_point h k = k
or_end_fits [] zero mount_point h k = omega (arith, h)
or_end_fits [] (suc zero) mount_point h k = omega (arith, h)
or_end_fits [] (suc (suc n)) mount_point h k =
    omega (arith, length-skip (length mount_point - suc n) mount_point)

-- With a limit of at least two characters, a mount point is shortened to no more than the limit.
pub short_mount-fits :
    (mount_point : Text) (limit : ℕ) → 2 ≤ limit → length (short_mount mount_point limit) ≤ limit
unfolding short_mount
short_mount-fits mount_point limit h =
    let tail = longest_tail limit [] (backwards (non_empty (split 47 mount_point)) []) in
    let fits =
      longest_tail_fits limit [] (backwards (non_empty (split 47 mount_point)) [])
        (omega (arith, h)) in
    if_either (λ (t : Text). length t ≤ limit) (leb (length mount_point) limit)
      (λ e. ground (arith, e)) (λ _. omega (arith, or_end_fits tail limit mount_point h fits))
