-- ===== src/Disks.antt =====
-- front/src/helpers/disks.ts: the volume that a path is on, and its name in the rail.
pub mod Volumes
pub mod Names
mod Tests
use trekker.Prelude.{
  ℕ, zero, suc, ◌+◌, ◌-◌, Bool, true, ◌&&◌, ◌||◌, Option, none, some, List, [], ◌∷◌, ◌++◌,
  if◌then◌else◌, ltb, leb, length,
}
use trekker.Text.{Text, codes, text_eq, starts_with, split, non_empty}

-- A volume of the host, without the figures that nothing here reads.
pub record DiskMount : Type 0 where
  pub mount_point : Text
  pub device : Text
  pub total_bytes : ℕ
  pub used_bytes : ℕ
  pub available_bytes : ℕ
  pub warn : Bool

unfoldable pub is_on : Text → Text → Bool
unfolding text_eq starts_with
is_on path mount =
    if text_eq mount (codes "/")
    then starts_with (codes "/") path
    else text_eq path mount || starts_with (mount ++ codes "/") path

abbrev pub is_deeper : DiskMount → Option DiskMount → Bool
is_deeper disk none = true
is_deeper disk (some best) = ltb (length best.mount_point) (length disk.mount_point)

-- The loop over the disks, with the best of them so far.
unfoldable pub volume_from : Text → List DiskMount → Option DiskMount → Option DiskMount
unfolding is_on
volume_from path [] best = best
volume_from path (disk ∷ disks) best =
    volume_from path disks
      (if is_on path disk.mount_point && is_deeper disk best then some disk else best)

abbrev pub volume_for : Text → List DiskMount → Option DiskMount
volume_for path disks = volume_from path disks none

abbrev pub backwards : List Text → List Text → List Text
backwards [] done = done
backwards (s ∷ segments) done = backwards segments (s ∷ done)

-- The loop from the last segment on; `tail` is what is shown so far.
unfoldable pub longest_tail : ℕ → Text → List Text → Text
longest_tail limit tail [] = tail
longest_tail limit tail (s ∷ segments) =
    let longer = 47 ∷ (s ++ tail) in
    let more = longest_tail limit longer segments in
    if ltb limit (length longer + 1) then tail else more

unfoldable pub skip : ℕ → Text → Text
skip zero s = s
skip (suc n) [] = []
skip (suc n) (c ∷ s) = skip n s

-- `s.slice(-(limit - 1))`
abbrev pub end_within : ℕ → Text → Text
end_within zero s = skip 1 s
end_within (suc zero) s = s
end_within (suc (suc n)) s = skip (length s - suc n) s

abbrev pub or_end : Text → ℕ → Text → Text
or_end [] limit mount_point = end_within limit mount_point
or_end (c ∷ tail) limit mount_point = c ∷ tail

unfoldable pub short_mount : Text → ℕ → Text
unfolding longest_tail skip split
short_mount mount_point limit =
    let tail = longest_tail limit [] (backwards (non_empty (split 47 mount_point)) []) in
    if leb (length mount_point) limit
    then mount_point
    else codes "…" ++ or_end tail limit mount_point
