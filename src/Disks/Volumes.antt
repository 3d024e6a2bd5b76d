-- ===== src/Disks/Volumes.antt =====
-- front/src/helpers/disks.ts: the client and the server find the same volume.
use trekker.Prelude.{
  ◌≡◌, refl, ap, ap₂, ◌∙◌, sym, Bool, true, false, ◌&&◌, ◌||◌, Option, none, some, List, [], ◌∷◌,
  map, if◌then◌else◌, inl, inr, Bool-cases,
}
use trekker.Text.{Text, codes, text_eq, starts_with}
use trekker.Text.Laws.{eq_of_text_eq}
use trekker.Disks.{DiskMount, is_on, is_deeper, volume_from, volume_for}
use trekker.MountTable.{holds, folder, is_longer, nearest, normalise, mount_point_for}

abbrev pub mount_of : Option DiskMount → Option Text
mount_of none = none
mount_of (some disk) = some disk.mount_point

abbrev pub points_of : List DiskMount → List Text
points_of = map (λ (d : DiskMount). d.mount_point)

-- The root itself is below the root.
root_holds :
    (path : Text)
    → starts_with (codes "/") path ≡ (text_eq path (codes "/") || starts_with (codes "/") path)
unfolding starts_with
root_holds path = elim (Bool-cases (text_eq path (codes "/"))) [
  | inr e ↦ rw (e) refl
  | inl e ↦ rw (e, eq_of_text_eq path (codes "/") e) refl
]

is_on-holds : (path mount : Text) → is_on path mount ≡ holds mount path
unfolding is_on holds folder
is_on-holds path mount = elim (Bool-cases (text_eq mount (codes "/"))) [
  | inr e ↦ rw (is_on, holds, folder, e) refl
  | inl e ↦
      rw (is_on, holds, folder, e)
        (root_holds path
          ∙ ap (λ m. text_eq path m || starts_with (codes "/") path)
              (sym (eq_of_text_eq mount (codes "/") e)))
]

mount_of-if :
    (b : Bool) (x y : Option DiskMount)
    → mount_of (if b then x else y) ≡ (if b then mount_of x else mount_of y)
mount_of-if true x y = refl
mount_of-if false x y = refl

is_deeper-is_longer :
    (disk : DiskMount) (best : Option DiskMount)
    → is_deeper disk best ≡ is_longer disk.mount_point (mount_of best)
is_deeper-is_longer disk none = refl
is_deeper-is_longer disk (some best) = refl

mount_of-volume_from :
    (path : Text) (disks : List DiskMount) (best : Option DiskMount)
    → mount_of (volume_from path disks best) ≡ nearest path (points_of disks) (mount_of best)
unfolding volume_from nearest
mount_of-volume_from path [] best = refl
mount_of-volume_from path (d ∷ disks) best =
    let tests : (is_on path d.mount_point && is_deeper d best)
        ≡ (holds d.mount_point path && is_longer d.mount_point (mount_of best)) =
      ap₂ (λ a b. a && b) (is_on-holds path d.mount_point) (is_deeper-is_longer d best) in
    mount_of-volume_from path disks
      (if is_on path d.mount_point && is_deeper d best then some d else best)
    ∙ ap (nearest path (points_of disks)) (
        mount_of-if (is_on path d.mount_point && is_deeper d best) (some d) best
        ∙ ap (λ b. if b then some d.mount_point else mount_of best) tests)

-- For a path without slashes at its end, the volume that the client shows is mounted on the point that the
-- server finds for the path among the same mount points, and there is none just where the server finds none.
pub volume_for-mount_point_for :
    (path : Text) (disks : List DiskMount)
    → normalise path ≡ path
    → mount_of (volume_for path disks) ≡ mount_point_for path (points_of disks)
unfolding mount_point_for
volume_for-mount_point_for path disks clean =
    rw (mount_point_for, clean) (mount_of-volume_from path disks none)
