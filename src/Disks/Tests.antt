-- ===== src/Disks/Tests.antt =====
-- front/src/helpers/disks.ts: volumes and their names.
use trekker.Prelude.{◌≡◌, refl, false, List, [], ◌∷◌}
use trekker.Text.{Text, codes}
use trekker.Disks.{DiskMount, short_mount, volume_for}
use trekker.Disks.Volumes.{mount_of, points_of, volume_for-mount_point_for}
use trekker.MountTable.{mount_point_for, normalise}

short_mount_cases :
    (short_mount (codes "/var/lib/mysql") 18 ≡ codes "/var/lib/mysql")
    × (short_mount (codes "/System/Volumes/Data") 18 ≡ codes "…/Volumes/Data")
unfolding short_mount
short_mount_cases = (refl, refl)

abbrev disk : Text → DiskMount
disk mount = record {
  mount_point = mount;
  device = codes "/dev/sda1";
  total_bytes = 100;
  used_bytes = 40;
  available_bytes = 60;
  warn = false;
}

abbrev disks : List DiskMount
disks = disk (codes "/") ∷ disk (codes "/var/log") ∷ disk (codes "/var") ∷ []

volume_for-mount_point_for_example :
    mount_of (volume_for (codes "/var/logs") disks)
    ≡ mount_point_for (codes "/var/logs") (points_of disks)
unfolding normalise
volume_for-mount_point_for_example = volume_for-mount_point_for (codes "/var/logs") disks refl
