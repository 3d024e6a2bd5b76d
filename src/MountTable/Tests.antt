-- ===== src/MountTable/Tests.antt =====
-- The table of filesystems on small inputs.
use trekker.Prelude.{ℕ, All, inl, inr, true, ◌≡◌, refl, some, List, [], ◌∷◌}
use trekker.Text.{
  Text, codes, split, text_eq, is_space, trim_end, trim_end_space, trim_start_space, starts_with,
  parse_int,
}
use trekker.Text.Trim.{ends_open}
use trekker.MountTable.{
  is_tail, parse_mount_points, df_line, fields, field, run_of, normalise, mount_point_for, nearest,
  holds, folder, read_space, space_in, parse_number, digit_run,
}
use trekker.MountTable.Nearest.{IsNearest, mount_point_for-IsNearest}
use trekker.MountTable.Rows.{Column, Row, IsColumn, row_text, blank}
use trekker.MountTable.Table.{IsRow, IsShifted, table, mounts, parse_mount_points-table}

abbrev points : List Text
points = codes "/" ∷ codes "/var" ∷ codes "/var/log2" ∷ []

on_var : mount_point_for (codes "/var/log/") points ≡ some (codes "/var")
unfolding mount_point_for nearest holds folder normalise trim_end starts_with text_eq
on_var = refl

mount_point_for-IsNearest_example :
    IsNearest (normalise (codes "/var/log/")) points (mount_point_for (codes "/var/log/") points)
mount_point_for-IsNearest_example = mount_point_for-IsNearest (codes "/var/log/") points

abbrev column : Text → ℕ → Column
column content blanks = record { content = content; blanks = blanks }

abbrev row : Text → Text → Row
row available mount = record {
  columns =
      column (codes "/dev/sda1") 3
      ∷ column (codes "1000") 0
      ∷ column (codes "1") 0
      ∷ column available 1
      ∷ column (codes "1%") 0
      ∷ [];
  mount = mount;
}

-- The header, a mount point with a blank in it, and a device with one.
abbrev rows : List Row
rows =
    row (codes "Available") (codes "Mounted on")
    ∷ row (codes "200") (codes "/mnt/My Drive/")
    ∷ record {
      columns =
          column (codes "//nas/My") 0
          ∷ column (codes "Share") 0
          ∷ column (codes "9") 0
          ∷ column (codes "1") 0
          ∷ column (codes "8") 0
          ∷ column (codes "2%") 0
          ∷ [];
      mount = codes "/mnt/nas";
    }
    ∷ []

shifted : IsShifted (record {
  columns =
      column (codes "//nas/My") 0
      ∷ column (codes "Share") 0
      ∷ column (codes "9") 0
      ∷ column (codes "1") 0
      ∷ column (codes "8") 0
      ∷ column (codes "2%") 0
      ∷ [];
  mount = codes "/mnt/nas";
})
unfolding is_space ends_open starts_with
shifted = (
  column (codes "//nas/My") 0
      ∷ column (codes "Share") 0
      ∷ column (codes "9") 0
      ∷ column (codes "1") 0
      ∷ column (codes "8") 0
      ∷ [],
  column (codes "2%") 0,
  [],
  refl,
  refl,
  (
    ((refl, refl), ((refl, refl), ((refl, refl), ((refl, refl), ((refl, refl), tt))))),
    ((refl, refl), tt),
  ),
  (refl, refl, refl),
)

plain :
    (available mount : Text)
    → All IsColumn (row available mount).columns
    → is_tail mount ≡ true
    → ends_open mount ≡ true
    → IsRow (row available mount)
plain available mount h t o = inl (refl, h, t, o)

parse_mount_points-table_example : parse_mount_points (table rows) ≡ mounts rows
unfolding is_space ends_open
parse_mount_points-table_example = parse_mount_points-table rows (
  plain (codes "Available") (codes "Mounted on")
      ((refl, refl), ((refl, refl), ((refl, refl), ((refl, refl), ((refl, refl), tt))))) refl refl,
  (
    plain (codes "200") (codes "/mnt/My Drive/")
        ((refl, refl), ((refl, refl), ((refl, refl), ((refl, refl), ((refl, refl), tt))))) refl
        refl,
    (inr shifted, tt),
  ),
)

nas_lost : mounts rows ≡ codes "/mnt/My Drive" ∷ []
unfolding mounts starts_with normalise trim_end
nas_lost = refl

free_of_drive :
    read_space (some (table rows)) ≡ some (record { free_bytes = 204800; total_bytes = 1024000 })
unfolding read_space space_in table row_text blank split df_line fields field run_of trim_end_space
    trim_start_space is_space starts_with parse_number digit_run parse_int
free_of_drive = refl
