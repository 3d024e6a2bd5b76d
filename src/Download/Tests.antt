-- ===== src/Download/Tests.antt =====
-- Ranges and names on examples.
use trekker.Prelude.{◌≤◌, ◌<◌, ◌≡◌, ◌↔◌, refl, some}
use trekker.Text.{codes, split, trim}
use trekker.Download.{
  ByteRange, partial, parse_range, ascii_filename, digits, drop_prefix, after_first, match_range,
  range_of, basename, drop_dots,
}
use trekker.Text.{parse_int}
use trekker.Download.Range.{Serves, bytes_header, parse_range_exact}

abbrev window : ByteRange
window = record { start = 3; end = 9 }

clamped : parse_range (some (codes "bytes=3-99")) 10 ≡ partial window
unfolding parse_range trim parse_int digits drop_prefix after_first match_range range_of
clamped = refl

-- Byte 5 of a file of ten, asked for with `bytes=3-7`.
parse_range_exact_example :
    Serves (parse_range (some (bytes_header (codes "3") (codes "7"))) 10) 10 5
    ↔ (5 < 10) × ((parse_int 0 (codes "3") ≤ 5) × (5 ≤ parse_int 0 (codes "7")))
parse_range_exact_example = parse_range_exact (codes "3") (codes "7") 10 5 (refl, tt) (refl, tt)

-- Dots behind a space are kept.
spaced_dots : ascii_filename (codes "/a/ ..") ≡ codes ".."
unfolding ascii_filename basename split drop_dots trim
spaced_dots = refl
