-- ===== src/RowWindow.antt =====
-- front/src/helpers/virtual.ts: the rows of a long list that are drawn. Heights are whole pixels.
pub mod Rows
mod Tests
use trekker.Prelude.{
  ℕ, zero, suc, ◌+◌, ◌-◌, ◌*◌, ◌/◌, ◌≤◌, min, max, Bool, ◌||◌, if◌then◌else◌, ◌==◌,
}

pub record RowWindow : Type 0 where
  pub start : ℕ
  pub end : ℕ
  pub offset : ℕ
  pub total : ℕ

abbrev pub overscan_default : ℕ
overscan_default = 8

-- A number of pixels, which the browser may report below 0.
pub data Pixels : Type 0 where
  above below : ℕ → Pixels

-- `Math.max(0, n)`
abbrev pub clamp : Pixels → ℕ
clamp (above n) = n
clamp (below n) = 0

-- `Math.ceil(n / d)`
abbrev pub ceil_div : ℕ → ℕ → ℕ
ceil_div n d = (n + (d - 1)) / d

unfoldable pub row_window : ℕ → ℕ → Pixels → Pixels → ℕ → RowWindow
row_window count row_height scroll_top viewport overscan =
    let first = clamp scroll_top / row_height in
    let visible = ceil_div (clamp viewport) row_height + 1 in
    let start = min (count - 1) (first - overscan) in
    let end = max start (min count (first + visible + overscan)) in
    if count == 0 || row_height == 0
    then record { start = 0; end = 0; offset = 0; total = count * row_height }
    else record {
      start = start;
      end = end;
      offset = start * row_height;
      total = count * row_height;
    }
