-- ===== src/RowWindow/Rows.antt =====
-- front/src/helpers/virtual.ts: the window has each row that can be seen, and few more.
use trekker.Prelude.{ℕ, ◌+◌, ◌-◌, ◌*◌, ◌/◌, ◌≤◌, ◌<◌, ◌≡◌, refl, min, max, false, ◌||◌, ◌==◌, arith}
use native.Mathlib.Nat.{lt-div-mul-add, div-lt_iff_lt-mul, add-mul, lt_of_mul-lt-mul_right}
use trekker.RowWindow.{RowWindow, Pixels, clamp, ceil_div, row_window}

-- The row begins above the lower edge of the viewport and ends below its upper edge.
abbrev pub IsSeen : ℕ → ℕ → ℕ → ℕ → Type 0
IsSeen height scroll view i = (i * height < scroll + view) × (scroll < (i + 1) * height)

-- The window has each row that is seen; it is a part of the rows, not empty, with no more than a row and
-- twice the overscan besides those that fill the viewport, and it is put where its first row stands.
abbrev pub IsWindow : ℕ → ℕ → Pixels → Pixels → ℕ → RowWindow → Type 0
IsWindow count height scroll view overscan w =
    ((i : ℕ)
      → i < count
      → IsSeen height (clamp scroll) (clamp view) i
      → (w.start ≤ i) × (i < w.end))
    × (w.start < w.end)
    × (w.end ≤ count)
    × (w.end ≤ w.start + ceil_div (clamp view) height + 1 + 2 * overscan)
    × (w.offset ≡ w.start * height)

first_lem : (height scroll i : ℕ) → 0 < height → scroll < (i + 1) * height → scroll / height ≤ i
first_lem height scroll i tall h =
    let under : scroll / height < i + 1 = (div-lt_iff_lt-mul tall).1 h in omega (arith, under)

last_lem :
    (height scroll view i : ℕ)
    → 0 < height
    → i * height < scroll + view
    → i < scroll / height + (ceil_div view height + 1)
last_lem height scroll view i tall h =
    let top : ℕ = scroll / height in
    let rows : ℕ = ceil_div view height in
    let above : scroll < top * height + height = lt-div-mul-add tall in
    let filled : view + (height - 1) < rows * height + height = lt-div-mul-add tall in
    let spread = add-mul top (rows + 1) height in
    let spread_more = add-mul rows 1 height in
    let inside : i * height < (top + (rows + 1)) * height =
      omega (arith, h, above, filled, spread, spread_more) in
    lt_of_mul-lt-mul_right height inside

-- Of a list with rows that have a height, the window has each row that is seen; it is a part of the rows,
-- not empty, with no more than a row and twice the overscan besides those that fill the viewport, and it is
-- put where its first row stands.
pub row_window-IsWindow :
    (count height : ℕ) (scroll view : Pixels) (overscan : ℕ)
    → 0 < count
    → 0 < height
    → IsWindow count height scroll view overscan (row_window count height scroll view overscan)
unfolding row_window
row_window-IsWindow count height scroll view overscan some_rows tall =
    let first = clamp scroll / height in
    let rows = ceil_div (clamp view) height in
    let start = min (count - 1) (first - overscan) in
    let end = max start (min count (first + (rows + 1) + overscan)) in
    let none_is_zero : (count == 0 || height == 0) ≡ false = ground (arith, some_rows, tall) in
    rw (row_window, none_is_zero)
      (
        (λ i inside seen.
            let before = first_lem height (clamp scroll) i tall seen.1 in
            let behind = last_lem height (clamp scroll) (clamp view) i tall seen.0 in
            (omega (arith, before, inside), omega (arith, behind, inside))),
        omega arith,
        omega arith,
        omega arith,
        refl,
      )
