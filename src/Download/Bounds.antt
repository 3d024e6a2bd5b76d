-- ===== src/Download/Bounds.antt =====
-- The window that a range header is given lies in the file.
use trekker.Prelude.{
  ℕ, ◌-◌, ◌≤◌, ◌<◌, min, ◌≡◌, inl, inr, Bool, true, false, ◌&&◌, Option, none, some, arith,
  if◌then◌else◌, ltb, leb, ◌==◌, Option-cases, if_either,
}
use trekker.Text.{Text, is_empty, trim}
use trekker.Download.{
  ByteRange, RangeVerdict, full, unsatisfiable, partial, match_range, range_of, parse_range,
  range_length,
}
use trekker.Text.{parse_int}

abbrev IsWithin : ℕ → RangeVerdict → Type 0
IsWithin size (partial r) = (r.start ≤ r.end) × (r.end < size)
IsWithin size _ = Unit

range_of-IsWithin : (x y : Text) (size : ℕ) → IsWithin size (range_of x y size)
unfolding range_of
range_of-IsWithin x y size =
    if_either (IsWithin size) (is_empty x && is_empty y) (λ e. tt)
      (λ e.
        if_either (IsWithin size) (size == 0) (λ e. tt)
          (λ pos.
            if_either (IsWithin size) (is_empty x)
              (λ e.
                if_either (IsWithin size) (parse_int 0 y == 0) (λ e. tt)
                  (λ some_wanted.
                    let w : 0 < parse_int 0 y = ground (arith, some_wanted) in
                    let p : 0 < size = ground (arith, pos) in (omega arith, omega arith)))
              (λ e.
                if_either (IsWithin size) (leb size (parse_int 0 x)) (λ e. tt)
                  (λ in_file.
                    if_either (IsWithin size)
                      (ltb (if is_empty y then size - 1 else min (parse_int 0 y) (size - 1))
                        (parse_int 0 x))
                      (λ e. tt)
                      (λ ordered. (
                        ground (arith, ordered),
                        ends_inside (is_empty y) (parse_int 0 y) size pos,
                      ))))))
  where
    ends_inside :
        (b : Bool) (n size : ℕ)
        → (size == 0) ≡ false
        → (if b then size - 1 else min n (size - 1)) < size
    ends_inside true n size pos = ground (arith, pos)
    ends_inside false n size pos = let p : 0 < size = ground (arith, pos) in omega arith

-- Whatever the header, a window lies in the file and holds at least one byte and at most all.
pub parse_range_bounds :
    (header : Option Text) (size : ℕ) (r : ByteRange)
    → parse_range header size ≡ partial r
    → (r.start ≤ r.end) × (r.end < size) × (0 < range_length r) × (range_length r ≤ size)
unfolding parse_range range_length
parse_range_bounds none size r h = cc
parse_range_bounds (some header) size r h = elim (Option-cases (match_range (trim header))) [
  | inl e ↦ absurd (ground (arith, e))
  | inr (xy, e) ↦
      let verdict : range_of xy.0 xy.1 size ≡ partial r = ground (arith, e) in
      let (ordered, inside) =
        within (range_of xy.0 xy.1 size) verdict (range_of-IsWithin xy.0 xy.1 size) in
      (ordered, inside, omega arith, omega (arith, ordered, inside))
]
  where
    within :
        (v : RangeVerdict) → v ≡ partial r → IsWithin size v → (r.start ≤ r.end) × (r.end < size)
    within full e w = cc
    within unsatisfiable e w = cc
    within (partial s) e w = ground (arith, e, w)
