-- ===== src/Download.antt =====
-- nest-api/src/fs/download-headers.ts: byte ranges, and the names that a download is saved under.
-- Sizes are below 2^53, where JavaScript's numbers are exact.
pub mod Range
pub mod Bounds
pub mod Names
mod Tests
use trekker.Prelude.{
  ℕ, zero, suc, ◌+◌, ◌-◌, ◌*◌, ◌/◌, ◌%◌, min, Bool, true, false, not, ◌&&◌, ◌||◌, Option, none,
  some, List, [], ◌∷◌, ◌++◌, map, if◌then◌else◌, ltb, leb, ◌==◌, filter,
}
use trekker.Text.{
  is_digit, parse_int, Text, codes, is_empty, starts_with, split, non_empty, take, trim,
}

pub record ByteRange : Type 0 where
  pub start : ℕ
  pub end : ℕ

pub data RangeVerdict : Type 0 where
  full unsatisfiable : RangeVerdict
  partial : ByteRange → RangeVerdict

-- `(\d*)` and what stands behind it.
unfoldable pub digits : Text → Text × Text
digits [] = ([], [])
digits (c ∷ s) = let (run, rest) = digits s in if is_digit c then (c ∷ run, rest) else ([], c ∷ s)

unfoldable pub drop_prefix : Text → Text → Option Text
drop_prefix [] s = some s
drop_prefix (a ∷ p) [] = none
drop_prefix (a ∷ p) (b ∷ s) = if a == b then drop_prefix p s else none

abbrev pub second_number : Text → Text × Text → Option (Text × Text)
second_number raw_start (raw_end, []) = some (raw_start, raw_end)
second_number raw_start (raw_end, _ ∷ _) = none

unfoldable pub after_first : Text × Text → Option (Text × Text)
unfolding digits
after_first (raw_start, []) = none
after_first (raw_start, c ∷ s) = if c == 45 then second_number raw_start (digits s) else none

-- /^bytes=(\d*)-(\d*)$/
unfoldable pub match_range : Text → Option (Text × Text)
unfolding drop_prefix after_first
match_range s = elim (drop_prefix (codes "bytes=") s) [
  | none ↦ none
  | some rest ↦ after_first (digits rest)
]

-- The verdict on the two texts of digits.
unfoldable pub range_of : Text → Text → ℕ → RangeVerdict
unfolding parse_int
range_of raw_start raw_end size =
    if is_empty raw_start && is_empty raw_end
    then full
    else if size == 0
    then unsatisfiable
    else if is_empty raw_start
    then (let wanted = parse_int 0 raw_end in
        if wanted == 0
        then unsatisfiable
        else partial (record { start = size - wanted; end = size - 1 }))
    else (let start = parse_int 0 raw_start in
        let end = if is_empty raw_end then size - 1 else min (parse_int 0 raw_end) (size - 1) in
        if leb size start
        then unsatisfiable
        else if ltb end start
        then unsatisfiable
        else partial (record { start = start; end = end }))

unfoldable pub parse_range : Option Text → ℕ → RangeVerdict
unfolding match_range range_of trim
parse_range none size = full
parse_range (some header) size = elim (match_range (trim header)) [
  | none ↦ full
  | some (raw_start, raw_end) ↦ range_of raw_start raw_end size
]

unfoldable pub range_length : ByteRange → ℕ
range_length r = r.end - r.start + 1

-- The last segment, or the path itself.
abbrev pub last_or : Text → List Text → Text
last_or path [] = path
last_or path (w ∷ []) = w
last_or path (_ ∷ v ∷ ws) = last_or path (v ∷ ws)

unfoldable pub basename : Text → Text
unfolding split
basename path = last_or path (non_empty (split 47 path))

-- `[A-Za-z0-9._ -]`
abbrev pub is_safe_ascii : ℕ → Bool
is_safe_ascii c =
    (leb 65 c && leb c 90)
    || (leb 97 c && leb c 122)
    || is_digit c
    || (c == 46 || c == 95 || c == 32 || c == 45)

unfoldable pub drop_dots : Text → Text
drop_dots [] = []
drop_dots (c ∷ s) = let rest = drop_dots s in if c == 46 then rest else c ∷ s

unfoldable pub ascii_filename : Text → Text
unfolding basename drop_dots trim take
ascii_filename name =
    let cleaned = trim (drop_dots (map (λ c. if is_safe_ascii c then c else 95) (basename name))) in
    if is_empty cleaned then codes "download" else take 200 cleaned
