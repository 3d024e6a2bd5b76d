-- ===== src/MountTable.antt =====
-- nest-api/src/fs/mount-table.ts: what `df` says of filesystems, and which of them a path is on. The runs of
-- `df` are arguments.
pub mod Nearest
pub mod Rows
pub mod Table
mod Tests
use trekker.Prelude.{
  ℕ, zero, suc, ◌+◌, ◌*◌, ◌-◌, Bool, true, false, not, ◌&&◌, ◌||◌, Option, none, some, List, [],
  ◌∷◌, ◌++◌, if◌then◌else◌, ltb, leb, ◌==◌, all, length,
}
use trekker.Text.{
  Text, is_dot, is_digit, parse_int, text_eq, member, is_empty, is_space, starts_with, split,
  trim_end, trim_end_space, trim_start_space,
}

-- `(\S+)` and what stands behind it.
unfoldable pub run_of : Text → Text × Text
unfolding is_space
run_of [] = ([], [])
run_of (c ∷ s) = let (run, rest) = run_of s in if is_space c then ([], c ∷ s) else (c ∷ run, rest)

-- `(\S+)\s+`
abbrev pub behind_run : Text × Text → Option (Text × Text)
behind_run (run, []) = none
behind_run (run, c ∷ rest) = if is_empty run then none else some (run, trim_start_space (c ∷ rest))

unfoldable pub field : Text → Option (Text × Text)
unfolding run_of trim_start_space is_space
field s = behind_run (run_of s)

-- Some fields from the left, and what stands behind them.
unfoldable pub fields : ℕ → Text → Option (List Text × Text)
unfolding field
fields zero s = some ([], s)
fields (suc n) s = elim (field s) [
  | none ↦ none
  | some (f, rest) ↦ elim (fields n rest) [
    | none ↦ none
    | some (fs, behind) ↦ some (f ∷ fs, behind)
  ]
]

-- `(\S.*)$`
abbrev pub is_tail : Text → Bool
is_tail [] = false
is_tail (c ∷ s) = not (is_space c) && all is_dot s

abbrev pub with_tail : Option (List Text × Text) → Option (List Text × Text)
with_tail none = none
with_tail (some (fs, behind)) = if is_tail behind then some (fs, behind) else none

-- The five columns of a line of `df`, and the mount point.
unfoldable pub df_line : Text → Option (List Text × Text)
unfolding fields is_space
df_line line = with_tail (fields 5 line)

unfoldable pub normalise : Text → Text
unfolding trim_end
normalise path = let trimmed = trim_end 47 path in if is_empty trimmed then 47 ∷ [] else trimmed

-- A header has no absolute path for its last column.
abbrev pub mounted_on : Option (List Text × Text) → Option Text
mounted_on none = none
mounted_on (some (fs, on)) = if starts_with (47 ∷ []) on then some on else none

abbrev pub add_point : Option Text → List Text → List Text
add_point none points = points
add_point (some on) points = normalise on ∷ points

unfoldable pub points_of : List Text → List Text
unfolding df_line normalise trim_end_space starts_with
points_of [] = []
points_of (line ∷ lines) = add_point (mounted_on (df_line (trim_end_space line))) (points_of lines)

unfoldable pub parse_mount_points : Text → List Text
unfolding points_of split
parse_mount_points output = points_of (split 10 output)

-- What the run of `df` printed, or none where it could not be run; none as well where it has no line.
abbrev pub or_none : List Text → Option (List Text)
or_none [] = none
or_none (p ∷ points) = some (p ∷ points)

unfoldable pub read_mount_points : Option Text → Option (List Text)
unfolding parse_mount_points
read_mount_points none = none
read_mount_points (some output) = or_none (parse_mount_points output)

unfoldable pub is_mount_point : Text → List Text → Bool
unfolding normalise member
is_mount_point path points = member (normalise path) points

-- `${point}/`, but for the root
unfoldable pub folder : Text → Text
unfolding text_eq
folder point = if text_eq point (47 ∷ []) then 47 ∷ [] else point ++ (47 ∷ [])

unfoldable pub holds : Text → Text → Bool
unfolding text_eq folder starts_with
holds point target = text_eq target point || starts_with (folder point) target

abbrev pub is_longer : Text → Option Text → Bool
is_longer point none = true
is_longer point (some best) = ltb (length best) (length point)

-- The loop over the points, with the best of them so far.
unfoldable pub nearest : Text → List Text → Option Text → Option Text
unfolding holds
nearest target [] best = best
nearest target (point ∷ points) best =
    nearest target points (if holds point target && is_longer point best then some point else best)

unfoldable pub mount_point_for : Text → List Text → Option Text
unfolding nearest normalise
mount_point_for path points = nearest (normalise path) points none

-- `Number.parseInt(s, 10)` of a text without spaces: its sign and its value, or none for NaN.
unfoldable pub digit_run : Text → Text
digit_run [] = []
digit_run (c ∷ s) = let run = digit_run s in if is_digit c then c ∷ run else []

abbrev pub read_digits : Bool → Text → Option (Bool × ℕ)
read_digits negative run = if is_empty run then none else some (negative, parse_int 0 run)

unfoldable pub parse_number : Text → Option (Bool × ℕ)
unfolding digit_run parse_int
parse_number [] = none
parse_number (c ∷ s) =
    if c == 45
    then read_digits true (digit_run s)
    else if c == 43
    then read_digits false (digit_run s)
    else read_digits false (digit_run (c ∷ s))

pub record DiskSpace : Type 0 where
  pub free_bytes : ℕ
  pub total_bytes : ℕ

-- Below zero: the sign, and a value that is not zero.
abbrev pub is_negative : Bool × ℕ → Bool
is_negative (negative, n) = negative && not (n == 0)

abbrev pub kibibytes : Option (Bool × ℕ) → ℕ
kibibytes none = 0
kibibytes (some n) = if is_negative n then 0 else n.1 * 1024

abbrev pub space_of : Option (Bool × ℕ) → Option (Bool × ℕ) → Option DiskSpace
space_of total none = none
space_of total (some free) =
    if is_negative free
    then none
    else some (record { free_bytes = free.1 * 1024; total_bytes = kibibytes total })

-- The second and the fourth column.
abbrev pub space_of_fields : List Text → Option DiskSpace
space_of_fields (_ ∷ total ∷ _ ∷ free ∷ _) = space_of (parse_number total) (parse_number free)
space_of_fields _ = none

-- The first line of a filesystem decides.
abbrev pub or_later : Option (List Text × Text) → Option DiskSpace → Option DiskSpace
or_later none later = later
or_later (some (fs, on)) later = if starts_with (47 ∷ []) on then space_of_fields fs else later

unfoldable pub space_in : List Text → Option DiskSpace
unfolding df_line parse_number trim_end_space starts_with
space_in [] = none
space_in (line ∷ lines) = or_later (df_line (trim_end_space line)) (space_in lines)

unfoldable pub read_space : Option Text → Option DiskSpace
unfolding space_in split
read_space none = none
read_space (some output) = space_in (split 10 output)

abbrev pub read_free_bytes : Option Text → Option ℕ
read_free_bytes output = elim (read_space output) [ none ↦ none | some s ↦ some s.free_bytes ]
