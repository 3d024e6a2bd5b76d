-- ===== src/MountTable/Table.antt =====
-- nest-api/src/fs/mount-table.ts: a table as `df` prints it, and what is read of it.
use trekker.Prelude.{
  ℕ, zero, suc, ◌⊎◌, ◌==◌, ◌&&◌, length-append, ◌≡◌, refl, ap, ◌∙◌, inl, inr, Bool, true, false,
  not, List, [], ◌∷◌, ◌++◌, arith, if◌then◌else◌, All, all, length,
}
use trekker.Text.{Text, is_dot, is_space, is_empty, starts_with, split}
use trekker.Text.Trim.{ends_open}
use trekker.MountTable.{
  run_of, field, fields, is_tail, df_line, normalise, points_of, parse_mount_points,
}
use trekker.MountTable.Rows.{
  Column, Row, blank, row_text, IsColumn, IsPlain, points_row, row_text-ends_open,
}

-- Every row of `df -P` is a line.
unfoldable pub table : List Row → Text
table [] = []
table (r ∷ rows) = row_text r.columns r.mount ++ (10 ∷ table rows)

-- More than five words before the mount point, as where the name of a device has a blank in it: the sixth
-- word does not begin with a slash.
abbrev pub IsShifted : Row → Type 0
IsShifted r =
    (five : List Column) × (sixth : Column) × (more : List Column) × (r.columns
      ≡ five ++ (sixth ∷ more))
    × (length five ≡ 5)
    × (All IsColumn five × All IsColumn (sixth ∷ more))
    × ((starts_with (47 ∷ []) sixth.content ≡ false)
        × (is_tail r.mount ≡ true)
        × (ends_open r.mount ≡ true))

abbrev pub IsRow : Row → Type 0
IsRow r = IsPlain r ⊎ IsShifted r

-- The mount points of the rows that have one and have five words before it.
unfoldable pub mounts : List Row → List Text
mounts [] = []
mounts (r ∷ rows) =
    let rest = mounts rows in
    if length r.columns == 5 && starts_with (47 ∷ []) r.mount
    then normalise r.mount ∷ rest
    else rest

row_text-append :
    (xs ys : List Column) (mount : Text)
    → row_text (xs ++ ys) mount ≡ row_text xs (row_text ys mount)
unfolding row_text
row_text-append [] ys mount = refl
row_text-append (x ∷ xs) ys mount =
    ap (λ s. x.content ++ (32 ∷ (blank x.blanks ++ s))) (row_text-append xs ys mount)

all-append : (p : ℕ → Bool) (s t : Text) → all p s ≡ true → all p t ≡ true → all p (s ++ t) ≡ true
all-append p [] t h k = k
all-append p (c ∷ s) t h k =
    let rest = all-append p s t (ground (arith, h)) k in ground (arith, h, rest)

-- A line holds no line end.
open-dots : (s : Text) → all (λ x. not (is_space x)) s ≡ true → all is_dot s ≡ true
unfolding is_space
open-dots [] h = refl
open-dots (c ∷ s) h = let rest = open-dots s (ground (arith, h)) in ground (arith, h, rest)

tail-dots : (s : Text) → is_tail s ≡ true → all is_dot s ≡ true
unfolding is_space
tail-dots [] h = refl
tail-dots (c ∷ s) h = ground (arith, h)

blank-dots : (n : ℕ) → all is_dot (blank n) ≡ true
unfolding blank
blank-dots zero = refl
blank-dots (suc n) = blank-dots n

row_text-dots :
    (cs : List Column) (mount : Text)
    → All IsColumn cs
    → is_tail mount ≡ true
    → all is_dot (row_text cs mount) ≡ true
unfolding row_text
row_text-dots [] mount h t = tail-dots mount t
row_text-dots (c ∷ cs) mount (h, hs) t =
    all-append is_dot c.content _ (open-dots c.content h.1)
      (all-append is_dot (blank c.blanks) _ (blank-dots c.blanks) (row_text-dots cs mount hs t))

-- Words and a mount point are a text that the last group of the pattern takes whole.
row_text-tail :
    (c : Column) (cs : List Column) (mount : Text)
    → All IsColumn (c ∷ cs)
    → is_tail mount ≡ true
    → starts_with (47 ∷ []) c.content ≡ false
    → (is_tail (row_text (c ∷ cs) mount) ≡ true)
      × (starts_with (47 ∷ []) (row_text (c ∷ cs) mount) ≡ false)
unfolding row_text starts_with
row_text-tail c cs mount h t s = worded c.content h.0.0 h.0.1 s (row_text-dots (c ∷ cs) mount h t)
  where
    worded :
        (w : Text)
        → is_empty w ≡ false
        → all (λ x. not (is_space x)) w ≡ true
        → starts_with (47 ∷ []) w ≡ false
        → all is_dot (w ++ (32 ∷ (blank c.blanks ++ row_text cs mount))) ≡ true
        → (is_tail (w ++ (32 ∷ (blank c.blanks ++ row_text cs mount))) ≡ true)
          × (starts_with (47 ∷ []) (w ++ (32 ∷ (blank c.blanks ++ row_text cs mount))) ≡ false)
    worded [] e o s d = cc
    worded (x ∷ w) e o s d = (ground (arith, o, d), s)

row-mounts :
    (r : Row) (rest : Text) (points : List Text)
    → IsRow r
    → parse_mount_points rest ≡ points
    → parse_mount_points (row_text r.columns r.mount ++ (10 ∷ rest)) ≡ (
        if length r.columns == 5 && starts_with (47 ∷ []) r.mount
        then normalise r.mount ∷ points
        else points)
row-mounts r rest points (inl h) e = points_row r.columns r.mount rest h ∙ rw (e, h.0) refl
row-mounts r rest points (inr (five, sixth, more, same, few, (words, others), (s, t, o))) e =
    let (tail, dropped) = row_text-tail sixth more r.mount others t s in
    let longer : (length r.columns == 5) ≡ false =
      rw (same) (ground (arith, length-append five (sixth ∷ more), few)) in
    ap (λ line. parse_mount_points (line ++ (10 ∷ rest)))
      (ap (λ cs. row_text cs r.mount) same ∙ row_text-append five (sixth ∷ more) r.mount)
    ∙ points_row five (row_text (sixth ∷ more) r.mount) rest
        (few, words, tail, row_text-ends_open (sixth ∷ more) r.mount o)
    ∙ rw (dropped, longer) e

-- What `df -P` prints, a line for each row and the words apart by one or more blanks, is read as the mount
-- points, in order, of the rows with exactly five words before them, blanks inside of a mount point kept
-- and slashes behind it dropped. Rows whose last column is no absolute path, as the header is, are left
-- out, and so is every row with more words before the mount point, as where the name of a device has a
-- blank in it, provided that the sixth does not begin with a slash. No mount point has a blank before or
-- behind it or a line end in it.
pub parse_mount_points-table :
    (rows : List Row) → All IsRow rows → parse_mount_points (table rows) ≡ mounts rows
unfolding parse_mount_points points_of table mounts split df_line fields field run_of
parse_mount_points-table [] h = refl
parse_mount_points-table (r ∷ rows) (h, hs) =
    row-mounts r (table rows) (mounts rows) h (parse_mount_points-table rows hs)
