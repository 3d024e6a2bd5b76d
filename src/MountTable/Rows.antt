-- ===== src/MountTable/Rows.antt =====
-- nest-api/src/fs/mount-table.ts: a line of `df`, and what is read of it.
use trekker.Prelude.{
  ℕ, zero, suc, ◌≡◌, refl, ap, subst, ◌∙◌, inl, inr, Bool, true, false, not, none, some, List, [],
  ◌∷◌, ◌++◌, map, arith, if◌then◌else◌, Bool-cases, All, all, length, and_true,
}
use trekker.Text.{
  Text, is_dot, is_space, is_empty, includes, starts_with, split, trim_end_space, trim_start_space,
}
use trekker.Text.Laws.{append_without, dots-newline, split-append}
use trekker.Text.Trim.{ends_open, trim_end_space-whole, ends_open-cons, ends_open-append}
use trekker.MountTable.{
  run_of, behind_run, field, fields, is_tail, with_tail, df_line, normalise, mounted_on, add_point,
  points_of, parse_mount_points,
}

-- A word of a line of `df`, and the number of further blanks behind it.
pub record Column : Type 0 where
  pub content : Text
  pub blanks : ℕ

pub record Row : Type 0 where
  pub columns : List Column
  pub mount : Text

unfoldable pub blank : ℕ → Text
blank zero = []
blank (suc n) = 32 ∷ blank n

unfoldable pub row_text : List Column → Text → Text
row_text [] mount = mount
row_text (c ∷ cs) mount = c.content ++ (32 ∷ (blank c.blanks ++ row_text cs mount))

abbrev pub IsColumn : Column → Type 0
IsColumn c = (is_empty c.content ≡ false) × (all (λ x. not (is_space x)) c.content ≡ true)

-- Five words, and behind them a text with nothing blank before or behind it and no line end in it.
abbrev pub IsPlain : Row → Type 0
IsPlain r =
    (length r.columns ≡ 5)
    × All IsColumn r.columns
    × (is_tail r.mount ≡ true)
    × (ends_open r.mount ≡ true)

run_of-append :
    (w s : Text) (c : ℕ)
    → all (λ x. not (is_space x)) w ≡ true
    → is_space c ≡ true
    → run_of (w ++ (c ∷ s)) ≡ (w, c ∷ s)
unfolding run_of
run_of-append [] s c h e = rw (e) refl
run_of-append (x ∷ w) s c h e =
    let rest =
      run_of-append w s c (and_true (not (is_space x)) (all (λ y. not (is_space y)) w) h).1 e in
    let open_char : is_space x ≡ false = ground (arith, h) in rw (rest) (rw (open_char) refl)

trim_start-blank :
    (n : ℕ) (c : ℕ) (s : Text)
    → is_space c ≡ false
    → trim_start_space (32 ∷ (blank n ++ (c ∷ s))) ≡ c ∷ s
unfolding trim_start_space blank is_space
trim_start-blank zero c s h = ap (λ (b : Bool). if b then trim_start_space s else c ∷ s) h
trim_start-blank (suc n) c s h = trim_start-blank n c s h

-- What begins with no blank.
abbrev IsOpen : Text → Type 0
IsOpen [] = ⊥
IsOpen (c ∷ s) = is_space c ≡ false

append-IsOpen : (w s : Text) → IsOpen w → IsOpen (w ++ s)
append-IsOpen [] s h = absurd h
append-IsOpen (c ∷ w) s h = h

content-IsOpen : (w : Text) → is_empty w ≡ false → all (λ x. not (is_space x)) w ≡ true → IsOpen w
content-IsOpen [] e h = cc
content-IsOpen (c ∷ w) e h = ground (arith, h)

pub tail-IsOpen : (s : Text) → is_tail s ≡ true → IsOpen s
tail-IsOpen [] h = cc
tail-IsOpen (c ∷ s) h = ground (arith, h)

row_text-IsOpen :
    (cs : List Column) (mount : Text)
    → All IsColumn cs
    → is_tail mount ≡ true
    → IsOpen (row_text cs mount)
unfolding row_text
row_text-IsOpen [] mount h t = tail-IsOpen mount t
row_text-IsOpen (c ∷ cs) mount (h, hs) t =
    append-IsOpen c.content (32 ∷ (blank c.blanks ++ row_text cs mount))
      (content-IsOpen c.content h.0 h.1)

trim_start-open : (n : ℕ) (s : Text) → IsOpen s → trim_start_space (32 ∷ (blank n ++ s)) ≡ s
trim_start-open n [] h = absurd h
trim_start-open n (c ∷ s) h = trim_start-blank n c s h

field-column :
    (c : Column) (s : Text)
    → IsColumn c
    → IsOpen s
    → field (c.content ++ (32 ∷ (blank c.blanks ++ s))) ≡ some (c.content, s)
unfolding field is_space
field-column c s h o =
    ap behind_run (run_of-append c.content (blank c.blanks ++ s) 32 h.1 refl)
    ∙ rw (h.0, trim_start-open c.blanks s o) refl

fields-row_text :
    (cs : List Column) (mount : Text)
    → All IsColumn cs
    → is_tail mount ≡ true
    → fields (length cs) (row_text cs mount) ≡ some (map (λ (c : Column). c.content) cs, mount)
unfolding fields row_text
fields-row_text [] mount h t = refl
fields-row_text (c ∷ cs) mount (h, hs) t =
    rw
      (
        fields,
        field-column c (row_text cs mount) h (row_text-IsOpen cs mount hs t),
        fields-row_text cs mount hs t,
      )
      refl

df_line-row_text :
    (r : Row)
    → IsPlain r
    → df_line (row_text r.columns r.mount)
      ≡ some (map (λ (c : Column). c.content) r.columns, r.mount)
unfolding df_line
df_line-row_text r h =
    ap with_tail (
      subst
        (λ n.
          fields n (row_text r.columns r.mount)
          ≡ some (map (λ (c : Column). c.content) r.columns, r.mount))
        h.0 (fields-row_text r.columns r.mount h.1 h.2))
    ∙ ap
        (λ (b : Bool).
          if b then some (map (λ (c : Column). c.content) r.columns, r.mount) else none)
        h.2

pub row_text-ends_open :
    (cs : List Column) (mount : Text)
    → ends_open mount ≡ true
    → ends_open (row_text cs mount) ≡ true
unfolding row_text
row_text-ends_open [] mount h = h
row_text-ends_open (c ∷ cs) mount h =
    let rest = row_text-ends_open cs mount h in
    ends_open-append c.content (32 ∷ (blank c.blanks ++ row_text cs mount)) (
      ends_open-cons 32 (blank c.blanks ++ row_text cs mount)
        (ends_open-append (blank c.blanks) (row_text cs mount) rest))

open-newline : (s : Text) → all (λ x. not (is_space x)) s ≡ true → includes 10 s ≡ false
unfolding includes is_space
open-newline [] h = refl
open-newline (c ∷ s) h = let rest = open-newline s (ground (arith, h)) in ground (arith, h, rest)

tail-newline : (s : Text) → is_tail s ≡ true → includes 10 s ≡ false
unfolding includes is_space
tail-newline [] h = refl
tail-newline (c ∷ s) h =
    let rest = dots-newline s (and_true (not (is_space c)) (all is_dot s) h).1 in
    ground (arith, h, rest)

blank-newline : (n : ℕ) → includes 10 (blank n) ≡ false
unfolding includes blank
blank-newline zero = refl
blank-newline (suc n) = blank-newline n

row_text-newline :
    (cs : List Column) (mount : Text)
    → All IsColumn cs
    → is_tail mount ≡ true
    → includes 10 (row_text cs mount) ≡ false
unfolding row_text includes
row_text-newline [] mount h t = tail-newline mount t
row_text-newline (c ∷ cs) mount (h, hs) t =
    append_without 10 c.content (32 ∷ (blank c.blanks ++ row_text cs mount))
      (open-newline c.content h.1)
      (append_without 10 (blank c.blanks) (row_text cs mount) (blank-newline c.blanks)
        (row_text-newline cs mount hs t))

-- A line of five words and a text behind them gives the text if it is an absolute path.
pub points_row :
    (cs : List Column) (mount rest : Text)
    → IsPlain (record { columns = cs; mount = mount })
    → parse_mount_points (row_text cs mount ++ (10 ∷ rest)) ≡ (
        if starts_with (47 ∷ []) mount
        then normalise mount ∷ parse_mount_points rest
        else parse_mount_points rest)
unfolding parse_mount_points points_of split df_line fields field run_of
points_row cs mount rest h =
    let line = row_text cs mount in
    let here : df_line (trim_end_space line) ≡ some (map (λ (c : Column). c.content) cs, mount) =
      ap df_line (trim_end_space-whole line (row_text-ends_open cs mount h.3))
      ∙ df_line-row_text (record { columns = cs; mount = mount }) h in
    ap points_of (split-append 10 line rest (row_text-newline cs mount h.1 h.2))
    ∙ ap (λ l. add_point (mounted_on l) (parse_mount_points rest)) here
    ∙ add-mounted mount (parse_mount_points rest)
  where
    add-mounted :
        (on : Text) (points : List Text)
        → add_point (if starts_with (47 ∷ []) on then some on else none) points
          ≡ (if starts_with (47 ∷ []) on then normalise on ∷ points else points)
    add-mounted on points = elim (Bool-cases (starts_with (47 ∷ []) on)) [
      | inl e ↦ rw (e) refl
      | inr e ↦ rw (e) refl
    ]
