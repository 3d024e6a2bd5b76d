-- ===== src/DuParse/Records.antt =====
-- nest-api/src/scans/du-parse.ts: records as `du` prints them, and what is read of them.
use trekker.Prelude.{
  ℕ, ◌+◌, ◌*◌, Option, filter, length, ◌&&◌, ◌≡◌, refl, ap, ap₂, ◌∙◌, inl, inr, Bool, true, false,
  not, none, some, List, [], ◌∷◌, ◌++◌, map, arith, ◌==◌, ==_refl, if_either, if◌then◌else◌,
  Bool-cases, All, all, leb, and_true,
}
use trekker.Text.{
  is_space, trim, trim_end_space, trim_start_space, Text, is_digit, parse_int, is_empty, includes,
  starts_with, trim_end,
}
use trekker.Text.Laws.{append_without, cut_first-append}
use trekker.ScanAggregator.{DuRecord}
use trekker.DuParse.Rungs.{DuRung}
use trekker.DuParse.{
  new_parser, terminator, is_number, stamped, sized, record_of, root_if_empty, frames, decode,
  add_record, decode_all, push,
}
use trekker.DuParse.Chunks.{frames-append, frames_whole, framed, push-framed}

-- A file as `du` tells of it: its size, the time of its last change in seconds, and its path.
pub record Item : Type 0 where
  pub size : Text
  pub epoch : Text
  pub path : Text

-- What `du` prints of a file at a rung, without the terminator.
unfoldable pub printed : DuRung → Item → Text
printed rung item =
    item.size ++ (9 ∷ (if rung.has_time then item.epoch ++ (9 ∷ item.path) else item.path))

unfoldable pub output : DuRung → List Item → Text
output rung [] = []
output rung (item ∷ items) = printed rung item ++ (terminator rung ∷ output rung items)

-- The size is a text of digits, the time holds no tab and no terminator, and the path is absolute and
-- holds no terminator.
abbrev pub IsItem : DuRung → Item → Type 0
IsItem rung item =
    (is_number item.size ≡ true)
    × ((includes 9 item.epoch ≡ false) × (includes (terminator rung) item.epoch ≡ false))
    × (starts_with (47 ∷ []) item.path ≡ true)
    × (includes (terminator rung) item.path ≡ false)

-- The time is a text of digits, where the rung has one: a time before 1970 begins with a minus.
abbrev pub has_number : DuRung → Item → Bool
has_number rung item = if rung.has_time then is_number item.epoch else true

-- The record of a file.
unfoldable pub told : DuRung → Item → DuRecord
told rung item = record {
  bytes = parse_int 0 item.size * rung.unit_bytes;
  mtime_ms = if rung.has_time then some (parse_int 0 item.epoch * 1000) else none;
  path = root_if_empty (trim_end 47 item.path);
}

includes-tab :
    (c : ℕ) (s : Text) → (9 == c) ≡ false → includes c s ≡ false → includes c (9 ∷ s) ≡ false
unfolding includes
includes-tab c s h k = rw (h) k

-- Digits hold no tab and no terminator.
digits-includes :
    (c : ℕ) (s : Text) → leb c 47 ≡ true → all is_digit s ≡ true → includes c s ≡ false
unfolding includes
digits-includes c [] h d = refl
digits-includes c (x ∷ s) h d =
    let rest = digits-includes c s h (ground (arith, d)) in ground (arith, h, d, rest)

number-digits : (s : Text) → is_number s ≡ true → all is_digit s ≡ true
number-digits s h = (and_true (not (is_empty s)) (all is_digit s) h).1

-- `&&` with a second half that fails.
and_false : (a b : Bool) → b ≡ false → (a && b) ≡ false
and_false a b h = ground (arith, h)

abbrev when {ℓ} : {A : Type ℓ} → Bool → A → Option A
when b x = if b then some x else none

stamped_printed :
    (rung : DuRung) (item : Item)
    → IsItem rung item
    → stamped rung.has_time (if rung.has_time then item.epoch ++ (9 ∷ item.path) else item.path)
      ≡ when
          (has_number rung item)
          (if rung.has_time then some (parse_int 0 item.epoch * 1000) else none, item.path)
unfolding stamped
stamped_printed rung item h = elim (Bool-cases rung.has_time) [
  | inr e ↦ rw (e) refl
  | inl e ↦ rw (e) (rw (cut_first-append 9 item.epoch item.path h.1.0) refl)
]

record_of-when :
    (bytes : ℕ) (b : Bool) (time : Option ℕ) (path : Text)
    → starts_with (47 ∷ []) path ≡ true
    → record_of bytes (when b (time, path))
      ≡ when b (record { bytes = bytes; mtime_ms = time; path = root_if_empty (trim_end 47 path) })
record_of-when bytes true time path h = rw (h) refl
record_of-when bytes false time path h = refl

decode-printed :
    (rung : DuRung) (item : Item)
    → IsItem rung item
    → decode rung (printed rung item) ≡ when (has_number rung item) (told rung item)
unfolding decode printed told
decode-printed rung item h =
    let rest = if rung.has_time then item.epoch ++ (9 ∷ item.path) else item.path in
    let found =
      cut_first-append 9 item.size rest
        (digits-includes 9 item.size refl (number-digits item.size h.0)) in
    ap (sized rung) found
    ∙ ap
        (λ (b : Bool).
          if b
          then record_of (parse_int 0 item.size * rung.unit_bytes) (stamped rung.has_time rest)
          else none)
        h.0
    ∙ ap (record_of (parse_int 0 item.size * rung.unit_bytes)) (stamped_printed rung item h)
    ∙ record_of-when (parse_int 0 item.size * rung.unit_bytes) (has_number rung item)
        (if rung.has_time then some (parse_int 0 item.epoch * 1000) else none) item.path h.2

digit_space : (c : ℕ) → is_digit c ≡ true → is_space c ≡ false
unfolding is_space
digit_space c h = ground (arith, h)

-- A line of the output is not blank.
printed-trim :
    (rung : DuRung) (item : Item) → IsItem rung item → is_empty (trim (printed rung item)) ≡ false
unfolding printed trim trim_end_space trim_start_space
printed-trim rung item h = sized_trim item.size _ h.0
  where
    sized_trim : (size s : Text) → is_number size ≡ true → is_empty (trim (size ++ s)) ≡ false
    sized_trim [] s n = cc
    sized_trim (c ∷ size) s n =
        let solid : is_space c ≡ false = digit_space c (ground (arith, n)) in
        rw
          (
            trim,
            trim_end_space,
            and_false (is_empty (trim_end_space (size ++ s))) (is_space c) solid,
            trim_start_space,
            solid,
          )
          refl

-- A line of the output holds no terminator.
printed-includes :
    (rung : DuRung) (item : Item)
    → IsItem rung item
    → includes (terminator rung) (printed rung item) ≡ false
unfolding printed
printed-includes rung item h =
    let low : leb (terminator rung) 47 ≡ true =
      if_either (λ n. leb n 47 ≡ true) rung.null_terminated (λ _. refl) (λ _. refl) in
    let no_tab : (9 == terminator rung) ≡ false =
      if_either (λ n. (9 == n) ≡ false) rung.null_terminated (λ _. refl) (λ _. refl) in
    let size = digits-includes (terminator rung) item.size low (number-digits item.size h.0) in
    let epoch = h.1.1 in
    let tabbed : (s : Text)
        → includes (terminator rung) s ≡ false
        → includes (terminator rung) (9 ∷ s) ≡ false =
      λ s k. includes-tab (terminator rung) s no_tab k in
    append_without (terminator rung) item.size _ size (
      tabbed _ (
        if_either (λ (s : Text). includes (terminator rung) s ≡ false) rung.has_time
          (λ _.
            append_without (terminator rung) item.epoch (9 ∷ item.path) epoch
              (tabbed item.path h.3))
          (λ _. h.3)))

frames_line :
    (sep : ℕ) (line rest : Text)
    → includes sep line ≡ false
    → frames sep [] (line ++ (sep ∷ rest)) ≡ (line ∷ (frames sep [] rest).0, (frames sep [] rest).1)
unfolding frames
frames_line sep line rest h =
    frames-append sep [] line (sep ∷ rest)
    ∙ rw (frames_whole sep [] line h, frames, ==_refl sep) refl

abbrev lines_of : DuRung → List Item → List Text
lines_of rung items = map (printed rung) items

frames-output :
    (rung : DuRung) (items : List Item)
    → All (IsItem rung) items
    → frames (terminator rung) [] (output rung items) ≡ (lines_of rung items, [])
unfolding output frames
frames-output rung [] h = refl
frames-output rung (item ∷ items) (h, hs) =
    frames_line (terminator rung) (printed rung item) (output rung items)
      (printed-includes rung item h)
    ∙ ap (λ f. (printed rung item ∷ f.0, f.1)) (frames-output rung items hs)

decode_all-lines :
    (rung : DuRung) (items : List Item)
    → All (IsItem rung) items
    → decode_all rung (lines_of rung items) ≡ (
      map (told rung) (filter (has_number rung) items),
      length (filter (λ (i : Item). not (has_number rung i)) items),
    )
unfolding decode_all
decode_all-lines rung [] h = refl
decode_all-lines rung (item ∷ items) (h, hs) =
    ap₂ (λ r rest. add_record r (printed rung item) rest) (decode-printed rung item h)
      (decode_all-lines rung items hs)
    ∙ added (has_number rung item) refl
  where
    good : List DuRecord
    good = map (told rung) (filter (has_number rung) items)

    bad : ℕ
    bad = length (filter (λ (i : Item). not (has_number rung i)) items)

    added :
        (b : Bool)
        → has_number rung item ≡ b
        → add_record (when (has_number rung item) (told rung item)) (printed rung item) (good, bad)
          ≡ (
            map (told rung) (filter (has_number rung) (item ∷ items)),
            length (filter (λ (i : Item). not (has_number rung i)) (item ∷ items)),
          )
    added true e = rw (e) refl
    added false e = rw (e, printed-trim rung item h) (ap (λ n. (good, n)) (omega arith))

-- At every rung, what `du` prints of files is read as the records of those whose time is a text of digits,
-- or of all where the rung has no time: one for each and in order, with the size in bytes, the time where
-- the rung has one, and the path less the slashes behind it. Each other file, as one whose time is before
-- 1970, counts as malformed and has no record, and nothing is left over. Sizes are texts of digits, times
-- hold no tab and no terminator, and paths are absolute and may hold anything but the terminator: where
-- that is NUL, a newline in a name makes no record of its own.
pub push-output :
    (rung : DuRung) (items : List Item)
    → All (IsItem rung) items
    → push (new_parser rung) (output rung items) ≡ (
      map (told rung) (filter (has_number rung) items),
      record (new_parser rung) {
        malformed = length (filter (λ (i : Item). not (has_number rung i)) items);
      },
    )
push-output rung items h =
    push-framed (new_parser rung) (output rung items)
    ∙ ap (framed (new_parser rung)) (frames-output rung items h)
    ∙ ap (λ r. (r.0, record (new_parser rung) { malformed = 0 + r.1 }))
        (decode_all-lines rung items h)
    ∙ ap
        (λ n. (
          map (told rung) (filter (has_number rung) items),
          record (new_parser rung) { malformed = n },
        ))
        (omega arith)
