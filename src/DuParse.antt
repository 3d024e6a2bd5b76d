-- ===== src/DuParse.antt =====
-- nest-api/src/scans/du-parse.ts, with the rungs of nest-api/src/scans/du-flavour.ts: the output of `du`,
-- cut into records as it arrives. The decoder of bytes is Node's `StringDecoder`: the parser here is
-- handed the text that it wrote. The probe of a host is not modelled.
pub mod Rungs
pub mod Chunks
pub mod Records
mod Tests
use trekker.Prelude.{
  ℕ, zero, suc, ◌+◌, ◌*◌, ◌-◌, Bool, true, false, not, ◌&&◌, ◌||◌, Option, none, some, List, [],
  ◌∷◌, ◌++◌, if◌then◌else◌, ltb, leb, ◌==◌, all,
}
use trekker.Text.{
  is_digit, parse_int, Text, codes, is_empty, is_space, starts_with, split, cut_first, trim,
  trim_end, trim_start_space,
}
use trekker.ScanAggregator.{DuRecord}
use trekker.DuParse.Rungs.{DuRung}
use trekker.Text.Cases.{begins}

pub record DuParser : Type 0 where
  pub rung : DuRung
  pub buffered : Text
  pub malformed : ℕ

abbrev pub new_parser : DuRung → DuParser
new_parser rung = record { rung = rung; buffered = []; malformed = 0 }

abbrev pub terminator : DuRung → ℕ
terminator rung = if rung.null_terminated then 0 else 10

-- `/^\d+$/`
abbrev pub is_number : Text → Bool
is_number s = not (is_empty s) && all is_digit s

-- The time and the path of a record, where the rung reports a time.
abbrev pub Stamped : Type 0
Stamped = Option ℕ × Text

-- What stands behind a tab.
abbrev pub behind : Text → Text
behind [] = []
behind (_ ∷ s) = s

abbrev pub stamp : Option (Text × Text) → Option Stamped
stamp none = none
stamp (some (epoch, from)) =
    if is_number epoch then some (some (parse_int 0 epoch * 1000), behind from) else none

unfoldable pub stamped : Bool → Text → Option Stamped
unfolding cut_first parse_int
stamped true rest = stamp (cut_first 9 rest)
stamped false rest = some (none, rest)

abbrev pub root_if_empty : Text → Text
root_if_empty [] = 47 ∷ []
root_if_empty (c ∷ s) = c ∷ s

-- A record with an absolute path.
abbrev pub record_of : ℕ → Option Stamped → Option DuRecord
record_of bytes none = none
record_of bytes (some (mtime, path)) =
    if starts_with (47 ∷ []) path
    then some (record { bytes = bytes; mtime_ms = mtime; path = root_if_empty (trim_end 47 path) })
    else none

abbrev pub sized : DuRung → Option (Text × Text) → Option DuRecord
sized rung none = none
sized rung (some (size, from)) =
    if is_number size
    then record_of (parse_int 0 size * rung.unit_bytes) (stamped rung.has_time (behind from))
    else none

unfoldable pub decode : DuRung → Text → Option DuRecord
unfolding cut_first stamped starts_with trim_end parse_int
decode rung raw = sized rung (cut_first 9 raw)

-- The pieces that a terminator ends, and what stands behind the last one; `current` was read before.
unfoldable pub frames : ℕ → Text → Text → List Text × Text
frames sep current [] = ([], current)
frames sep current (c ∷ s) =
    let next = frames sep [] s in
    let longer = frames sep (current ++ (c ∷ [])) s in
    if c == sep then (current ∷ next.0, next.1) else longer

abbrev pub add_record : Option DuRecord → Text → List DuRecord × ℕ → List DuRecord × ℕ
add_record (some r) raw (records, malformed) = (r ∷ records, malformed)
add_record none raw (records, malformed) =
    (records, if is_empty (trim raw) then malformed else malformed + 1)

-- The records of the pieces, and how many of them were none and not blank.
unfoldable pub decode_all : DuRung → List Text → List DuRecord × ℕ
unfolding decode trim
decode_all rung [] = ([], 0)
decode_all rung (raw ∷ raws) = add_record (decode rung raw) raw (decode_all rung raws)

unfoldable pub drain : DuParser → List DuRecord × DuParser
unfolding frames decode_all
drain parser =
    let (raws, rest) = frames (terminator parser.rung) [] parser.buffered in
    let (records, malformed) = decode_all parser.rung raws in
    (records, record parser { buffered = rest; malformed = parser.malformed + malformed })

unfoldable pub push : DuParser → Text → List DuRecord × DuParser
unfolding drain
push parser text = drain (record parser { buffered = parser.buffered ++ text })

-- `held` is what the decoder still had.
unfoldable pub end : DuParser → Text → List DuRecord × DuParser
unfolding push trim
end parser held =
    let (records, drained) = push parser held in
    (
      records,
      record drained {
        buffered = [];
        malformed =
            if is_empty (trim drained.buffered) then drained.malformed else drained.malformed + 1;
      },
    )

-- `\s+` and one of the complaints.
abbrev pub complains : Text → Bool
complains [] = false
complains (c ∷ s) =
    let rest = trim_start_space s in
    is_space c
    && (begins (codes "cannot read") rest
        || begins (codes "cannot access") rest
        || begins (codes "cannot open") rest
        || begins (codes "fts_read") rest)

unfoldable pub counts_as_unreadable : Text → Bool
unfolding begins trim_start_space is_space
counts_as_unreadable (a ∷ b ∷ c ∷ s) = begins (codes "du:") (a ∷ b ∷ c ∷ []) && complains s
counts_as_unreadable _ = false

unfoldable pub count_lines : List Text → ℕ
unfolding counts_as_unreadable trim
count_lines [] = 0
count_lines (line ∷ lines) =
    let rest = count_lines lines in if counts_as_unreadable (trim line) then rest + 1 else rest

unfoldable pub count_unreadable : Text → ℕ
unfolding count_lines split
count_unreadable stderr = count_lines (split 10 stderr)
