-- ===== src/TailLines.antt =====
-- nest-api/src/fs/tail-lines.ts: text that arrives in chunks, framed into clean lines. The decoder
-- of bytes is Node's `StringDecoder`: the framer here is handed the text that it wrote.
pub mod Cleaning
pub mod Chunks
mod Tests
use trekker.Prelude.{
  ℕ, zero, suc, ◌+◌, ◌-◌, Bool, true, false, not, ◌&&◌, ◌||◌, Option, none, some, List, [], ◌∷◌,
  ◌++◌, if◌then◌else◌, ltb, leb, ◌==◌, length, filter,
}
use trekker.Text.{Text, is_empty, split, take}

-- The length is compared with the number of code units.
abbrev pub tail_max_line_bytes : ℕ
tail_max_line_bytes = 8192

abbrev pub max_parameters : ℕ
max_parameters = 32

pub record FramedLine : Type 0 where
  pub text : Text
  pub truncated : Bool

pub record LineFramer : Type 0 where
  pub partial : Text
  pub discarding : Bool

abbrev pub is_letter : ℕ → Bool
is_letter c = (leb 65 c && leb c 90) || (leb 97 c && leb c 122)

-- `[0-9;]`
abbrev pub is_parameter : ℕ → Bool
is_parameter c = leb 48 c && leb c 57 || c == 59

-- The length of a run of at most `most` parameters and the letter behind it; 0 for no match.
unfoldable pub parameters : ℕ → Text → ℕ
parameters most [] = 0
parameters zero (c ∷ s) = if is_letter c then 1 else 0
parameters (suc most) (c ∷ s) =
    let rest = parameters most s in
    if is_letter c then 1 else if is_parameter c then (if rest == 0 then 0 else rest + 1) else 0

-- The length of the escape sequence that the text begins with; 0 if there is none.
unfoldable pub ansi_length : Text → ℕ
unfolding parameters
ansi_length (c ∷ d ∷ s) =
    if c == 27 && d == 91
    then (let n = parameters max_parameters s in if n == 0 then 0 else n + 2)
    else 0
ansi_length _ = 0

-- `replace(ANSI, "")`; `skip` counts what is left of the sequence that is being dropped.
unfoldable pub strip_ansi : ℕ → Text → Text
unfolding ansi_length
strip_ansi skip [] = []
strip_ansi (suc skip) (c ∷ s) = strip_ansi skip s
strip_ansi zero (c ∷ s) = elim (ansi_length (c ∷ s)) [
  | zero ↦ c ∷ strip_ansi zero s
  | suc n ↦ strip_ansi n s
]

abbrev pub is_control : ℕ → Bool
is_control c = leb c 8 || (leb 11 c && leb c 31) || c == 127

-- `replace(CONTROLS, "")`
unfoldable pub strip_controls : Text → Text
strip_controls = filter (λ c. not (is_control c))

unfoldable pub without_cr : Text → Text
without_cr [] = []
without_cr (c ∷ s) = let rest = without_cr s in if is_empty s && c == 13 then [] else c ∷ rest

-- ` …`
abbrev pub ellipsis : Text
ellipsis = 32 ∷ 8230 ∷ []

unfoldable pub clean : Text → Bool → FramedLine
unfolding strip_ansi strip_controls without_cr
clean raw truncated =
    let text = strip_controls (strip_ansi 0 (without_cr raw)) in
    record { text = if truncated then text ++ ellipsis else text; truncated = truncated }

abbrev pub too_long : Text → Bool
too_long line = ltb tail_max_line_bytes (length line)

-- A whole line, capped.
unfoldable pub emit : Text → FramedLine
emit line = if too_long line then clean (take tail_max_line_bytes line) true else clean line false

abbrev pub Framed : Type 0
Framed = List FramedLine × LineFramer

abbrev pub before : List FramedLine → Framed → Framed
before lines (more, framer) = (lines ++ more, framer)

-- What stands behind the last newline is carried.
unfoldable pub carry : LineFramer → Text → Framed
carry f rest =
    if f.discarding
    then ([], f)
    else (let partial = f.partial ++ rest in
        if too_long partial
        then (
          clean (take tail_max_line_bytes partial) true ∷ [],
          record { partial = []; discarding = true },
        )
        else ([], record { partial = partial; discarding = false }))

-- What a newline ends: the rest of a line that was cut short is dropped.
unfoldable pub end_line : LineFramer → Text → List FramedLine
unfolding emit
end_line f segment = if f.discarding then [] else emit (f.partial ++ segment) ∷ []

abbrev pub fresh : LineFramer
fresh = record { partial = []; discarding = false }

-- The loop of `push`, over the segments between the newlines; the last one is not ended.
unfoldable pub push_segments : LineFramer → List Text → Framed
unfolding carry end_line
push_segments f [] = ([], f)
push_segments f (rest ∷ []) = carry f rest
push_segments f (segment ∷ next ∷ segments) =
    before (end_line f segment) (push_segments fresh (next ∷ segments))

unfoldable pub push : LineFramer → Text → Framed
unfolding push_segments split
push f text = if is_empty text then ([], f) else push_segments f (split 10 text)

-- `tail` is the partial line with what the decoder still held.
unfoldable pub flush : LineFramer → Text → Framed
flush f held =
    let tail = f.partial ++ held in
    (if f.discarding || is_empty tail then [] else clean tail false ∷ [], record f { partial = [] })

unfoldable pub reset : LineFramer → LineFramer
reset f = fresh
