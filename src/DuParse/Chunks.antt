-- ===== src/DuParse/Chunks.antt =====
-- nest-api/src/scans/du-parse.ts: how the output is cut into chunks makes no difference.
use trekker.Prelude.{
  ℕ, ◌+◌, ◌≡◌, refl, ap, ap₂, sym, subst, ◌∙◌, inl, inr, false, Option, none, some, List, [], ◌∷◌,
  ◌++◌, append-nil, append_assoc, arith, ◌==◌, if_either, Bool-cases,
}
use trekker.Text.{Text, includes}
use trekker.ScanAggregator.{DuRecord}
use trekker.DuParse.Rungs.{DuRung}
use trekker.DuParse.{DuParser, terminator, frames, decode, add_record, decode_all, drain, push}

pub frames-append :
    (sep : ℕ) (current a b : Text)
    → frames sep current (a ++ b) ≡ (
      (frames sep current a).0 ++ (frames sep (frames sep current a).1 b).0,
      (frames sep (frames sep current a).1 b).1,
    )
unfolding frames
frames-append sep current [] b = refl
frames-append sep current (c ∷ a) b = elim (Bool-cases (c == sep)) [
  | inl e ↦ rw (e, frames-append sep [] a b) refl
  | inr e ↦ rw (e) (frames-append sep (current ++ (c ∷ [])) a b)
]

pub frames_whole :
    (sep : ℕ) (current s : Text)
    → includes sep s ≡ false
    → frames sep current s ≡ ([], current ++ s)
unfolding frames includes
frames_whole sep current [] h = ap (λ t. ([], t)) (sym (append-nil current))
frames_whole sep current (c ∷ s) h = elim (Bool-cases (c == sep)) [
  | inl e ↦ ground (arith, e, h)
  | inr e ↦ rw (e) (
      frames_whole sep (current ++ (c ∷ [])) s (ground (arith, h))
      ∙ ap (λ t. ([], t)) (append_assoc current (c ∷ []) s))
]

includes-append_one :
    (sep : ℕ) (s : Text) (c : ℕ)
    → includes sep s ≡ false
    → (c == sep) ≡ false
    → includes sep (s ++ (c ∷ [])) ≡ false
unfolding includes
includes-append_one sep [] c h e = rw (e) refl
includes-append_one sep (d ∷ s) c h e =
    let rest = includes-append_one sep s c (ground (arith, h)) e in ground (arith, h, rest)

-- What is left over holds no terminator.
frames-rest :
    (sep : ℕ) (current s : Text)
    → includes sep current ≡ false
    → includes sep (frames sep current s).1 ≡ false
unfolding frames includes
frames-rest sep current [] h = h
frames-rest sep current (c ∷ s) h =
    if_either (λ (p : List Text × Text). includes sep p.1 ≡ false) (c == sep)
      {x = (current ∷ (frames sep [] s).0, (frames sep [] s).1)}
      {y = frames sep (current ++ (c ∷ [])) s} (λ _. frames-rest sep [] s refl)
      (λ e. frames-rest sep (current ++ (c ∷ [])) s (includes-append_one sep current c h e))

abbrev pub joined : List DuRecord × ℕ → List DuRecord × ℕ → List DuRecord × ℕ
joined (a, m) (b, n) = (a ++ b, m + n)

add_record-joined :
    (r : Option DuRecord) (raw : Text) (a b : List DuRecord × ℕ)
    → add_record r raw (joined a b) ≡ joined (add_record r raw a) b
add_record-joined (some r) raw (a, m) (b, n) = refl
add_record-joined none raw (a, m) (b, n) = ap (λ k. (a ++ b, k)) (ground arith)

pub decode_all-append :
    (rung : DuRung) (xs ys : List Text)
    → decode_all rung (xs ++ ys) ≡ joined (decode_all rung xs) (decode_all rung ys)
unfolding decode_all
decode_all-append rung [] ys = ap (λ k. ((decode_all rung ys).0, k)) (omega arith)
decode_all-append rung (x ∷ xs) ys =
    ap (add_record (decode rung x) x) (decode_all-append rung xs ys)
    ∙ add_record-joined (decode rung x) x (decode_all rung xs) (decode_all rung ys)

-- A parser whose text holds no terminator, as it does after each chunk.
abbrev pub IsDrained : DuParser → Type 0
IsDrained parser = includes (terminator parser.rung) parser.buffered ≡ false

push_frames :
    (parser : DuParser) (text : Text)
    → IsDrained parser
    → frames (terminator parser.rung) [] (parser.buffered ++ text)
      ≡ frames (terminator parser.rung) parser.buffered text
push_frames parser text h =
    let sep = terminator parser.rung in
    rw (frames-append sep [] parser.buffered text, frames_whole sep [] parser.buffered h) refl

push-IsDrained :
    (parser : DuParser) (text : Text) → IsDrained parser → IsDrained (push parser text).1
unfolding push drain includes
push-IsDrained parser text h =
    frames-rest (terminator parser.rung) [] (parser.buffered ++ text) refl

abbrev pub before : List DuRecord → List DuRecord × DuParser → List DuRecord × DuParser
before records (more, parser) = (records ++ more, parser)

-- What `drain` makes of the pieces of a text and its rest.
abbrev pub framed : DuParser → List Text × Text → List DuRecord × DuParser
framed parser (raws, rest) =
    let (records, malformed) = decode_all parser.rung raws in
    (records, record parser { buffered = rest; malformed = parser.malformed + malformed })

pub push-framed :
    (parser : DuParser) (text : Text)
    → push parser text
      ≡ framed parser (frames (terminator parser.rung) [] (parser.buffered ++ text))
unfolding push drain
push-framed parser text = refl

framed-append :
    (parser : DuParser) (xs ys : List Text) (middle rest : Text)
    → framed parser (xs ++ ys, rest)
      ≡ before (framed parser (xs, middle)).0 (framed (framed parser (xs, middle)).1 (ys, rest))
framed-append parser xs ys middle rest =
    let both = decode_all-append parser.rung xs ys in
    ap₂ (λ records malformed. (records, record parser { buffered = rest; malformed = malformed }))
      (ap (λ r. r.0) both) (let count = ap (λ r. r.1) both in omega (arith, count))

push-append :
    (parser : DuParser) (a b : Text)
    → IsDrained parser
    → push parser (a ++ b) ≡ before (push parser a).0 (push (push parser a).1 b)
push-append parser a b h =
    let sep = terminator parser.rung in
    let first = frames sep [] (parser.buffered ++ a) in
    let second = frames sep first.1 b in
    let next = (framed parser first).1 in
    let cut : frames sep [] (parser.buffered ++ (a ++ b)) ≡ (first.0 ++ second.0, second.1) =
      ap (frames sep []) (sym (append_assoc parser.buffered a b))
      ∙ frames-append sep [] (parser.buffered ++ a) b in
    let again : frames sep [] (first.1 ++ b) ≡ second =
      push_frames next b
        (subst IsDrained (ap (λ r. r.1) (push-framed parser a)) (push-IsDrained parser a h)) in
    push-framed parser (a ++ b)
    ∙ ap (framed parser) cut
    ∙ framed-append parser first.0 second.0 first.1 second.1
    ∙ ap (λ f. before (framed parser first).0 (framed next f)) (sym again)
    ∙ ap (λ r. before (framed parser first).0 r) (sym (push-framed next b))
    ∙ ap (λ r. before r.0 (push r.1 b)) (sym (push-framed parser a))

-- Chunks as they arrive.
unfoldable pub push_all : DuParser → List Text → List DuRecord × DuParser
unfolding push
push_all parser [] = ([], parser)
push_all parser (chunk ∷ chunks) =
    before (push parser chunk).0 (push_all (push parser chunk).1 chunks)

unfoldable pub concat : List Text → Text
concat [] = []
concat (t ∷ ts) = t ++ concat ts

push-nil : (parser : DuParser) → IsDrained parser → push parser [] ≡ ([], parser)
unfolding decode_all
push-nil parser h =
    push-framed parser []
    ∙ ap (framed parser) (
        ap (frames (terminator parser.rung) []) (append-nil parser.buffered)
        ∙ frames_whole (terminator parser.rung) [] parser.buffered h)
    ∙ ap (λ m. ([], record parser { malformed = m })) (omega arith)

-- However the output of `du` is cut into chunks, what a parser gives for the chunks one after another,
-- and the parser that it is then, are the same as for all of it at once.
pub push_all-concat :
    (parser : DuParser) (chunks : List Text)
    → IsDrained parser
    → push_all parser chunks ≡ push parser (concat chunks)
unfolding push_all concat
push_all-concat parser [] h = sym (push-nil parser h)
push_all-concat parser (chunk ∷ chunks) h =
    ap (before (push parser chunk).0)
      (push_all-concat (push parser chunk).1 chunks (push-IsDrained parser chunk h))
    ∙ sym (push-append parser chunk (concat chunks) h)
