-- ===== src/TailRegistry/Resume.antt =====
-- nest-api/src/fs/tail-registry.service.ts: the ring and the count of an entry stand for all the lines
-- that were ever published to it, and a client that joins is answered as from those.
use trekker.Prelude.{
  ℕ, zero, suc, ◌+◌, ◌-◌, ◌≤◌, min, Bool, true, false, Option, none, some, List, [], ◌∷◌, ◌++◌, ◌≡◌,
  refl, ap, sym, ◌∙◌, inl, inr, append-nil, append_assoc, arith, if◌then◌else◌, if_either, ltb, leb,
  ◌==◌, length, length-append, Bool-cases,
}
use trekker.Text.{Text}
use trekker.TailRegistry.Entry.{
  slow_client, TailFrame, gap_frame, attach, leave, Held, Sockets, TailEntry, send, send_lines,
  broadcast, drop, slice_last, add_to_ring, publish, replay, tail_ring_lines,
}

pub length-drop : (n : ℕ) (xs : List Text) → length (drop n xs) ≡ length xs - n
unfolding drop
length-drop zero xs = omega arith
length-drop (suc n) [] = omega arith
length-drop (suc n) (x ∷ xs) = omega (arith, length-drop n xs)

drop-append : (n : ℕ) (xs ys : List Text) → n ≤ length xs → drop n (xs ++ ys) ≡ drop n xs ++ ys
unfolding drop
drop-append zero xs ys h = refl
drop-append (suc n) [] ys h = ground arith
drop-append (suc n) (x ∷ xs) ys h = drop-append n xs ys (omega arith)

drop-nil : (n : ℕ) → drop n [] ≡ []
unfolding drop
drop-nil zero = refl
drop-nil (suc n) = refl

drop-drop : (n m : ℕ) (xs : List Text) → drop n (drop m xs) ≡ drop (m + n) xs
unfolding drop
drop-drop n zero xs = ap (λ k. drop k xs) (omega arith)
drop-drop n (suc m) [] = rw (drop-nil n, drop-nil (suc m + n)) refl
drop-drop n (suc m) (x ∷ xs) =
    let there : drop (suc m + n) (x ∷ xs) ≡ drop (m + n) xs =
      ap (λ k. drop k (x ∷ xs)) {x = suc m + n} {y = suc (m + n)} (omega arith) in
    drop-drop n m xs ∙ sym there

-- The last `n` lines of a log.
unfoldable pub latest : ℕ → List Text → List Text
latest n log = drop (length log - n) log

slice_last-suc : (n : ℕ) (xs : List Text) → slice_last (suc n) xs ≡ latest (suc n) xs
unfolding slice_last latest
slice_last-suc n xs = refl

length-latest : (n : ℕ) (log : List Text) → length (latest n log) ≡ min n (length log)
unfolding latest
length-latest n log = omega (arith, length-drop (length log - n) log)

drop-latest :
    (from : ℕ) (log : List Text)
    → length log - tail_ring_lines ≤ from
    → drop (from - (length log - tail_ring_lines)) (latest tail_ring_lines log) ≡ drop from log
unfolding latest
drop-latest from log h = rw (drop-drop) (ap (λ k. drop k log) (omega arith))

latest-latest : (n m : ℕ) (log : List Text) → latest n (latest m log) ≡ latest (min n m) log
unfolding latest
latest-latest n m log = rw (drop-drop, length-drop) (ap (λ k. drop k log) (omega arith))

-- A ring to which lines are added stays the end of the log.
add_to_ring-latest :
    (log lines : List Text)
    → add_to_ring (latest tail_ring_lines log) lines ≡ latest tail_ring_lines (log ++ lines)
unfolding add_to_ring latest slice_last
add_to_ring-latest log lines =
    let k = length log - tail_ring_lines in
    let all = log ++ lines in
    let same : drop k log ++ lines ≡ drop k all = sym (drop-append k log lines (omega arith)) in
    let size : length all ≡ length log + length lines = length-append log lines in
    let long : length (drop k all) ≡ length all - k = length-drop k all in
    rw (same) (
      if_either (λ (v : List Text). v ≡ latest tail_ring_lines all)
        (ltb tail_ring_lines (length (drop k all))) {x = slice_last tail_ring_lines (drop k all)}
        {y = drop k all}
        (λ e. rw (drop-drop) (ap (λ n. drop n all) (ground (arith, e, size, long))))
        (λ e. ap (λ n. drop n all) (ground (arith, e, size, long))))

abbrev pub Represents : TailEntry → List Text → Type 0
Represents entry log = (entry.ring ≡ latest tail_ring_lines log) × (entry.total ≡ length log)

-- What its source and its clients do to an entry.
pub data EntryEvent : Type 0 where
  published : Sockets → Sockets → List Text → ℕ → EntryEvent
  told : Sockets → TailFrame → EntryEvent
  joined : Held → EntryEvent
  left : ℕ → EntryEvent

abbrev pub react : ℕ → EntryEvent → TailEntry → TailEntry
react cap (published sockets later lines truncated) entry =
    publish cap sockets later lines truncated entry
react cap (told sockets frame) entry = broadcast cap sockets frame entry
react cap (joined held) entry = attach held entry
react cap (left id) entry = leave id entry

unfoldable pub react_all : ℕ → List EntryEvent → TailEntry → TailEntry
react_all cap [] entry = entry
react_all cap (event ∷ events) entry = react_all cap events (react cap event entry)

abbrev pub lines_of : EntryEvent → List Text
lines_of (published _ _ lines _) = lines
lines_of (told _ _) = []
lines_of (joined _) = []
lines_of (left _) = []

-- All the lines that the events publish, one after another.
unfoldable pub published_by : List EntryEvent → List Text
published_by [] = []
published_by (event ∷ events) = lines_of event ++ published_by events

broadcast-Represents :
    (cap : ℕ) (sockets : Sockets) (frame : TailFrame) (entry : TailEntry) (log : List Text)
    → Represents entry log
    → Represents (broadcast cap sockets frame entry) log
unfolding broadcast
broadcast-Represents cap sockets frame entry log h = h

publish-Represents :
    (cap : ℕ) (sockets later : Sockets) (lines : List Text) (truncated : ℕ) (entry : TailEntry)
    (log : List Text)
    → Represents entry log
    → Represents (publish cap sockets later lines truncated entry) (log ++ lines)
unfolding publish broadcast
publish-Represents cap sockets later lines truncated entry log (ring, total) =
    let kept : (add_to_ring entry.ring lines ≡ latest tail_ring_lines (log ++ lines))
        × (entry.total + length lines ≡ length (log ++ lines)) =
      (
        ap (λ r. add_to_ring r lines) ring ∙ add_to_ring-latest log lines,
        rw (total) (sym (length-append log lines)),
      ) in
    if_either (λ (e : TailEntry). Represents e (log ++ lines)) (ltb 0 truncated) (λ _. kept)
      (λ _. kept)

react-Represents :
    (cap : ℕ) (event : EntryEvent) (entry : TailEntry) (log : List Text)
    → Represents entry log
    → Represents (react cap event entry) (log ++ lines_of event)
react-Represents cap (published sockets later lines truncated) entry log h =
    publish-Represents cap sockets later lines truncated entry log h
react-Represents cap (told sockets frame) entry log h =
    rw (append-nil log) (broadcast-Represents cap sockets frame entry log h)
react-Represents cap (joined held) entry log h = rw (append-nil log) h
react-Represents cap (left id) entry log h = rw (append-nil log) h

pub react_all-Represents :
    (cap : ℕ) (events : List EntryEvent) (entry : TailEntry) (log : List Text)
    → Represents entry log
    → Represents (react_all cap events entry) (log ++ published_by events)
unfolding react_all published_by
react_all-Represents cap [] entry log h = rw (append-nil log) h
react_all-Represents cap (event ∷ events) entry log h =
    rw (sym (append_assoc log (lines_of event) (published_by events))) (
      react_all-Represents cap events (react cap event entry) (log ++ lines_of event)
        (react-Represents cap event entry log h))

-- To ask for no lines is to ask for all that are kept.
abbrev pub wanted : ℕ → ℕ
wanted zero = tail_ring_lines
wanted (suc n) = suc n

-- What a client that joins is to be sent, said of all the lines there ever were: with nothing to carry
-- on from the last ones, at most as many as it asks for; else the lines behind the one it had, or
-- those that are still kept, behind the number of those that are not.
unfoldable pub replay_of_log : ℕ → Option ℕ → List Text → Held → Held × Bool
replay_of_log initial none log held =
    (send_lines (latest (min (wanted initial) tail_ring_lines) log) (length log) held, false)
replay_of_log initial (some last) log held =
    let lost = length log - tail_ring_lines in
    if length log == 0
    then (held, false)
    else if leb (length log) (last + 1)
    then (held, true)
    else if ltb (last + 1) lost
    then (
      send_lines (drop lost log) (length log)
          (send (gap_frame (lost - (last + 1)) slow_client) held),
      false,
    )
    else (send_lines (drop (last + 1) log) (length log) held, true)

slice_last-latest :
    (initial : ℕ) (log : List Text)
    → slice_last initial (latest tail_ring_lines log)
      ≡ latest (min (wanted initial) tail_ring_lines) log
unfolding slice_last
slice_last-latest zero log = refl
slice_last-latest (suc n) log =
    slice_last-suc n (latest tail_ring_lines log) ∙ latest-latest (suc n) tail_ring_lines log

replay-latest :
    (initial : ℕ) (last : Option ℕ) (log : List Text) (held : Held)
    → replay initial last (latest tail_ring_lines log) (length log) held
      ≡ replay_of_log initial last log held
unfolding replay replay_of_log latest
replay-latest initial none log held =
    ap (λ ls. (send_lines ls (length log) held, false)) (slice_last-latest initial log)
replay-latest initial (some last) log held =
    let lost = length log - tail_ring_lines in
    let first : length log - length (latest tail_ring_lines log) ≡ lost =
      omega (arith, length-latest tail_ring_lines log) in
    rw (first) (elim (Bool-cases (ltb (last + 1) lost)) [
      | inl e ↦ rw (e) refl
      | inr e ↦ rw (e, drop-latest (last + 1) log (ground (arith, e))) refl
    ])

-- However lines, frames, clients that join and clients that leave follow one another on an entry that
-- begins empty, a client that joins then is sent exactly what `replay_of_log` says of all the lines
-- that were published in that time, and is told that it carries on in just those cases: the ring and
-- the count of the entry stand for the whole log.
pub replay-react_all :
    (cap : ℕ) (events : List EntryEvent) (entry : TailEntry)
    → entry.ring ≡ []
    → entry.total ≡ 0
    → (initial : ℕ) (last : Option ℕ) (held : Held)
    → let now = react_all cap events entry in
      replay initial last now.ring now.total held
      ≡ replay_of_log initial last (published_by events) held
unfolding latest drop
replay-react_all cap events entry ring total initial last held =
    let h : Represents (react_all cap events entry) (published_by events) =
      react_all-Represents cap events entry [] (ring, total) in
    rw (h.0, h.1) (replay-latest initial last (published_by events) held)
