-- ===== src/TailRegistry/Entry.antt =====
-- nest-api/src/fs/tail-registry.service.ts: one followed file, its subscribers and the ring of its last
-- lines. A subscriber is what was sent to it; how its socket answers during a call is an argument.
use trekker.Prelude.{
  ℕ, zero, suc, ◌+◌, ◌-◌, Bool, true, false, not, Option, none, some, List, [], ◌∷◌, ◌++◌, map,
  if◌then◌else◌, ltb, leb, ◌==◌, length, filter,
}
use trekker.Text.{Text}

abbrev pub tail_ring_lines : ℕ
tail_ring_lines = 2000

pub data GapReason : Type 0 where
  slow_client truncated_line : GapReason

-- An index of a line; the index before the first one is `minus_one`.
pub data LineIndex : Type 0 where
  minus_one : LineIndex
  at : ℕ → LineIndex

-- `total - 1`
abbrev pub last_index : ℕ → LineIndex
last_index zero = minus_one
last_index (suc n) = at n

-- The frames that the registry writes, by their event; `ready` is the controller's.
pub data TailFrame : Type 0 where
  lines_frame : List Text → LineIndex → TailFrame
  gap_frame : ℕ → GapReason → TailFrame
  rotated_frame : ℕ → TailFrame
  error_frame : Text → Bool → TailFrame

abbrev pub count_of : TailFrame → ℕ
count_of (lines_frame lines _) = length lines
count_of (gap_frame _ _) = 1
count_of (rotated_frame _) = 1
count_of (error_frame _ _) = 1

pub record Held : Type 0 where
  pub id : ℕ
  pub sent : List TailFrame
  pub dropped : ℕ
  pub wants_gap : Bool

-- A socket during one call: whether it answers at all, the bytes queued in it, and the writes that it
-- takes before one of them throws.
pub record Socket : Type 0 where
  pub answers : Bool
  pub buffered : ℕ
  pub writes : ℕ

pub data SourceKind : Type 0 where
  by_tail by_poll : SourceKind

pub data CloseReason : Type 0 where
  last_subscriber by_shutdown : CloseReason

-- `stopped` is the reason with which the controller was aborted.
pub record TailEntry : Type 0 where
  pub key : Text
  pub host_id : Text
  pub real_path : Text
  pub source : SourceKind
  pub stopped : Option CloseReason
  pub subscribers : List Held
  pub ring : List Text
  pub total : ℕ
  pub reaper : Option ℕ

abbrev pub send : TailFrame → Held → Held
send frame held = record held { sent = held.sent ++ (frame ∷ []) }

-- A write that throws leaves the subscriber as it is.
abbrev pub write : ℕ → TailFrame → Held → Held
write zero frame held = held
write (suc _) frame held = send frame held

-- The gap is told before the frame, and only then is what was dropped forgotten.
abbrev pub recover : ℕ → TailFrame → Held → Held
recover zero frame held = held
recover (suc writes) frame held =
    write writes frame
      (record (send (gap_frame held.dropped slow_client) held) { dropped = 0; wants_gap = false })

-- The body of the loop of `broadcast`.
unfoldable pub offer : ℕ → Socket → TailFrame → Held → Held
offer cap socket frame held =
    if not socket.answers
    then held
    else if ltb cap socket.buffered
    then record held { dropped = held.dropped + count_of frame; wants_gap = true }
    else if held.wants_gap
    then recover socket.writes frame held
    else write socket.writes frame held

abbrev pub Sockets : Type 0
Sockets = ℕ → Socket

unfoldable pub broadcast : ℕ → Sockets → TailFrame → TailEntry → TailEntry
unfolding offer
broadcast cap sockets frame entry = record entry {
  subscribers = map (λ (h : Held). offer cap (sockets h.id) frame h) entry.subscribers;
}

abbrev pub attach : Held → TailEntry → TailEntry
attach held entry = record entry { reaper = none; subscribers = entry.subscribers ++ (held ∷ []) }

abbrev pub leave : ℕ → TailEntry → TailEntry
leave id entry = record entry {
  subscribers = filter (λ (h : Held). not (h.id == id)) entry.subscribers;
}

unfoldable pub drop : ℕ → List Text → List Text
drop zero xs = xs
drop (suc n) [] = []
drop (suc n) (x ∷ xs) = drop n xs

-- `slice(-n)`; a count of zero is no count from the end.
unfoldable pub slice_last : ℕ → List Text → List Text
unfolding drop
slice_last zero xs = xs
slice_last (suc n) xs = drop (length xs - suc n) xs

unfoldable pub add_to_ring : List Text → List Text → List Text
unfolding slice_last
add_to_ring ring lines =
    let longer = ring ++ lines in
    if ltb tail_ring_lines (length longer) then slice_last tail_ring_lines longer else longer

-- The ring first, then the lines to all, then what was cut short in them. The two broadcasts find the
-- sockets as `sockets` and as `later`.
unfoldable pub publish : ℕ → Sockets → Sockets → List Text → ℕ → TailEntry → TailEntry
unfolding add_to_ring broadcast
publish cap sockets later lines truncated entry =
    let total = entry.total + length lines in
    let kept = record entry { ring = add_to_ring entry.ring lines; total = total } in
    let told = broadcast cap sockets (lines_frame lines (last_index total)) kept in
    if ltb 0 truncated then broadcast cap later (gap_frame truncated truncated_line) told else told

-- Lines are sent when there are any.
abbrev pub send_lines : List Text → ℕ → Held → Held
send_lines [] total held = held
send_lines (l ∷ ls) total held = send (lines_frame (l ∷ ls) (last_index total)) held

-- What a client that joins is sent from the ring, and whether it carries on from where it left off.
unfoldable pub replay : ℕ → Option ℕ → List Text → ℕ → Held → Held × Bool
unfolding drop slice_last
replay initial none ring total held = (send_lines (slice_last initial ring) total held, false)
replay initial (some last) ring total held =
    let first = total - length ring in
    let from = last + 1 in
    if total == 0
    then (held, false)
    else if leb total from
    then (held, true)
    else if ltb from first
    then (send_lines ring total (send (gap_frame (first - from) slow_client) held), false)
    else (send_lines (drop (from - first) ring) total held, true)
