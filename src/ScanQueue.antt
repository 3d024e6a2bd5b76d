-- ===== src/ScanQueue.antt =====
-- nest-api/src/scans/scan-queue.service.ts: the scans that wait and run. What a runner does is left out
-- but for its end, which `end_scan` is.
pub mod Pump
pub mod Events
mod Tests
use trekker.Prelude.{
  ℕ, zero, suc, ◌+◌, Bool, true, false, not, Option, none, some, List, [], ◌∷◌, ◌++◌, map,
  if◌then◌else◌, ltb, length, any, filter,
}
use trekker.Text.{Text, text_eq}

pub data Cancellation : Type 0 where
  cancelled_by_user cancelled_by_shutdown : Cancellation

pub record QueuedScan : Type 0 where
  pub id : Text
  pub host_id : Text
  pub user_id : Text
  pub root : Text
  pub real_path : Text
  pub depth : ℕ

-- `aborted` is the reason that the controller was aborted with.
pub record RunningScan : Type 0 where
  pub scan_id : Text
  pub host_id : Text
  pub aborted : Option Cancellation

-- The running map, in the order of its keys, which are the hosts.
pub record ScanQueue : Type 0 where
  pub running : List RunningScan
  pub waiting : List QueuedScan
  pub stopping : Bool

abbrev pub no_scans : ScanQueue
no_scans = record { running = []; waiting = []; stopping = false }

unfoldable pub is_running : Text → List RunningScan → Bool
unfolding text_eq
is_running host running = any (λ (r : RunningScan). text_eq r.host_id host) running

-- `running.set`: a scan of the same host is replaced in its place.
unfoldable pub start : QueuedScan → List RunningScan → List RunningScan
unfolding text_eq
start scan [] = record { scan_id = scan.id; host_id = scan.host_id; aborted = none } ∷ []
start scan (r ∷ running) =
    let rest = start scan running in
    if text_eq r.host_id scan.host_id
    then record { scan_id = scan.id; host_id = scan.host_id; aborted = none } ∷ running
    else r ∷ rest

-- The first scan whose host is free, and the line without it.
unfoldable pub next_scan :
    List RunningScan → List QueuedScan → Option (QueuedScan × List QueuedScan)
unfolding is_running
next_scan running [] = none
next_scan running (scan ∷ waiting) =
    let later = next_scan running waiting in
    if is_running scan.host_id running
    then elim later [ none ↦ none | some (found, left) ↦ some (found, scan ∷ left) ]
    else some (scan, waiting)

-- The loop of `pump`; `limit` is MAX_SCANS_IN_FLIGHT. Each round starts a scan, so a unit of fuel for each that waits is enough.
unfoldable pub pump_scans :
    ℕ → ℕ → List RunningScan → List QueuedScan → List RunningScan × List QueuedScan
unfolding next_scan start
pump_scans limit zero running waiting = (running, waiting)
pump_scans limit (suc fuel) running waiting = elim (next_scan running waiting) [
  | none ↦ (running, waiting)
  | some (scan, left) ↦
      let more = pump_scans limit fuel (start scan running) left in
      if ltb (length running) limit then more else (running, waiting)
]

unfoldable pub pump : ℕ → ScanQueue → ScanQueue
unfolding pump_scans
pump limit q =
    let (running, waiting) = pump_scans limit (length q.waiting) q.running q.waiting in
    if q.stopping then q else record q { running = running; waiting = waiting }

unfoldable pub enqueue : ℕ → QueuedScan → ScanQueue → ScanQueue
unfolding pump
enqueue limit scan q =
    let pumped = pump limit (record q { waiting = q.waiting ++ (scan ∷ []) }) in
    if q.stopping then q else pumped

pub data Cancelled : Type 0 where
  was_running was_waiting unknown : Cancelled

-- A controller keeps the first reason it was aborted with.
abbrev pub abort : Cancellation → RunningScan → RunningScan
abort reason r = record r {
  aborted = elim r.aborted [ none ↦ some reason | some first ↦ some first ];
}

unfoldable pub abort_scan : Text → List RunningScan → List RunningScan
unfolding text_eq
abort_scan id [] = []
abort_scan id (r ∷ running) =
    let rest = abort_scan id running in
    if text_eq r.scan_id id then abort cancelled_by_user r ∷ running else r ∷ rest

unfoldable pub drop_scan : Text → List QueuedScan → List QueuedScan
unfolding text_eq
drop_scan id [] = []
drop_scan id (scan ∷ waiting) =
    let rest = drop_scan id waiting in if text_eq scan.id id then waiting else scan ∷ rest

unfoldable pub cancel : Text → ScanQueue → ScanQueue × Cancelled
unfolding abort_scan drop_scan text_eq
cancel id q =
    if any (λ (r : RunningScan). text_eq r.scan_id id) q.running
    then (record q { running = abort_scan id q.running }, was_running)
    else if any (λ (s : QueuedScan). text_eq s.id id) q.waiting
    then (record q { waiting = drop_scan id q.waiting }, was_waiting)
    else (q, unknown)

-- What follows the end of a runner: its host leaves the map, and the queue is pumped.
unfoldable pub end_scan : ℕ → Text → ScanQueue → ScanQueue
unfolding pump text_eq
end_scan limit host q =
    pump limit
      (record q { running = filter (λ (r : RunningScan). not (text_eq r.host_id host)) q.running })

unfoldable pub shut_down : ScanQueue → ScanQueue
shut_down q = record {
  running = map (abort cancelled_by_shutdown) q.running;
  waiting = [];
  stopping = true;
}
