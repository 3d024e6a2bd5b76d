-- ===== src/TransferQueue.antt =====
-- nest-api/src/transfers/transfer-queue.service.ts: which transfers run, and which wait. The runner
-- is not modelled: that it is done with a job is the event `finish`. The counters of the two limits
-- are those of `maxInFlight` and `maxPerHost`.
pub mod Pump
pub mod Invariant
pub mod Events
pub mod Requests
mod Tests
use trekker.Prelude.{
  ℕ, zero, suc, ◌+◌, Bool, true, false, not, ◌&&◌, ◌||◌, Option, none, some, List, [], ◌∷◌, ◌++◌,
  map, if◌then◌else◌, ltb, leb, length, any, filter,
}
use trekker.Text.{Text, text_eq, member}

-- `Number.parseInt` of an environment variable.
pub data Parsed : Type 0 where
  nan negative : Parsed
  natural : ℕ → Parsed

unfoldable pub limit_or : ℕ → Parsed → ℕ
limit_or standard (natural n) = if ltb n 1 then standard else n
limit_or standard _ = standard

unfoldable pub max_in_flight : Parsed → ℕ
unfolding limit_or
max_in_flight = limit_or 3

unfoldable pub max_per_host : Parsed → ℕ
unfolding limit_or
max_per_host = limit_or 2

pub record Limits : Type 0 where
  pub in_flight : ℕ
  pub per_host : ℕ

pub record Waiting : Type 0 where
  pub id : Text
  pub hosts : List Text

pub data Reason : Type 0 where
  by_user by_shutdown : Reason

-- An entry of the map `running`; `signal` is why its controller was aborted, if it was.
pub record Running : Type 0 where
  pub id : Text
  pub hosts : List Text
  pub signal : Option Reason

pub record Queue : Type 0 where
  pub waiting : List Waiting
  pub running : List Running
  pub stopping : Bool

abbrev pub init : Queue
init = record { waiting = []; running = []; stopping = false }

abbrev pub waiting_ids : List Waiting → List Text
waiting_ids = map (λ (w : Waiting). w.id)

abbrev pub running_ids : List Running → List Text
running_ids = map (λ (r : Running). r.id)

-- `Map.prototype.set`
unfoldable pub put_running : Running → List Running → List Running
put_running r [] = r ∷ []
put_running r (s ∷ rs) = if text_eq s.id r.id then r ∷ rs else s ∷ put_running r rs

unfoldable pub count_on : Text → List Running → ℕ
count_on host [] = 0
count_on host (r ∷ rs) = (if member host r.hosts then 1 else 0) + count_on host rs

-- Whether a host of the job carries as many jobs as it may.
unfoldable pub blocked : Limits → List Running → Waiting → Bool
unfolding count_on
blocked limits running job = any (λ host. leb limits.per_host (count_on host running)) job.hosts

unfoldable pub start : Waiting → List Running → List Running
unfolding put_running
start job running = put_running (record { id = job.id; hosts = job.hosts; signal = none }) running

abbrev pub keep : Waiting → List Waiting × List Running → List Waiting × List Running
keep job (waiting, running) = (job ∷ waiting, running)

-- The loop of `pump`, from `index` on.
unfoldable pub pump_from : Limits → List Waiting → List Running → List Waiting × List Running
unfolding blocked start
pump_from limits [] running = ([], running)
pump_from limits (job ∷ rest) running =
    let skipped = keep job (pump_from limits rest running) in
    let started = pump_from limits rest (start job running) in
    if ltb (length running) limits.in_flight
    then (if blocked limits running job then skipped else started)
    else (job ∷ rest, running)

abbrev pub with_jobs : Queue → List Waiting × List Running → Queue
with_jobs q (waiting, running) = record q { waiting = waiting; running = running }

unfoldable pub pump : Limits → Queue → Queue
unfolding pump_from
pump limits q = if q.stopping then q else with_jobs q (pump_from limits q.waiting q.running)

-- `hosts.filter((host) => host !== null)`
abbrev pub present : List (Option Text) → List Text
present [] = []
present (none ∷ hosts) = present hosts
present (some host ∷ hosts) = host ∷ present hosts

unfoldable pub enqueue : Limits → Text → List (Option Text) → Queue → Queue
unfolding pump
enqueue limits id hosts q =
    if q.stopping
    then q
    else if member id (running_ids q.running) || member id (waiting_ids q.waiting)
    then q
    else pump limits
        (record q { waiting = q.waiting ++ record { id = id; hosts = present hosts } ∷ [] })

pub data Cancelled : Type 0 where
  running waiting unknown : Cancelled

-- The first reason given to a controller stays.
abbrev pub aborted : Reason → Running → Running
aborted reason r = elim r.signal [ none ↦ record r { signal = some reason } | some _ ↦ r ]

unfoldable pub abort_id : Text → List Running → List Running
abort_id id [] = []
abort_id id (r ∷ rs) = if text_eq r.id id then aborted Reason.by_user r ∷ rs else r ∷ abort_id id rs

-- The first waiting entry with this identifier is spliced out.
unfoldable pub splice_id : Text → List Waiting → List Waiting
splice_id id [] = []
splice_id id (w ∷ ws) = if text_eq w.id id then ws else w ∷ splice_id id ws

unfoldable pub cancel : Text → Queue → Queue × Cancelled
unfolding abort_id splice_id
cancel id q =
    if member id (running_ids q.running)
    then (record q { running = abort_id id q.running }, Cancelled.running)
    else if member id (waiting_ids q.waiting)
    then (record q { waiting = splice_id id q.waiting }, Cancelled.waiting)
    else (q, unknown)

-- The `finally` of `start`: the entry is deleted, and the queue pumps.
unfoldable pub delete_running : Text → List Running → List Running
delete_running id = filter (λ (r : Running). not (text_eq r.id id))

unfoldable pub finish : Limits → Text → Queue → Queue
unfolding pump delete_running
finish limits id q = pump limits (record q { running = delete_running id q.running })

unfoldable pub shut_down : Queue → Queue
shut_down q = record q {
  waiting = [];
  running = map (aborted Reason.by_shutdown) q.running;
  stopping = true;
}

-- What boot does with the jobs that the database holds as running or queued, oldest first.
pub record Stranded : Type 0 where
  pub id : Text
  pub src_host : Option Text
  pub dst_host : Option Text

unfoldable pub reclaim : Limits → List Stranded → Queue → Queue
unfolding enqueue
reclaim limits [] q = q
reclaim limits (job ∷ jobs) q =
    reclaim limits jobs (enqueue limits job.id (job.src_host ∷ job.dst_host ∷ []) q)
