-- ===== src/HashQueue.antt =====
-- nest-api/src/hashes/hash-queue.service.ts: the checksum jobs that wait and run. What a runner does is
-- left out but for its end, which `finish` is.
pub mod Events
pub mod Owners
mod Tests
use trekker.Prelude.{
  ℕ, zero, suc, ◌+◌, Bool, true, false, not, ◌&&◌, ◌||◌, Option, none, some, List, [], ◌∷◌, ◌++◌,
  map, if◌then◌else◌, ltb, length, any, filter,
}
use trekker.Text.{Text, text_eq, member}

pub record HashJob : Type 0 where
  pub id : Text
  pub user_id : Text
  pub host_id : Text
  pub targets : List Text
  pub bytes_total : ℕ

pub data Signal : Type 0 where
  by_user by_shutdown : Signal

pub record RunningJob : Type 0 where
  pub job : HashJob
  pub signal : Option Signal

pub record HashQueue : Type 0 where
  pub waiting : List HashJob
  pub running : List RunningJob
  pub stopping : Bool

pub record QueuedView : Type 0 where
  pub id : Text
  pub host_id : Text
  pub files : ℕ
  pub bytes_total : ℕ
  pub queued : Bool

unfoldable pub view_of : HashJob → Bool → QueuedView
view_of job queued = record {
  id = job.id;
  host_id = job.host_id;
  files = length job.targets;
  bytes_total = job.bytes_total;
  queued = queued;
}

abbrev pub no_jobs : HashQueue
no_jobs = record { waiting = []; running = []; stopping = false }

-- `running.set`: a job of the same id is replaced in its place.
unfoldable pub start_job : HashJob → List RunningJob → List RunningJob
unfolding text_eq
start_job job [] = record { job = job; signal = none } ∷ []
start_job job (r ∷ running) =
    let rest = start_job job running in
    if text_eq r.job.id job.id then record { job = job; signal = none } ∷ running else r ∷ rest

unfoldable pub pump_jobs : ℕ → List HashJob → List RunningJob → List HashJob × List RunningJob
unfolding start_job
pump_jobs limit [] running = ([], running)
pump_jobs limit (job ∷ rest) running =
    let started = pump_jobs limit rest (start_job job running) in
    if ltb (length running) limit then started else (job ∷ rest, running)

abbrev pub with_pumped : HashQueue → List HashJob × List RunningJob → HashQueue
with_pumped q (waiting, running) = record q { waiting = waiting; running = running }

unfoldable pub pump_queue : ℕ → HashQueue → HashQueue
unfolding pump_jobs
pump_queue limit q = if q.stopping then q else with_pumped q (pump_jobs limit q.waiting q.running)

unfoldable pub is_running : Text → List RunningJob → Bool
unfolding text_eq
is_running id running = any (λ (r : RunningJob). text_eq r.job.id id) running

unfoldable pub enqueue_job : ℕ → HashJob → HashQueue → HashQueue × QueuedView
unfolding pump_queue is_running view_of
enqueue_job limit job q =
    let pumped = pump_queue limit (record q { waiting = q.waiting ++ (job ∷ []) }) in
    if q.stopping
    then (q, view_of job true)
    else (pumped, view_of job (not (is_running job.id pumped.running)))

pub data CancelledJob : Type 0 where
  was_running was_waiting unknown : CancelledJob

abbrev pub is_job_of : Text → Text → HashJob → Bool
is_job_of user id job = text_eq job.id id && text_eq job.user_id user

abbrev pub or_first : Option Signal → Signal → Signal
or_first none signal = signal
or_first (some first) signal = first

-- A controller keeps the first signal it was aborted with.
abbrev pub abort : Signal → RunningJob → RunningJob
abort signal r = record r { signal = some (or_first r.signal signal) }

-- Aborts the running job of the id, if it is the user's.
unfoldable pub abort_job : Text → Text → List RunningJob → List RunningJob
unfolding text_eq
abort_job user id [] = []
abort_job user id (r ∷ running) =
    let rest = abort_job user id running in
    if is_job_of user id r.job then abort by_user r ∷ running else r ∷ rest

-- Takes the first waiting job of the id and the user out of the line.
unfoldable pub drop_job : Text → Text → List HashJob → List HashJob
unfolding text_eq
drop_job user id [] = []
drop_job user id (job ∷ waiting) =
    let rest = drop_job user id waiting in if is_job_of user id job then waiting else job ∷ rest

unfoldable pub cancel_job : Text → Text → HashQueue → HashQueue × CancelledJob
unfolding abort_job drop_job text_eq
cancel_job user id q =
    if any (λ (r : RunningJob). is_job_of user id r.job) q.running
    then (record q { running = abort_job user id q.running }, was_running)
    else if any (is_job_of user id) q.waiting
    then (record q { waiting = drop_job user id q.waiting }, was_waiting)
    else (q, unknown)

unfoldable pub matches : Text → Text → Text → HashJob → Bool
unfolding text_eq member
matches user host path job =
    text_eq job.user_id user && text_eq job.host_id host && member path job.targets

unfoldable pub first_match : Text → Text → Text → Bool → List HashJob → Option QueuedView
unfolding matches view_of
first_match user host path queued [] = none
first_match user host path queued (job ∷ jobs) =
    let rest = first_match user host path queued jobs in
    if matches user host path job then some (view_of job queued) else rest

unfoldable pub covering : Text → Text → Text → HashQueue → Option QueuedView
unfolding first_match
covering user host path q =
    elim (first_match user host path false (map (λ (r : RunningJob). r.job) q.running)) [
      | some view ↦ some view
      | none ↦ first_match user host path true q.waiting
    ]

-- What happens when a runner has ended: its job leaves the map, and the queue is pumped.
unfoldable pub finish_job : ℕ → Text → HashQueue → HashQueue
unfolding pump_queue text_eq
finish_job limit id q =
    pump_queue limit
      (record q { running = filter (λ (r : RunningJob). not (text_eq r.job.id id)) q.running })

unfoldable pub stop_all : HashQueue → HashQueue
stop_all q = record { waiting = []; running = map (abort by_shutdown) q.running; stopping = true }
