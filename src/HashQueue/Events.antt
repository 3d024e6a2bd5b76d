-- ===== src/HashQueue/Events.antt =====
-- The events of the queue, in any order, and what holds after them.
use trekker.Prelude.{
  ℕ, suc, ◌≤◌, ◌<◌, ◌≡◌, refl, ap, inl, inr, ◌⊎◌, true, false, not, none, List, [], ◌∷◌, ◌++◌,
  arith, map, any, ltb, length, if_either, length-filter,
}
use trekker.Text.{Text, text_eq}
use trekker.HashQueue.{
  HashJob, RunningJob, HashQueue, CancelledJob, no_jobs, start_job, pump_jobs, pump_queue,
  enqueue_job, is_job_of, abort_job, drop_job, cancel_job, finish_job, stop_all, by_shutdown, abort,
}

-- No more jobs run than may, none waits while one more could run, and none waits once the queue stops.
abbrev pub IsBusy : ℕ → HashQueue → Type 0
IsBusy limit q =
    (length q.running ≤ limit)
    × ((q.waiting ≡ []) ⊎ (limit ≤ length q.running))
    × ((q.stopping ≡ false) ⊎ (q.waiting ≡ []))

length-start_job :
    (job : HashJob) (running : List RunningJob)
    → length (start_job job running) ≤ suc (length running)
unfolding start_job
length-start_job job [] = omega arith
length-start_job job (r ∷ running) =
    if_either (λ (l : List RunningJob). length l ≤ suc (suc (length running)))
      (text_eq r.job.id job.id) {x = record { job = job; signal = none } ∷ running}
      {y = r ∷ start_job job running} (λ _. omega arith)
      (λ _. omega (arith, length-start_job job running))

abbrev IsFull : ℕ → List HashJob × List RunningJob → Type 0
IsFull limit p = (length p.1 ≤ limit) × ((p.0 ≡ []) ⊎ (limit ≤ length p.1))

pump_jobs-IsFull :
    (limit : ℕ) (waiting : List HashJob) (running : List RunningJob)
    → length running ≤ limit
    → IsFull limit (pump_jobs limit waiting running)
unfolding pump_jobs
pump_jobs-IsFull limit [] running h = (h, inl refl)
pump_jobs-IsFull limit (job ∷ waiting) running h =
    if_either (IsFull limit) (ltb (length running) limit)
      (λ e.
        let room : length running < limit = ground (arith, e) in
        pump_jobs-IsFull limit waiting (start_job job running)
          (omega (arith, room, length-start_job job running)))
      (λ e. (h, inr (ground (arith, e))))

pump_queue-IsBusy :
    (limit : ℕ) (q : HashQueue)
    → length q.running ≤ limit
    → ((q.stopping ≡ false) ⊎ (q.waiting ≡ []))
    → IsBusy limit (pump_queue limit q)
unfolding pump_queue
pump_queue-IsBusy limit q h s =
    if_either (IsBusy limit) q.stopping (λ e. (h, inl (stopped_empty e s), s))
      (λ e. let f = pump_jobs-IsFull limit q.waiting q.running h in (f.0, f.1, inl e))
  where
    stopped_empty : q.stopping ≡ true → ((q.stopping ≡ false) ⊎ (q.waiting ≡ [])) → q.waiting ≡ []
    stopped_empty e (inl f) = absurd (cc (e, f))
    stopped_empty e (inr w) = w

length-abort_job :
    (user id : Text) (running : List RunningJob)
    → length (abort_job user id running) ≡ length running
unfolding abort_job
length-abort_job user id [] = refl
length-abort_job user id (r ∷ running) =
    if_either (λ (l : List RunningJob). length l ≡ suc (length running)) (is_job_of user id r.job)
      (λ _. refl) (λ _. ap suc (length-abort_job user id running))

drop_job-nil :
    (user id : Text) (waiting : List HashJob) → waiting ≡ [] → drop_job user id waiting ≡ []
unfolding drop_job
drop_job-nil user id [] h = refl
drop_job-nil user id (j ∷ waiting) h = cc

length-map-abort :
    (running : List RunningJob) → length (map (abort by_shutdown) running) ≡ length running
length-map-abort [] = refl
length-map-abort (r ∷ running) = ap suc (length-map-abort running)

enqueue_job-IsBusy :
    (limit : ℕ) (job : HashJob) (q : HashQueue)
    → IsBusy limit q
    → IsBusy limit (enqueue_job limit job q).0
unfolding enqueue_job
enqueue_job-IsBusy limit job q h =
    if_either (λ (r : HashQueue × _). IsBusy limit r.0) q.stopping (λ _. h)
      (λ e. pump_queue-IsBusy limit (record q { waiting = q.waiting ++ (job ∷ []) }) h.0 (inl e))

cancel_job-IsBusy :
    (limit : ℕ) (user id : Text) (q : HashQueue)
    → IsBusy limit q
    → IsBusy limit (cancel_job user id q).0
unfolding cancel_job
cancel_job-IsBusy limit user id q h =
    if_either (λ (r : HashQueue × CancelledJob). IsBusy limit r.0)
      (any (λ (r : RunningJob). is_job_of user id r.job) q.running)
      (λ _. rw (length-abort_job user id q.running) h)
      (λ _.
        if_either (λ (r : HashQueue × CancelledJob). IsBusy limit r.0)
          (any (is_job_of user id) q.waiting) (λ _. (h.0, still h.1, unless_stopped h.2)) (λ _. h))
  where
    still :
        ((q.waiting ≡ []) ⊎ (limit ≤ length q.running))
        → (drop_job user id q.waiting ≡ []) ⊎ (limit ≤ length q.running)
    still (inl e) = inl (drop_job-nil user id q.waiting e)
    still (inr l) = inr l

    unless_stopped :
        ((q.stopping ≡ false) ⊎ (q.waiting ≡ []))
        → (q.stopping ≡ false) ⊎ (drop_job user id q.waiting ≡ [])
    unless_stopped (inl e) = inl e
    unless_stopped (inr e) = inr (drop_job-nil user id q.waiting e)

finish_job-IsBusy :
    (limit : ℕ) (id : Text) (q : HashQueue) → IsBusy limit q → IsBusy limit (finish_job limit id q)
unfolding finish_job
finish_job-IsBusy limit id q h =
    let shorter = length-filter (λ (r : RunningJob). not (text_eq r.job.id id)) q.running in
    pump_queue-IsBusy limit _ (omega (arith, shorter, h.0)) h.2

stop_all-IsBusy : (limit : ℕ) (q : HashQueue) → IsBusy limit q → IsBusy limit (stop_all q)
unfolding stop_all
stop_all-IsBusy limit q h = (omega (arith, length-map-abort q.running, h.0), inl refl, inr refl)

module _ (limit : ℕ) where
  -- One event: a request, the end of a job, or the shutdown.
  pub data Event : HashQueue → HashQueue → Type 0 where
    enqueued : (job : HashJob) (q : HashQueue) → Event q (enqueue_job limit job q).0
    cancelled : (user id : Text) (q : HashQueue) → Event q (cancel_job user id q).0
    finished : (id : Text) (q : HashQueue) → Event q (finish_job limit id q)
    stopped : (q : HashQueue) → Event q (stop_all q)

  pub data Run : HashQueue → HashQueue → Type 0 where
    here : {q : HashQueue} → Run q q
    next : {q r s : HashQueue} → Run q r → Event r s → Run q s

  Event-IsBusy : {q r : HashQueue} → Event q r → IsBusy limit q → IsBusy limit r
  Event-IsBusy (enqueued job q) h = enqueue_job-IsBusy limit job q h
  Event-IsBusy (cancelled user id q) h = cancel_job-IsBusy limit user id q h
  Event-IsBusy (finished id q) h = finish_job-IsBusy limit id q h
  Event-IsBusy (stopped q) h = stop_all-IsBusy limit q h

  -- After any events at most `limit` jobs run, none waits while one more could run, and none waits
  -- once the queue has stopped.
  pub Run-IsBusy : {q : HashQueue} → Run no_jobs q → IsBusy limit q
  Run-IsBusy here = (omega arith, inl refl, inr refl)
  Run-IsBusy (next r e) = Event-IsBusy e (Run-IsBusy r)
