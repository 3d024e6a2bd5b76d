-- ===== src/HashQueue/Tests.antt =====
-- A queue that runs one job at a time.
use trekker.Prelude.{◌≡◌, refl, true, some, [], ◌∷◌, map}
use trekker.Text.{Text, codes, text_eq, member}
use trekker.HashQueue.{
  HashJob, RunningJob, HashQueue, no_jobs, start_job, pump_jobs, pump_queue, view_of, enqueue_job,
  cancel_job, unknown, finish_job, covering, first_match, matches,
}

abbrev job_of : Text → Text → HashJob
job_of user id = record {
  id = id;
  user_id = user;
  host_id = codes "h";
  targets = codes "/f" ∷ [];
  bytes_total = 4;
}

abbrev one_waits : HashQueue
one_waits =
    (enqueue_job 1 (job_of (codes "v") (codes "b"))
      (enqueue_job 1 (job_of (codes "u") (codes "a")) no_jobs).0).0

ends_in_order :
    map (λ (r : RunningJob). r.job.id) (finish_job 1 (codes "a") one_waits).running ≡ codes "b" ∷ []
unfolding enqueue_job finish_job pump_queue pump_jobs start_job text_eq
ends_in_order = refl

not_mine : (cancel_job (codes "u") (codes "b") one_waits).1 ≡ unknown
unfolding enqueue_job pump_queue pump_jobs start_job text_eq cancel_job
not_mine = refl

covered :
    covering (codes "v") (codes "h") (codes "/f") one_waits
    ≡ some (view_of (job_of (codes "v") (codes "b")) true)
unfolding enqueue_job pump_queue pump_jobs start_job text_eq covering first_match matches member
covered = refl
