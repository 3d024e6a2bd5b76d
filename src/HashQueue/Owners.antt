-- ===== src/HashQueue/Owners.antt =====
-- Whose jobs a cancellation touches.
use trekker.Prelude.{
  ◌≡◌, refl, sym, ap, Bool, true, false, not, List, [], ◌∷◌, arith, filter, any, if◌then◌else◌,
  if_either, and_true,
}
use trekker.Text.{Text, text_eq}
use trekker.HashQueue.{
  HashJob, RunningJob, HashQueue, CancelledJob, is_job_of, abort_job, drop_job, cancel_job, by_user,
  abort,
}

abbrev pub of_others : Text → HashJob → Bool
of_others user job = not (text_eq job.user_id user)

drop_job-others :
    (user id : Text) (waiting : List HashJob)
    → filter (of_others user) (drop_job user id waiting) ≡ filter (of_others user) waiting
unfolding drop_job
drop_job-others user id [] = refl
drop_job-others user id (j ∷ waiting) =
    if_either (λ l. filter (of_others user) l ≡ filter (of_others user) (j ∷ waiting))
      (is_job_of user id j)
      (λ e. sym (
        mine (of_others user j)
          (ground (arith, (and_true (text_eq j.id id) (text_eq j.user_id user) e).1))))
      (λ _. ap (λ l. if of_others user j then j ∷ l else l) (drop_job-others user id waiting))
  where
    mine :
        (b : Bool)
        → b ≡ false
        → (if b then j ∷ filter (of_others user) waiting else filter (of_others user) waiting)
          ≡ filter (of_others user) waiting
    mine true e = cc
    mine false e = refl

abort_job-others :
    (user id : Text) (running : List RunningJob)
    → filter (λ (r : RunningJob). of_others user r.job) (abort_job user id running)
      ≡ filter (λ (r : RunningJob). of_others user r.job) running
unfolding abort_job
abort_job-others user id [] = refl
abort_job-others user id (r ∷ running) =
    if_either
      (λ l.
        filter (λ (r : RunningJob). of_others user r.job) l
        ≡ filter (λ (r : RunningJob). of_others user r.job) (r ∷ running))
      (is_job_of user id r.job)
      (λ e.
        mine (of_others user r.job)
          (ground (arith, (and_true (text_eq r.job.id id) (text_eq r.job.user_id user) e).1)))
      (λ _. ap (λ l. if of_others user r.job then r ∷ l else l) (abort_job-others user id running))
  where
    rest : List RunningJob
    rest = filter (λ (r : RunningJob). of_others user r.job) running

    mine :
        (b : Bool)
        → b ≡ false
        → (if b then abort by_user r ∷ rest else rest) ≡ (if b then r ∷ rest else rest)
    mine true e = cc
    mine false e = refl

-- A cancellation leaves the jobs of all other users as they are, those that wait and those that run,
-- with the signals they have.
pub cancel_job-others :
    (user id : Text) (q : HashQueue)
    → (filter (of_others user) (cancel_job user id q).0.waiting ≡ filter (of_others user) q.waiting)
      × (filter (λ (r : RunningJob). of_others user r.job) (cancel_job user id q).0.running
          ≡ filter (λ (r : RunningJob). of_others user r.job) q.running)
unfolding cancel_job
cancel_job-others user id q = (
  if_either
      (λ (r : HashQueue × CancelledJob).
        filter (of_others user) r.0.waiting ≡ filter (of_others user) q.waiting)
      (any (λ (r : RunningJob). is_job_of user id r.job) q.running) (λ _. refl)
      (λ _.
        if_either
          (λ (r : HashQueue × CancelledJob).
            filter (of_others user) r.0.waiting ≡ filter (of_others user) q.waiting)
          (any (is_job_of user id) q.waiting) (λ _. drop_job-others user id q.waiting) (λ _. refl)),
  if_either
      (λ (r : HashQueue × CancelledJob).
        filter (λ (r : RunningJob). of_others user r.job) r.0.running
        ≡ filter (λ (r : RunningJob). of_others user r.job) q.running)
      (any (λ (r : RunningJob). is_job_of user id r.job) q.running)
      (λ _. abort_job-others user id q.running)
      (λ _.
        if_either
          (λ (r : HashQueue × CancelledJob).
            filter (λ (r : RunningJob). of_others user r.job) r.0.running
            ≡ filter (λ (r : RunningJob). of_others user r.job) q.running)
          (any (is_job_of user id) q.waiting) (λ _. refl) (λ _. refl)),
)
