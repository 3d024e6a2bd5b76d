-- ===== src/TransferQueue/Events.antt =====
-- Cancelling, shutting down, and what holds after any events.
use trekker.Prelude.{
  ◌≡◌, refl, sym, ◌∙◌, subst, inl, inr, true, Option, List, [], ◌∷◌, ◌++◌, map, arith, length, All,
  Option-cases, or_false, if_either,
}
use trekker.Text.{Text, text_eq, member}
use trekker.TransferQueue.{
  Limits, Waiting, Running, Reason, Queue, init, waiting_ids, running_ids, count_on, blocked,
  enqueue, aborted, abort_id, splice_id, cancel, finish, shut_down, Cancelled,
}
use trekker.Text.Unique.{IsFresh, AreUnique, member-append}
use trekker.TransferQueue.Pump.{Fits, blocked_mono}
use trekker.TransferQueue.Invariant.{IsValid, enqueue-IsValid, finish-IsValid}

-- Two lists of running jobs that differ in their signals only.
record SameJobs (rs rs' : List Running) : Type 0 where
  pub ids : running_ids rs ≡ running_ids rs'
  pub counts : (host : Text) → count_on host rs ≡ count_on host rs'
  pub sizes : length rs ≡ length rs'

SameJobs-cons :
    (r s : Running) (rs rs' : List Running)
    → r.id ≡ s.id
    → r.hosts ≡ s.hosts
    → SameJobs rs rs'
    → SameJobs (r ∷ rs) (s ∷ rs')
unfolding count_on
SameJobs-cons r s rs rs' i h same = record {
  ids = cc (i, same.ids);
  counts = λ host. cc (h, same.counts host);
  sizes = omega (arith, same.sizes);
}

aborted_same :
    (reason : Reason) (r : Running)
    → (r.id ≡ (aborted reason r).id) × (r.hosts ≡ (aborted reason r).hosts)
aborted_same reason r = elim (Option-cases r.signal) [
  | inl e ↦ (ground (arith, e), ground (arith, e))
  | inr (a, e) ↦ (ground (arith, e), ground (arith, e))
]

SameJobs-refl : (rs : List Running) → SameJobs rs rs
SameJobs-refl rs = record { ids = refl; counts = λ host. refl; sizes = refl }

abort_id-SameJobs : (id : Text) (rs : List Running) → SameJobs rs (abort_id id rs)
unfolding abort_id
abort_id-SameJobs id [] = SameJobs-refl []
abort_id-SameJobs id (r ∷ rs) =
    let (i, h) = aborted_same Reason.by_user r in
    if_either (SameJobs (r ∷ rs)) (text_eq r.id id)
      (λ e. SameJobs-cons r (aborted Reason.by_user r) rs rs i h (SameJobs-refl rs))
      (λ e. SameJobs-cons r r rs (abort_id id rs) refl refl (abort_id-SameJobs id rs))

map-aborted-SameJobs : (reason : Reason) (rs : List Running) → SameJobs rs (map (aborted reason) rs)
map-aborted-SameJobs reason [] = SameJobs-refl []
map-aborted-SameJobs reason (r ∷ rs) =
    let (i, h) = aborted_same reason r in
    SameJobs-cons r (aborted reason r) rs (map (aborted reason) rs) i h
      (map-aborted-SameJobs reason rs)

Fits-SameJobs :
    (limits : Limits) (rs rs' : List Running) → SameJobs rs rs' → Fits limits rs → Fits limits rs'
Fits-SameJobs limits rs rs' same f = record {
  in_flight = omega (arith, same.sizes, f.in_flight);
  per_host = λ host. omega (arith, same.counts host, f.per_host host);
}

All-blocked :
    (limits : Limits) (rs rs' : List Running) (ws : List Waiting)
    → SameJobs rs rs'
    → All (λ w. blocked limits rs w ≡ true) ws
    → All (λ w. blocked limits rs' w ≡ true) ws
All-blocked limits rs rs' [] same h = tt
All-blocked limits rs rs' (w ∷ ws) same h = (
  blocked_mono limits rs rs' w (λ host. omega (arith, same.counts host)) h.0,
  All-blocked limits rs rs' ws same h.1,
)

-- Taking a job out of the line.
module _ (id : Text) where
  splice-IsFresh :
      (x : Text) (ws : List Waiting)
      → IsFresh x (waiting_ids ws)
      → IsFresh x (waiting_ids (splice_id id ws))
  unfolding splice_id member
  splice-IsFresh x [] h = refl
  splice-IsFresh x (w ∷ ws) h = ground (arith, splice-IsFresh x ws)

  splice_unique :
      (ws : List Waiting) (ys : List Text)
      → AreUnique (waiting_ids ws ++ ys)
      → AreUnique (waiting_ids (splice_id id ws) ++ ys)
  unfolding splice_id
  splice_unique [] ys u = u
  splice_unique (w ∷ ws) ys u =
      if_either (λ l. AreUnique (waiting_ids l ++ ys)) (text_eq w.id id) (λ e. u.1)
        (λ e. (splice-IsFresh_before w.id ws ys u.0, splice_unique ws ys u.1))
    where
      splice-IsFresh_before :
          (x : Text) (ws : List Waiting) (ys : List Text)
          → IsFresh x (waiting_ids ws ++ ys)
          → IsFresh x (waiting_ids (splice_id id ws) ++ ys)
      splice-IsFresh_before x ws ys h =
          let (in_ws, in_ys) =
            or_false (member x (waiting_ids ws)) (member x ys)
              (sym (member-append x (waiting_ids ws) ys) ∙ h) in
          member-append x (waiting_ids (splice_id id ws)) ys
          ∙ ground (arith, splice-IsFresh x ws in_ws, in_ys)

  splice-All : (P : Waiting → Type 0) (ws : List Waiting) → All P ws → All P (splice_id id ws)
  unfolding splice_id
  splice-All P [] h = tt
  splice-All P (w ∷ ws) h =
      if_either (All P) (text_eq w.id id) (λ e. h.1) (λ e. (h.0, splice-All P ws h.1))

cancel-IsValid :
    (limits : Limits) (id : Text) (q : Queue) → IsValid limits q → IsValid limits (cancel id q).0
unfolding cancel
cancel-IsValid limits id q v =
    let same = abort_id-SameJobs id q.running in
    if_either (λ (r : Queue × Cancelled). IsValid limits r.0) (member id (running_ids q.running))
      (λ e. record {
        fits = Fits-SameJobs limits q.running _ same v.fits;
        unique = subst (λ ids. AreUnique (waiting_ids q.waiting ++ ids)) same.ids v.unique;
        busy = elim v.busy [
          | inl s ↦ inl s
          | inr (inl full) ↦ inr (inl (omega (arith, full, same.sizes)))
          | inr (inr all) ↦ inr (inr (All-blocked limits q.running _ q.waiting same all))
        ];
      })
      (λ e.
        if_either (λ (r : Queue × Cancelled). IsValid limits r.0)
          (member id (waiting_ids q.waiting))
          (λ e'. record {
            fits = v.fits;
            unique = splice_unique id q.waiting (running_ids q.running) v.unique;
            busy = elim v.busy [
              | inl s ↦ inl s
              | inr (inl full) ↦ inr (inl full)
              | inr (inr all) ↦ inr (inr (splice-All id _ q.waiting all))
            ];
          })
          (λ e'. v))

AreUnique-after : (xs ys : List Text) → AreUnique (xs ++ ys) → AreUnique ys
AreUnique-after [] ys u = u
AreUnique-after (x ∷ xs) ys u = AreUnique-after xs ys u.1

shut_down-IsValid : (limits : Limits) (q : Queue) → IsValid limits q → IsValid limits (shut_down q)
unfolding shut_down
shut_down-IsValid limits q v =
    let same = map-aborted-SameJobs Reason.by_shutdown q.running in
    record {
      fits = Fits-SameJobs limits q.running _ same v.fits;
      unique =
          subst AreUnique same.ids
            (AreUnique-after (waiting_ids q.waiting) (running_ids q.running) v.unique);
      busy = inl refl;
    }

-- The events that a queue meets, in any order.
pub data Step (limits : Limits) : Queue → Queue → Type 0 where
  enqueued :
      (id : Text) (hosts : List (Option Text)) (q : Queue)
      → Step limits q (enqueue limits id hosts q)
  cancelled : (id : Text) (q : Queue) → Step limits q (cancel id q).0
  finished : (id : Text) (q : Queue) → Step limits q (finish limits id q)
  stopped : (q : Queue) → Step limits q (shut_down q)

pub data Reach (limits : Limits) (s : Queue) : Queue → Type 0 where
  here : Reach limits s s
  next : {t u : Queue} → Reach limits s t → Step limits t u → Reach limits s u

Step-IsValid :
    {limits : Limits} {t u : Queue} → Step limits t u → IsValid limits t → IsValid limits u
Step-IsValid {limits} (enqueued id hosts q) v = enqueue-IsValid limits id hosts q v
Step-IsValid {limits} (cancelled id q) v = cancel-IsValid limits id q v
Step-IsValid {limits} (finished id q) v = finish-IsValid limits id q v
Step-IsValid {limits} (stopped q) v = shut_down-IsValid limits q v

init-IsValid : (limits : Limits) → IsValid limits init
unfolding count_on
init-IsValid limits = record {
  fits = record { in_flight = omega arith; per_host = λ host. omega arith };
  unique = tt;
  busy = inr (inr tt);
}

-- After any events, at most the allowed number of transfers runs, on each host too, no transfer is
-- in the queue twice, and none waits that could run.
pub Reach-IsValid : {limits : Limits} {q : Queue} → Reach limits init q → IsValid limits q
Reach-IsValid {limits} here = init-IsValid limits
Reach-IsValid (next r s) = Step-IsValid s (Reach-IsValid r)
