-- ===== src/TransferQueue/Invariant.antt =====
-- The invariant of the queue over every sequence of its events.
use trekker.Prelude.{
  ◌≤◌, ◌≡◌, refl, sym, ◌∙◌, subst, ◌⊎◌, inl, inr, true, not, ◌||◌, Option, List, [], ◌∷◌, ◌++◌,
  arith, length, length-filter, All, Bool-cases, or_false, if_either,
}
use mathlib.Core.List.{map-append}
use trekker.Text.{Text, text_eq, member}
use trekker.Text.Laws.{text_eq_comm}
use trekker.TransferQueue.{
  Limits, Waiting, Running, Queue, waiting_ids, running_ids, count_on, blocked, pump, enqueue,
  delete_running, finish,
}
use trekker.Text.Unique.{IsFresh, AreUnique, member-append}
use trekker.TransferQueue.Pump.{Fits, pump_from-Pumped}

-- Both limits hold, no identifier stands twice, and a job waits only if it may not start.
pub record IsValid (limits : Limits) (q : Queue) : Type 0 where
  pub fits : Fits limits q.running
  pub unique : AreUnique (waiting_ids q.waiting ++ running_ids q.running)
  pub busy :
      (q.stopping ≡ true)
      ⊎ (limits.in_flight ≤ length q.running)
      ⊎ All (λ w. blocked limits q.running w ≡ true) q.waiting

pub pump-IsValid :
    (limits : Limits) (q : Queue)
    → Fits limits q.running
    → AreUnique (waiting_ids q.waiting ++ running_ids q.running)
    → IsValid limits (pump limits q)
unfolding pump
pump-IsValid limits q f u =
    let p = pump_from-Pumped limits q.waiting q.running f u in
    if_either (IsValid limits) q.stopping (λ s. record { fits = f; unique = u; busy = inl s })
      (λ s. record { fits = p.fits; unique = p.unique; busy = inr p.busy })

pub AreUnique-insert :
    (xs ys : List Text) (x : Text)
    → AreUnique (xs ++ ys)
    → IsFresh x (xs ++ ys)
    → AreUnique ((xs ++ x ∷ []) ++ ys)
unfolding member
AreUnique-insert [] ys x u f = (f, u)
AreUnique-insert (z ∷ xs) ys x u f = (
  ground (
    arith,
    u.0,
    member-append z (xs ++ x ∷ []) ys,
    member-append z xs (x ∷ []),
    member-append z xs ys,
    text_eq_comm z x,
  ),
  AreUnique-insert xs ys x u.1 (ground arith),
)

pub enqueue-IsValid :
    (limits : Limits) (id : Text) (hosts : List (Option Text)) (q : Queue)
    → IsValid limits q
    → IsValid limits (enqueue limits id hosts q)
unfolding enqueue
enqueue-IsValid limits id hosts q v =
    if_either (IsValid limits) q.stopping (λ s. v)
      (λ s.
        if_either (IsValid limits)
          (member id (running_ids q.running) || member id (waiting_ids q.waiting)) (λ known. v)
          (λ fresh. pump-IsValid limits _ v.fits (
            subst (λ ids. AreUnique (ids ++ running_ids q.running))
              (sym (map-append _ q.waiting (_ ∷ [])))
              (AreUnique-insert (waiting_ids q.waiting) (running_ids q.running) id v.unique (
                ground (
                  arith,
                  fresh,
                  member-append id (waiting_ids q.waiting) (running_ids q.running),
                ))))))

pub append-IsFresh :
    (x : Text) (xs ys zs : List Text)
    → IsFresh x (xs ++ ys)
    → (IsFresh x ys → IsFresh x zs)
    → IsFresh x (xs ++ zs)
append-IsFresh x xs ys zs h k =
    let (in_xs, in_ys) = or_false (member x xs) (member x ys) (sym (member-append x xs ys) ∙ h) in
    member-append x xs zs ∙ ground (arith, in_xs, k in_ys)

length-delete_running : (id : Text) (rs : List Running) → length (delete_running id rs) ≤ length rs
unfolding delete_running
length-delete_running id rs = length-filter (λ (r : Running). not (text_eq r.id id)) rs

-- Deleting running jobs.
module _ (id : Text) where
  delete-count_on :
      (host : Text) (rs : List Running) → count_on host (delete_running id rs) ≤ count_on host rs
  unfolding delete_running count_on
  delete-count_on host [] = omega arith
  delete-count_on host (r ∷ rs) = ground (arith, delete-count_on host rs)

  delete-IsFresh :
      (x : Text) (rs : List Running)
      → IsFresh x (running_ids rs)
      → IsFresh x (running_ids (delete_running id rs))
  unfolding delete_running member
  delete-IsFresh x [] h = refl
  delete-IsFresh x (r ∷ rs) h = ground (arith, delete-IsFresh x rs)

  delete_unique :
      (rs : List Running)
      → AreUnique (running_ids rs)
      → AreUnique (running_ids (delete_running id rs))
  unfolding delete_running
  delete_unique [] u = tt
  delete_unique (r ∷ rs) u = elim (Bool-cases (text_eq r.id id)) [
    | inl e ↦ rw e (delete_unique rs u.1)
    | inr e ↦ rw e (delete-IsFresh r.id rs u.0, delete_unique rs u.1)
  ]

  delete_unique_after :
      (ws : List Waiting) (rs : List Running)
      → AreUnique (waiting_ids ws ++ running_ids rs)
      → AreUnique (waiting_ids ws ++ running_ids (delete_running id rs))
  delete_unique_after [] rs u = delete_unique rs u
  delete_unique_after (w ∷ ws) rs u = (
    append-IsFresh w.id (waiting_ids ws) (running_ids rs) (running_ids (delete_running id rs)) u.0
        (delete-IsFresh w.id rs),
    delete_unique_after ws rs u.1,
  )

pub finish-IsValid :
    (limits : Limits) (id : Text) (q : Queue)
    → IsValid limits q
    → IsValid limits (finish limits id q)
unfolding finish
finish-IsValid limits id q v =
    pump-IsValid limits _
      (record {
        in_flight = omega (arith, length-delete_running id q.running, v.fits.in_flight);
        per_host = λ host. omega (arith, delete-count_on id host q.running, v.fits.per_host host);
      })
      (delete_unique_after id q.waiting q.running v.unique)
