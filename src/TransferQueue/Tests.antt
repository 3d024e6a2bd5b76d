-- ===== src/TransferQueue/Tests.antt =====
-- Runs of the transfer queue.
use trekker.Prelude.{◌≡◌, refl, sym, ◌∙◌, ◌≢◌, some, none, [], ◌∷◌}
use trekker.Text.{codes, member}
use trekker.TransferQueue.{
  Limits, Queue, init, natural, negative, max_in_flight, max_per_host, enqueue, cancel, finish,
  shut_down, Cancelled, running_ids, waiting_ids, reclaim,
}
use trekker.TransferQueue.Invariant.{IsValid}
use trekker.TransferQueue.Events.{enqueued, here, next, Reach, Reach-IsValid}

abbrev two : Limits
two = record { in_flight = 2; per_host = 1 }

abbrev one_waits : Queue
one_waits =
    enqueue two (codes "b") (some (codes "h") ∷ none ∷ [])
      (enqueue two (codes "a") (some (codes "h") ∷ []) init)

queue : Unit {0}
unfolding enqueue cancel finish shut_down reclaim
queue = tt

queue_test :
    (waiting_ids one_waits.waiting ≡ codes "b" ∷ [])
    × (running_ids one_waits.running ≡ codes "a" ∷ [])
    × (running_ids (finish two (codes "a") one_waits).running ≡ codes "b" ∷ [])
    × ((cancel (codes "b") one_waits).1 ≡ Cancelled.waiting)
unfolding queue member
queue_test = (refl, refl, refl, refl)

reclaim_test :
    running_ids
      (reclaim two
        (record { id = codes "x"; src_host = none; dst_host = some (codes "h") }
          ∷ record { id = codes "y"; src_host = none; dst_host = none }
          ∷ [])
        init).running
    ≡ codes "x" ∷ codes "y" ∷ []
unfolding queue member
reclaim_test = refl

limits_test :
    (max_in_flight (natural 0) ≡ 3) × (max_in_flight (natural 5) ≡ 5) × (max_per_host negative ≡ 2)
unfolding max_in_flight max_per_host
limits_test = (refl, refl, refl)

one_waits_reached : Reach two init one_waits
one_waits_reached = next (next here (enqueued (codes "a") _ init)) (enqueued (codes "b") _ _)

Reach-IsValid_example : IsValid two one_waits
Reach-IsValid_example = Reach-IsValid one_waits_reached

one_waits-IsValid : IsValid two one_waits
one_waits-IsValid = Reach-IsValid one_waits_reached

waiting-ne-running : Cancelled.waiting ≢ Cancelled.running
waiting-ne-running e = cc

b_waits : (cancel (codes "b") one_waits).1 ≢ Cancelled.running
b_waits e = waiting-ne-running (sym queue_test.3 ∙ e)
