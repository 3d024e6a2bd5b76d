-- ===== src/TransferQueue/Requests.antt =====
-- What a client's requests do: asking twice, and taking a job back.
use trekker.Prelude.{
  ◌≡◌, ◌≢◌, refl, sym, ap, ◌∙◌, ◌⊎◌, inl, inr, true, false, ◌||◌, Option, List, [], ◌∷◌, ◌++◌,
  arith, Bool-cases, or_false, if_either, subst,
}
use mathlib.Core.List.{map-append}
use trekker.Text.{Text, member}
use trekker.Text.Laws.{text_eq_refl, eq_of_text_eq}
use trekker.TransferQueue.{
  Limits, Waiting, Queue, waiting_ids, running_ids, present, pump, enqueue, splice_id, cancel,
  Cancelled,
}
use trekker.Text.Unique.{IsFresh, AreUnique, member-append}
use trekker.TransferQueue.Pump.{pump_from-Pumped}
use trekker.TransferQueue.Invariant.{IsValid, AreUnique-insert}

abbrev pub ids : Queue → List Text
ids q = waiting_ids q.waiting ++ running_ids q.running

abbrev joined : Text → List (Option Text) → Queue → Queue
joined id hosts q = record q {
  waiting = q.waiting ++ record { id = id; hosts = present hosts } ∷ [];
}

module _ (limits : Limits) (id : Text) (hosts : List (Option Text)) (q : Queue) where
  joined_ids : ids (joined id hosts q) ≡ (waiting_ids q.waiting ++ id ∷ []) ++ running_ids q.running
  joined_ids = ap (λ l. l ++ running_ids q.running) (map-append _ q.waiting (_ ∷ []))

  joined_unique : IsValid limits q → IsFresh id (ids q) → AreUnique (ids (joined id hosts q))
  joined_unique v fresh =
      subst AreUnique (sym joined_ids)
        (AreUnique-insert (waiting_ids q.waiting) (running_ids q.running) id v.unique fresh)

  member-joined : member id (ids (joined id hosts q)) ≡ true
  unfolding member
  member-joined =
      ap (member id) joined_ids
      ∙ member-append id (waiting_ids q.waiting ++ id ∷ []) (running_ids q.running)
      ∙ ground (arith, member-append id (waiting_ids q.waiting) (id ∷ []), text_eq_refl id)

  member-pump :
      IsValid limits q
      → IsFresh id (ids q)
      → q.stopping ≡ false
      → member id (ids (pump limits (joined id hosts q))) ≡ true
  unfolding pump
  member-pump v fresh s =
      let p =
        pump_from-Pumped limits (joined id hosts q).waiting q.running v.fits
          (joined_unique v fresh) in
      if_either (λ r. member id (ids r) ≡ true) q.stopping (λ e. cc (e, s))
        (λ e. p.same_ids id ∙ member-joined)

  -- After a request the job is in the queue, unless the process is stopping.
  enqueue_known :
      IsValid limits q → q.stopping ≡ false → member id (ids (enqueue limits id hosts q)) ≡ true
  unfolding enqueue
  enqueue_known v s =
      if_either (λ r. member id (ids r) ≡ true) q.stopping (λ e. cc (e, s))
        (λ e.
          if_either (λ r. member id (ids r) ≡ true)
            (member id (running_ids q.running) || member id (waiting_ids q.waiting))
            (λ known.
              member-append id (waiting_ids q.waiting) (running_ids q.running)
              ∙ ground (arith, known))
            (λ fresh.
              member-pump v
                (member-append id (waiting_ids q.waiting) (running_ids q.running)
                  ∙ ground (arith, fresh))
                s))

enqueue_idle :
    (limits : Limits) (id : Text) (hosts : List (Option Text)) (q : Queue)
    → (q.stopping ≡ true) ⊎ (member id (ids q) ≡ true)
    → enqueue limits id hosts q ≡ q
unfolding enqueue
enqueue_idle limits id hosts q h =
    if_either (λ r. r ≡ q) q.stopping (λ e. refl)
      (λ e.
        if_either (λ r. r ≡ q)
          (member id (running_ids q.running) || member id (waiting_ids q.waiting)) (λ known. refl)
          (λ fresh. absurd (
            ground (
              arith,
              h,
              e,
              fresh,
              member-append id (waiting_ids q.waiting) (running_ids q.running),
            ))))

enqueue_stopped :
    (limits : Limits) (id : Text) (hosts : List (Option Text)) (q : Queue)
    → q.stopping ≡ true
    → enqueue limits id hosts q ≡ q
enqueue_stopped limits id hosts q e = enqueue_idle limits id hosts q (inl e)

-- Asking for a job a second time changes nothing, whatever hosts are named.
pub enqueue_twice :
    (limits : Limits) (id : Text) (hosts hosts' : List (Option Text)) (q : Queue)
    → IsValid limits q
    → enqueue limits id hosts' (enqueue limits id hosts q) ≡ enqueue limits id hosts q
enqueue_twice limits id hosts hosts' q v = elim (Bool-cases q.stopping) [
  | inl s ↦
      let same = enqueue_stopped limits id hosts q s in
      ap (enqueue limits id hosts') same ∙ enqueue_stopped limits id hosts' q s ∙ sym same
  | inr s ↦
      enqueue_idle limits id hosts' (enqueue limits id hosts q)
        (inr (enqueue_known limits id hosts q v s))
]

splice_gone :
    (id : Text) (ws : List Waiting)
    → AreUnique (waiting_ids ws)
    → IsFresh id (waiting_ids (splice_id id ws))
unfolding splice_id member
splice_gone id [] u = refl
splice_gone id (w ∷ ws) u = ground (arith, splice_gone id ws, eq_of_text_eq w.id id, u.0, u.1)

unique_front : (xs ys : List Text) → AreUnique (xs ++ ys) → AreUnique xs
unique_front [] ys u = tt
unique_front (x ∷ xs) ys u = (
  (or_false (member x xs) (member x ys) (sym (member-append x xs ys) ∙ u.0)).0,
  unique_front xs ys u.1,
)

-- Unless the job is running, it is not in the queue any more once it has been cancelled.
pub cancel_gone :
    (limits : Limits) (id : Text) (q : Queue)
    → IsValid limits q
    → (cancel id q).1 ≢ Cancelled.running
    → IsFresh id (ids (cancel id q).0)
unfolding cancel
cancel_gone limits id q v =
    if_either (λ (r : Queue × Cancelled). r.1 ≢ Cancelled.running → IsFresh id (ids r.0))
      (member id (running_ids q.running)) (λ e n. absurd (n refl))
      (λ e.
        if_either (λ (r : Queue × Cancelled). r.1 ≢ Cancelled.running → IsFresh id (ids r.0))
          (member id (waiting_ids q.waiting))
          (λ e' n.
            member-append id (waiting_ids (splice_id id q.waiting)) (running_ids q.running)
            ∙ ground (
              arith,
              e,
              splice_gone id q.waiting
                  (unique_front (waiting_ids q.waiting) (running_ids q.running) v.unique),
            ))
          (λ e' n.
            member-append id (waiting_ids q.waiting) (running_ids q.running)
            ∙ ground (arith, e, e')))
