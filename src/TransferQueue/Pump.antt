-- ===== src/TransferQueue/Pump.antt =====
-- One pass of the queue over its waiting jobs.
use trekker.Prelude.{
  ◌+◌, ◌≤◌, ◌<◌, ◌≡◌, refl, sym, ap, ◌∙◌, ◌⊎◌, inl, inr, Bool, true, false, ◌||◌, List, [], ◌∷◌,
  ◌++◌, append_assoc, arith, if◌then◌else◌, ltb, leb, length, length-append, any, All, All-any,
  Bool-cases, none, or_false,
}
use mathlib.Core.List.{map-append}
use trekker.Text.{Text, text_eq, member}
use trekker.Text.Laws.{All-member, text_eq_comm}
use trekker.Text.Unique.{IsFresh, AreUnique, member-append}
use trekker.TransferQueue.{
  Limits, Waiting, Running, waiting_ids, running_ids, put_running, count_on, blocked, start,
  pump_from,
}

-- Both limits hold.
pub record Fits (limits : Limits) (running : List Running) : Type 0 where
  pub in_flight : length running ≤ limits.in_flight
  pub per_host : (host : Text) → count_on host running ≤ limits.per_host

put_running_new :
    (r : Running) (rs : List Running)
    → IsFresh r.id (running_ids rs)
    → put_running r rs ≡ rs ++ r ∷ []
unfolding put_running member
put_running_new r [] h = refl
put_running_new r (s ∷ rs) h = ground (arith, put_running_new r rs)

abbrev entry : Waiting → Running
entry job = record { id = job.id; hosts = job.hosts; signal = none }

pub start_new :
    (job : Waiting) (rs : List Running)
    → IsFresh job.id (running_ids rs)
    → start job rs ≡ rs ++ entry job ∷ []
unfolding start
start_new job rs h = put_running_new (entry job) rs h

count_on-append :
    (host : Text) (rs : List Running) (r : Running)
    → count_on host (rs ++ r ∷ []) ≡ count_on host rs + (if member host r.hosts then 1 else 0)
unfolding count_on
count_on-append host [] r = omega arith
count_on-append host (s ∷ rs) r = omega (arith, count_on-append host rs r)

open_host :
    (limits : Limits) (rs : List Running) (job : Waiting) (host : Text)
    → blocked limits rs job ≡ false
    → member host job.hosts ≡ true
    → count_on host rs < limits.per_host
unfolding blocked
open_host limits rs job host b m =
    let free =
      All-member (λ h. leb limits.per_host (count_on h rs) ≡ false) host job.hosts
        (All-any (λ h. leb limits.per_host (count_on h rs)) job.hosts b) m in
    ground arith

start-Fits :
    (limits : Limits) (job : Waiting) (rs : List Running)
    → IsFresh job.id (running_ids rs)
    → Fits limits rs
    → length rs < limits.in_flight
    → blocked limits rs job ≡ false
    → Fits limits (start job rs)
start-Fits limits job rs fresh f room b = rw (start_new job rs fresh) (record {
  in_flight = omega (arith, length-append rs (entry job ∷ []), room);
  per_host = λ host. elim (Bool-cases (member host job.hosts)) [
    | inl m ↦
        rw (count_on-append host rs (entry job), m)
          (omega (arith, open_host limits rs job host b m))
    | inr m ↦ rw (count_on-append host rs (entry job), m) (omega (arith, f.per_host host))
  ];
})

-- What a pass leads to, from the jobs `ws` and the running jobs `rs`.
pub record Pumped (limits : Limits) (ws : List Waiting) (rs : List Running) (ws' : List Waiting)
    (rs' : List Running) : Type 0 where
  pub fits : Fits limits rs'
  pub unique : AreUnique (waiting_ids ws' ++ running_ids rs')
  pub same_ids :
      (x : Text)
      → member x (waiting_ids ws' ++ running_ids rs') ≡ member x (waiting_ids ws ++ running_ids rs)
  pub grows : (host : Text) → count_on host rs ≤ count_on host rs'
  pub busy : (limits.in_flight ≤ length rs') ⊎ All (λ w. blocked limits rs' w ≡ true) ws'

any_mono :
    {A : Type 0} (p q : A → Bool) (xs : List A)
    → ((x : A) → p x ≡ true → q x ≡ true)
    → any p xs ≡ true
    → any q xs ≡ true
any_mono p q [] h e = e
any_mono p q (x ∷ xs) h e = elim (Bool-cases (p x)) [
  | inl px ↦ rw (h x px)
  | inr px ↦ ground (arith, any_mono p q xs h (ground arith))
]

pub blocked_mono :
    (limits : Limits) (rs rs' : List Running) (job : Waiting)
    → ((host : Text) → count_on host rs ≤ count_on host rs')
    → blocked limits rs job ≡ true
    → blocked limits rs' job ≡ true
unfolding blocked
blocked_mono limits rs rs' job h b =
    any_mono (λ x. leb limits.per_host (count_on x rs)) (λ x. leb limits.per_host (count_on x rs'))
      job.hosts (λ x e. ground (arith, h x)) b

AreUnique-snoc :
    (zs : List Text) (x : Text) → AreUnique zs → IsFresh x zs → AreUnique (zs ++ x ∷ [])
unfolding member
AreUnique-snoc [] x h f = (refl, tt)
AreUnique-snoc (z ∷ zs) x h f = (
  ground (arith, member-append z zs (x ∷ []), text_eq_comm z x, h.0),
  AreUnique-snoc zs x h.1 (ground arith),
)

running_ids-start :
    (job : Waiting) (rs : List Running)
    → IsFresh job.id (running_ids rs)
    → running_ids (start job rs) ≡ running_ids rs ++ job.id ∷ []
running_ids-start job rs fresh =
    ap running_ids (start_new job rs fresh) ∙ map-append _ rs (entry job ∷ [])

-- The identifiers after a job has moved from the front of the line to the end of the running ones.
ids-start :
    (job : Waiting) (ws : List Waiting) (rs : List Running)
    → IsFresh job.id (running_ids rs)
    → waiting_ids ws ++ running_ids (start job rs)
      ≡ (waiting_ids ws ++ running_ids rs) ++ job.id ∷ []
ids-start job ws rs fresh =
    ap (λ l. waiting_ids ws ++ l) (running_ids-start job rs fresh)
    ∙ sym (append_assoc (waiting_ids ws) (running_ids rs) (job.id ∷ []))

IsFresh-running : (x : Text) (xs ys : List Text) → IsFresh x (xs ++ ys) → IsFresh x ys
IsFresh-running x xs ys h =
    (or_false (member x xs) (member x ys) (sym (member-append x xs ys) ∙ h)).1

Pumped-keep :
    (limits : Limits) (job : Waiting) (ws ws' : List Waiting) (rs rs' : List Running)
    → blocked limits rs job ≡ true
    → IsFresh job.id (waiting_ids ws ++ running_ids rs)
    → Pumped limits ws rs ws' rs'
    → Pumped limits (job ∷ ws) rs (job ∷ ws') rs'
unfolding member
Pumped-keep limits job ws ws' rs rs' b fresh p = record {
  fits = p.fits;
  unique = (p.same_ids job.id ∙ fresh, p.unique);
  same_ids = λ x. ap (λ t. text_eq job.id x || t) (p.same_ids x);
  grows = p.grows;
  busy = elim p.busy [
    | inl full ↦ inl full
    | inr all ↦ inr (blocked_mono limits rs rs' job p.grows b, all)
  ];
}

Pumped-start :
    (limits : Limits) (job : Waiting) (ws ws' : List Waiting) (rs rs' : List Running)
    → IsFresh job.id (running_ids rs)
    → Pumped limits ws (start job rs) ws' rs'
    → Pumped limits (job ∷ ws) rs ws' rs'
unfolding member
Pumped-start limits job ws ws' rs rs' fresh p = record {
  fits = p.fits;
  unique = p.unique;
  same_ids = λ x.
      p.same_ids x
      ∙ ap (member x) (ids-start job ws rs fresh)
      ∙ member-append x (waiting_ids ws ++ running_ids rs) (job.id ∷ [])
      ∙ ground arith;
  grows = λ host. omega (
    arith,
    p.grows host,
    ap (count_on host) (start_new job rs fresh),
    count_on-append host rs (entry job),
  );
  busy = p.busy;
}

-- A pass keeps both limits and every identifier, and leaves a job waiting only if it may not start.
pub pump_from-Pumped :
    (limits : Limits) (ws : List Waiting) (rs : List Running)
    → Fits limits rs
    → AreUnique (waiting_ids ws ++ running_ids rs)
    → Pumped limits ws rs (pump_from limits ws rs).0 (pump_from limits ws rs).1
unfolding pump_from
pump_from-Pumped limits [] rs f u = record {
  fits = f;
  unique = u;
  same_ids = λ x. refl;
  grows = λ host. omega arith;
  busy = inr tt;
}
pump_from-Pumped limits (job ∷ ws) rs f u = elim (Bool-cases (ltb (length rs) limits.in_flight)) [
  | inr full ↦ rw full (record {
    fits = f;
    unique = u;
    same_ids = λ x. refl;
    grows = λ host. omega arith;
    busy = inl (ground arith);
  })
  | inl room ↦ elim (Bool-cases (blocked limits rs job)) [
    | inl b ↦
        rw (room, b) (Pumped-keep limits job ws _ rs _ b u.0 (pump_from-Pumped limits ws rs f u.1))
    | inr b ↦
        let fresh = IsFresh-running job.id (waiting_ids ws) (running_ids rs) u.0 in
        rw (room, b)
          (Pumped-start limits job ws _ rs _ fresh (
            pump_from-Pumped limits ws (start job rs)
              (start-Fits limits job rs fresh f (ground arith) b)
              (rw (ids-start job ws rs fresh)
                (AreUnique-snoc (waiting_ids ws ++ running_ids rs) job.id u.1 u.0))))
  ]
]
