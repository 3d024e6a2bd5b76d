-- ===== src/TailRegistry/Watched.antt =====
-- nest-api/src/fs/tail-registry.service.ts: the files that nobody follows, and the length of the rings.
use trekker.Prelude.{
  ℕ, ◌+◌, ◌<◌, Bool, true, false, Option, none, some, List, [], ◌∷◌, ◌++◌, map, ◌≡◌, refl, ap, sym,
  subst, ◌∙◌, ◌⊎◌, inl, inr, arith, if_either, leb, ltb, Option-cases, All, All-append,
  if◌then◌else◌,
}
use trekker.Text.{Text}
use trekker.TailRegistry.{
  TailLimits, TailRegistry, SubscribeArgs, subscribe, unsubscribe, fire, on_lines, on_rotated,
  on_error, close_all, close_each, close_entry, change, entry_of, linger, after_leaving, or_refused,
  admit_session, join, join_open, fresh_entry, Subscribed, held_by, set_held, start_linger, on_host,
  release_session, greet, key_of, no_tails, clear_timer, forget, refused, host_full,
}
use trekker.TailRegistry.Entry.{
  rotated_frame, error_frame, Held, Sockets, TailEntry, attach, leave, publish, broadcast,
  CloseReason, last_subscriber,
}
use trekker.TailRegistry.Events.{
  Event, subscribes, unsubscribes, fires, reports, rotates, fails, shuts_down, handle, handle_all,
}
use trekker.TailRegistry.Views.{
  entry_of-key, entry_of-change, entry_of-forget, entry_of-append, pending, pending-clear,
  pending-new, pending-append, change-append, change-change,
}
use trekker.TailRegistry.Kept.{
  has_any, is_set, Timers, IsKept, AreKept, IsSound, IsDue, AreDue, attach-IsKept, broadcast-IsKept,
  publish-IsKept, change-IsSound, cleared, clear-ids,
}

close_entry-IsSound : (key : Text) (r : TailRegistry) → IsSound r → IsSound (close_entry key r)
unfolding close_entry
close_entry-IsSound key r (kept, ids) = elim (Option-cases (entry_of key r.entries)) [
  | inl e ↦ subst IsSound (sym (absent e)) (kept, ids)
  | inr (entry, found) ↦ subst IsSound (sym (present entry found)) (
    (λ k e h.
        let (apart, old) = entry_of-forget key k r.entries e h in
        cleared key k r entry e kept found old apart),
    clear-ids r.next_timer entry.reaper r.timers ids,
  )
]
  where
    absent : entry_of key r.entries ≡ none → close_entry key r ≡ r
    absent e = rw (close_entry, e) refl

    present :
        (entry : TailEntry)
        → entry_of key r.entries ≡ some entry
        → close_entry key r
          ≡ record r { entries = forget key r.entries; timers = clear_timer entry.reaper r.timers }
    present entry e = rw (close_entry, e) refl

close_each-IsSound : (keys : List Text) (r : TailRegistry) → IsSound r → IsSound (close_each keys r)
close_each-IsSound [] r h = h
close_each-IsSound (key ∷ keys) r h =
    close_each-IsSound keys (close_entry key r) (close_entry-IsSound key r h)

join-IsSound :
    (args : SubscribeArgs) (entry : TailEntry) (r : TailRegistry)
    → entry_of (key_of args.host_id args.real_path) r.entries ≡ some entry
    → IsSound r
    → IsSound (join true args entry r).0
unfolding join
join-IsSound args entry r found (kept, ids) =
    let key = key_of args.host_id args.real_path in
    let own = entry_of-key key r.entries entry found in
    let held = (greet true args entry r.next_subscriber).0 in
    (
      (λ k e h. elim (entry_of-change entry.key (attach held) (λ _. refl) k r.entries e h) [
        | inl (apart, old) ↦ cleared key k r entry e kept found old (λ is. apart (is ∙ sym own))
        | inr (is, (before, old, made)) ↦
            subst (IsKept (clear_timer entry.reaper r.timers)) (sym made) (
              attach-IsKept (clear_timer entry.reaper r.timers) held before
                (kept entry.key before old).1)
      ]),
      clear-ids r.next_timer entry.reaper r.timers ids,
    )

join_open-IsSound :
    (args : SubscribeArgs) (r : TailRegistry)
    → entry_of (key_of args.host_id args.real_path) r.entries ≡ none
    → IsSound r
    → IsSound (join_open args r).0
unfolding join
join_open-IsSound args r absent (kept, ids) =
    let fresh = fresh_entry args in
    let held = (greet false args fresh r.next_subscriber).0 in
    let made = change-append fresh.key (attach held) r.entries fresh absent refl in
    (
      (λ k e h.
          elim (entry_of-append k r.entries (attach held fresh) e
            (subst (λ es. entry_of k es ≡ some e) made h)) [
              | inl old ↦ kept k e old
              | inr is ↦
                  subst (IsKept r.timers) (sym is) (attach-IsKept r.timers held fresh (omega arith))
            ]),
      ids,
    )

-- The counts of the sessions are apart from the entries.
or_refused-IsSound :
    (limits : TailLimits) (session : Text) (r : TailRegistry)
    (next : TailRegistry → TailRegistry × Subscribed)
    → IsSound r
    → ((counts : List (Text × ℕ)) → IsSound (next (record r { per_session = counts })).0)
    → IsSound (or_refused r (admit_session limits session r) next).0
or_refused-IsSound limits session r next h after =
    if_either (λ (o : Option TailRegistry). IsSound (or_refused r o next).0)
      (leb limits.per_session (held_by session r.per_session)) (λ _. h)
      (λ _. after (set_held session (held_by session r.per_session + 1) r.per_session))

subscribe-IsSound :
    (limits : TailLimits) (args : SubscribeArgs) (r : TailRegistry)
    → IsSound r
    → IsSound (subscribe limits args r).0
unfolding subscribe
subscribe-IsSound limits args r h =
    by (entry_of (key_of args.host_id args.real_path) r.entries) refl
  where
    key : Text
    key = key_of args.host_id args.real_path

    by :
        (o : Option TailEntry)
        → entry_of key r.entries ≡ o
        → IsSound
            (elim o as (λ o. TailRegistry × Subscribed) [
              | none ↦
                  if leb limits.per_host (on_host args.host_id r.entries)
                  then (r, refused host_full)
                  else or_refused r (admit_session limits args.session_id r) (join_open args)
              | some entry ↦
                  or_refused r (admit_session limits args.session_id r) (join true args entry)
            ]).0
    by none absent =
        if_either (λ (x : TailRegistry × Subscribed). IsSound x.0)
          (leb limits.per_host (on_host args.host_id r.entries)) (λ _. h)
          (λ _.
            or_refused-IsSound limits args.session_id r (join_open args) h
              (λ counts. join_open-IsSound args (record r { per_session = counts }) absent h))
    by (some entry) found =
        or_refused-IsSound limits args.session_id r (join true args entry) h
          (λ counts. join-IsSound args entry (record r { per_session = counts }) found h)

after_leaving-cases :
    (key : Text) (left : List Held) (r : TailRegistry)
    → ((has_any left ≡ true) × (after_leaving key left r ≡ r))
      ⊎ (after_leaving key left r ≡ start_linger key r)
after_leaving-cases key [] r = inr refl
after_leaving-cases key (_ ∷ _) r = inl (refl, refl)

-- The last one has left: the source is stopped, and a timer set.
start_linger-IsSound :
    (key : Text) (id : ℕ) (r : TailRegistry)
    → IsSound r
    → IsSound (start_linger key (record r { entries = change key (leave id) r.entries }))
start_linger-IsSound key id r (kept, ids) =
    let timers = r.timers ++ ((r.next_timer, key) ∷ []) in
    let both = change-change key (leave id) (linger r.next_timer) (λ _. refl) r.entries in
    (
      (λ k e h.
          elim (entry_of-change key (λ x. linger r.next_timer (leave id x)) (λ _. refl) k r.entries
            e (subst (λ es. entry_of k es ≡ some e) both h)) [
              | inl (apart, old) ↦
                  let (watched, ring) = kept k e old in
                  (
                    (elim watched [
                      | inl followed ↦ inl followed
                      | inr (stopped, (t, has, due)) ↦
                          inr (stopped, (t, has, pending-append t e.key r.timers _ due))
                    ]),
                    ring,
                  )
              | inr (is, (before, old, made)) ↦
                  let own = entry_of-key key r.entries before old in
                  subst (IsKept timers) (sym made) (
                    inr (
                      is_set_or_first before.stopped,
                      (
                        r.next_timer,
                        refl,
                        pending-new r.next_timer key r.timers ids ∙ ap some (sym own),
                      ),
                    ),
                    (kept key before old).1,
                  )
            ]),
      All-append (λ (x : ℕ × Text). x.0 < r.next_timer + 1) r.timers ((r.next_timer, key) ∷ [])
          (later r.timers ids) (omega arith, tt),
    )
  where
    is_set_or_first :
        (o : Option CloseReason)
        → is_set (elim o [ none ↦ some last_subscriber | some first ↦ some first ]) ≡ true
    is_set_or_first none = refl
    is_set_or_first (some _) = refl

    later :
        (timers : Timers)
        → All (λ (x : ℕ × Text). x.0 < r.next_timer) timers
        → All (λ (x : ℕ × Text). x.0 < r.next_timer + 1) timers
    later [] h = tt
    later (x ∷ timers) (h, hs) = (omega (arith, h), later timers hs)

-- Somebody who left while others stay.
leave-IsSound :
    (key : Text) (id : ℕ) (entry : TailEntry) (r : TailRegistry)
    → entry_of key r.entries ≡ some entry
    → has_any (leave id entry).subscribers ≡ true
    → IsSound r
    → IsSound (record r { entries = change key (leave id) r.entries })
leave-IsSound key id entry r found some_left (kept, ids) = (
  (λ k e h. elim (entry_of-change key (leave id) (λ _. refl) k r.entries e h) [
    | inl (apart, old) ↦ kept k e old
    | inr (is, (before, old, made)) ↦
        let same : entry ≡ before = cc (found, old) in
        let (watched, ring) = kept key before old in
        subst (IsKept r.timers) (sym made) (
          (elim watched [
            | inl (_, no_timer) ↦ inl (
              subst (λ (x : TailEntry). has_any (leave id x).subscribers ≡ true) same some_left,
              no_timer,
            )
            | inr timed ↦ inr timed
          ]),
          ring,
        )
  ]),
  ids,
)

unsubscribe-IsSound :
    (key : Text) (id : ℕ) (session : Text) (r : TailRegistry)
    → IsSound r
    → IsSound (unsubscribe key id session r)
unfolding unsubscribe
unsubscribe-IsSound key id session r h = by (entry_of key r.entries) refl
  where
    released : TailRegistry
    released = record r { per_session = release_session session r.per_session }

    by :
        (o : Option TailEntry)
        → entry_of key r.entries ≡ o
        → IsSound (elim o [
          | none ↦ released
          | some entry ↦
              after_leaving key
                (leave id entry).subscribers
                (record released { entries = change key (leave id) r.entries })
        ])
    by none absent = h
    by (some entry) found =
        let left = record released { entries = change key (leave id) r.entries } in
        elim (after_leaving-cases key (leave id entry).subscribers left) [
          | inl (some_left, same) ↦
              subst IsSound (sym same) (leave-IsSound key id entry released found some_left h)
          | inr same ↦ subst IsSound (sym same) (start_linger-IsSound key id released h)
        ]

fire-IsSound :
    (timer : ℕ) (key : Text) (r : TailRegistry)
    → pending timer r.timers ≡ some key
    → IsSound r
    → IsSound (fire timer key r)
unfolding fire
fire-IsSound timer key r due (kept, ids) = (
  (λ k e h.
      let (apart, old) = entry_of-forget key k r.entries e h in
      let (watched, ring) = kept k e old in
      (
        (elim watched [
          | inl followed ↦ inl followed
          | inr (stopped, (t, has, own)) ↦ inr (
            stopped,
            (
              t,
              has,
              pending-clear t timer r.timers (λ same.
                    let keys : some e.key ≡ some key =
                      sym own ∙ subst (λ n. pending n r.timers ≡ some key) (sym same) due in
                    let of_key : e.key ≡ key = cc (keys) in
                    apart (sym (entry_of-key k r.entries e old) ∙ of_key))
                  ∙ own,
            ),
          )
        ]),
        ring,
      )),
  clear-ids r.next_timer (some timer) r.timers ids,
)

on_error-IsSound :
    (limits : TailLimits) (sockets : Sockets) (key message : Text) (fatal : Bool) (r : TailRegistry)
    → IsSound r
    → IsSound (on_error limits sockets key message fatal r)
unfolding on_error broadcast
on_error-IsSound limits sockets key message fatal r h =
    let tell = broadcast limits.buffer_bytes sockets (error_frame message fatal) in
    let told =
      change-IsSound key tell r (λ _. refl)
        (λ e k.
          broadcast-IsKept r.timers limits.buffer_bytes sockets (error_frame message fatal) e k)
        h in
    if_either IsSound fatal
      (λ _. close_entry-IsSound key (record r { entries = change key tell r.entries }) told)
      (λ _. told)

publish-key :
    (cap : ℕ) (sockets later : Sockets) (lines : List Text) (truncated : ℕ) (e : TailEntry)
    → (publish cap sockets later lines truncated e).key ≡ e.key
unfolding publish broadcast
publish-key cap sockets later lines truncated e =
    if_either (λ (x : TailEntry). x.key ≡ e.key) (ltb 0 truncated) (λ _. refl) (λ _. refl)

handle-IsSound :
    (limits : TailLimits) (event : Event) (r : TailRegistry)
    → IsDue event r
    → IsSound r
    → IsSound (handle limits event r)
unfolding handle on_lines on_rotated close_all broadcast
handle-IsSound limits (subscribes args) r due h = subscribe-IsSound limits args r h
handle-IsSound limits (unsubscribes key id session) r due h = unsubscribe-IsSound key id session r h
handle-IsSound limits (fires timer key) r due h = fire-IsSound timer key r due h
handle-IsSound limits (reports sockets later key lines truncated) r due h =
    change-IsSound key (publish limits.buffer_bytes sockets later lines truncated) r
      (publish-key limits.buffer_bytes sockets later lines truncated)
      (publish-IsKept r.timers limits.buffer_bytes sockets later lines truncated) h
handle-IsSound limits (rotates sockets key now) r due h =
    change-IsSound key (broadcast limits.buffer_bytes sockets (rotated_frame now)) r (λ _. refl)
      (broadcast-IsKept r.timers limits.buffer_bytes sockets (rotated_frame now)) h
handle-IsSound limits (fails sockets key message fatal) r due h =
    on_error-IsSound limits sockets key message fatal r h
handle-IsSound limits shuts_down r due h =
    close_each-IsSound (map (λ (e : TailEntry). e.key) r.entries) r h

handle_all-IsSound :
    (limits : TailLimits) (events : List Event) (r : TailRegistry)
    → AreDue limits events r
    → IsSound r
    → IsSound (handle_all limits events r)
unfolding handle_all
handle_all-IsSound limits [] r due h = h
handle_all-IsSound limits (event ∷ events) r (due, later) h =
    handle_all-IsSound limits events (handle limits event r) later
      (handle-IsSound limits event r due h)

-- Whatever requests and reports arrive in whatever order, with timers that fire only while they are
-- pending and with the key they were set for, on a registry that begins empty every entry of the map has
-- a subscriber and no timer; or its source was told to stop, and the timer it names is pending and will
-- remove this very key. No ring is longer than 2000 lines.
pub handle_all-AreKept :
    (limits : TailLimits) (events : List Event)
    → AreDue limits events no_tails
    → AreKept (handle_all limits events no_tails)
unfolding entry_of
handle_all-AreKept limits events due =
    (handle_all-IsSound limits events no_tails due ((λ key e h. cc), tt)).0
