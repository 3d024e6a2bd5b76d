-- ===== src/TailRegistry/Limits.antt =====
-- nest-api/src/fs/tail-registry.service.ts: how many files are followed on a host and how many streams a
-- session holds.
use trekker.Prelude.{
  ℕ, ◌+◌, ◌≤◌, Bool, true, false, Option, List, [], ◌∷◌, ◌++◌, ◌≡◌, refl, ap, sym, subst, inl, inr,
  arith, if_either, leb, ltb, Bool-cases, Option-cases, map,
}
use trekker.Text.{Text, text_eq}
use trekker.Text.Laws.{eq_of_text_eq}
use trekker.TailRegistry.{
  TailLimits, TailRegistry, SubscribeArgs, Subscribed, subscribe, unsubscribe, fire, on_lines,
  on_rotated, on_error, close_all, close_each, close_entry, change, entry_of, on_host, held_by,
  set_held, release_session, join, join_open, open_entry, linger, after_leaving, or_refused,
  admit_session, fresh_entry, greet, key_of, no_tails,
}
use trekker.TailRegistry.Entry.{
  Held, TailFrame, rotated_frame, error_frame, Sockets, TailEntry, attach, leave, publish,
  broadcast,
}
use trekker.TailRegistry.Events.{
  Event, subscribes, unsubscribes, fires, reports, rotates, fails, shuts_down, handle, handle_all,
}
use trekker.TailRegistry.Counts.{
  on_host-change, on_host-forget, on_host-append, held_by-set_held, held_by-release,
}

-- The limits as they are for one host and one session.
abbrev pub IsAdmitted : TailLimits → Text → Text → TailRegistry → Type 0
IsAdmitted limits host session r =
    (on_host host r.entries ≤ limits.per_host)
    × (held_by session r.per_session ≤ limits.per_session)

close_entry-IsAdmitted :
    (limits : TailLimits) (host session key : Text) (r : TailRegistry)
    → IsAdmitted limits host session r
    → IsAdmitted limits host session (close_entry key r)
unfolding close_entry
close_entry-IsAdmitted limits host session key r (hosts, sessions) =
    elim (Option-cases (entry_of key r.entries)) [
      | inl e ↦ rw (IsAdmitted, close_entry, e) (hosts, sessions)
      | inr (entry, e) ↦
          rw (IsAdmitted, close_entry, e)
            (omega (arith, hosts, on_host-forget host key r.entries), sessions)
    ]

close_each-IsAdmitted :
    (limits : TailLimits) (host session : Text) (keys : List Text) (r : TailRegistry)
    → IsAdmitted limits host session r
    → IsAdmitted limits host session (close_each keys r)
close_each-IsAdmitted limits host session [] r h = h
close_each-IsAdmitted limits host session (key ∷ keys) r h =
    close_each-IsAdmitted limits host session keys (close_entry key r)
      (close_entry-IsAdmitted limits host session key r h)

-- A change that keeps the host of an entry keeps the counts.
change-IsAdmitted :
    (limits : TailLimits) (host session key : Text) (f : TailEntry → TailEntry) (r : TailRegistry)
    → ((e : TailEntry) → (f e).host_id ≡ e.host_id)
    → IsAdmitted limits host session r
    → IsAdmitted limits host session (record r { entries = change key f r.entries })
change-IsAdmitted limits host session key f r keeps (hosts, sessions) =
    (omega (arith, hosts, on_host-change host key f keeps r.entries), sessions)

publish-host_id :
    (cap : ℕ) (sockets later : Sockets) (lines : List Text) (truncated : ℕ) (e : TailEntry)
    → (publish cap sockets later lines truncated e).host_id ≡ e.host_id
unfolding publish broadcast
publish-host_id cap sockets later lines truncated e =
    if_either (λ (x : TailEntry). x.host_id ≡ e.host_id) (ltb 0 truncated) (λ _. refl) (λ _. refl)

broadcast-host_id :
    (cap : ℕ) (sockets : Sockets) (frame : TailFrame) (e : TailEntry)
    → (broadcast cap sockets frame e).host_id ≡ e.host_id
unfolding broadcast
broadcast-host_id cap sockets frame e = refl

after_leaving-IsAdmitted :
    (limits : TailLimits) (host session key : Text) (left : List Held) (r : TailRegistry)
    → IsAdmitted limits host session r
    → IsAdmitted limits host session (after_leaving key left r)
after_leaving-IsAdmitted limits host session key [] r h =
    change-IsAdmitted limits host session key (linger r.next_timer) r (λ _. refl) h
after_leaving-IsAdmitted limits host session key (_ ∷ _) r h = h

-- A session that is admitted is below its limit before.
admit-IsAdmitted :
    (limits : TailLimits) (host session : Text) (args : SubscribeArgs) (r : TailRegistry)
    (next : TailRegistry → TailRegistry × Subscribed)
    → IsAdmitted limits host session r
    → ((admitted : TailRegistry)
        → admitted.entries ≡ r.entries
        → held_by session admitted.per_session ≤ limits.per_session
        → IsAdmitted limits host session (next admitted).0)
    → IsAdmitted limits host session (or_refused r (admit_session limits args.session_id r) next).0
admit-IsAdmitted limits host session args r next h after =
    let held = held_by args.session_id r.per_session in
    let set = held_by-set_held session args.session_id (held + 1) r.per_session in
    if_either (λ (o : Option TailRegistry). IsAdmitted limits host session (or_refused r o next).0)
      (leb limits.per_session held) (λ _. h)
      (λ free.
        after (record r { per_session = set_held args.session_id (held + 1) r.per_session }) refl
          (ground (arith, h.1, free, set)))

join-IsAdmitted :
    (limits : TailLimits) (host session : Text) (shared : Bool) (args : SubscribeArgs)
    (entry : TailEntry) (r : TailRegistry)
    → IsAdmitted limits host session r
    → IsAdmitted limits host session (join shared args entry r).0
unfolding join
join-IsAdmitted limits host session shared args entry r h =
    change-IsAdmitted limits host session entry.key
      (attach (greet shared args entry r.next_subscriber).0) r (λ _. refl) h

-- A file that is not followed yet is admitted below the limit of its host.
join_open-IsAdmitted :
    (limits : TailLimits) (host session : Text) (args : SubscribeArgs) (r admitted : TailRegistry)
    → leb limits.per_host (on_host args.host_id r.entries) ≡ false
    → on_host host r.entries ≤ limits.per_host
    → admitted.entries ≡ r.entries
    → held_by session admitted.per_session ≤ limits.per_session
    → IsAdmitted limits host session (join_open args admitted).0
join_open-IsAdmitted limits host session args r admitted free hosts same sessions =
    let fresh = fresh_entry args in
    let more = on_host-append host r.entries fresh in
    let room : on_host host (r.entries ++ (fresh ∷ [])) ≤ limits.per_host =
      elim (Bool-cases (text_eq args.host_id host)) [
        | inl e ↦
            (let this = ap (λ t. on_host t r.entries) (eq_of_text_eq args.host_id host e) in
              ground (arith, free, this, more, e))
        | inr e ↦ ground (arith, hosts, more, e)
      ] in
    join-IsAdmitted limits host session false args fresh (open_entry args admitted) (
      subst (λ (es : List TailEntry). on_host host (es ++ (fresh ∷ [])) ≤ limits.per_host)
          (sym same) room,
      sessions,
    )

subscribe-IsAdmitted :
    (limits : TailLimits) (host session : Text) (args : SubscribeArgs) (r : TailRegistry)
    → IsAdmitted limits host session r
    → IsAdmitted limits host session (subscribe limits args r).0
unfolding subscribe
subscribe-IsAdmitted limits host session args r h =
    elim (Option-cases (entry_of (key_of args.host_id args.real_path) r.entries)) [
      | inl absent ↦
          rw (IsAdmitted, subscribe, absent)
            (if_either (λ (x : TailRegistry × Subscribed). IsAdmitted limits host session x.0)
              (leb limits.per_host (on_host args.host_id r.entries)) (λ _. h)
              (λ free.
                admit-IsAdmitted limits host session args r (join_open args) h
                  (λ admitted. join_open-IsAdmitted limits host session args r admitted free h.0)))
      | inr (entry, found) ↦
          rw (IsAdmitted, subscribe, found)
            (admit-IsAdmitted limits host session args r (join true args entry) h
              (λ admitted same sessions.
                join-IsAdmitted limits host session true args entry admitted (
                  subst (λ (es : List TailEntry). on_host host es ≤ limits.per_host) (sym same) h.0,
                  sessions,
                )))
    ]

unsubscribe-IsAdmitted :
    (limits : TailLimits) (host session key : Text) (id : ℕ) (other : Text) (r : TailRegistry)
    → IsAdmitted limits host session r
    → IsAdmitted limits host session (unsubscribe key id other r)
unfolding unsubscribe
unsubscribe-IsAdmitted limits host session key id other r (hosts, sessions) =
    let fewer = held_by-release session other r.per_session in
    let released : IsAdmitted limits host session
        (record r { per_session = release_session other r.per_session }) =
      (hosts, omega (arith, fewer, sessions)) in
    elim (Option-cases (entry_of key r.entries)) [
      | inl absent ↦ rw (IsAdmitted, unsubscribe, absent) released
      | inr (entry, found) ↦
          rw (IsAdmitted, unsubscribe, found)
            (after_leaving-IsAdmitted limits host session key (leave id entry).subscribers
              (record r {
                per_session = release_session other r.per_session;
                entries = change key (leave id) r.entries;
              })
              (change-IsAdmitted limits host session key (leave id)
                (record r { per_session = release_session other r.per_session }) (λ _. refl)
                released))
    ]

on_error-IsAdmitted :
    (limits : TailLimits) (host session : Text) (sockets : Sockets) (key message : Text)
    (fatal : Bool) (r : TailRegistry)
    → IsAdmitted limits host session r
    → IsAdmitted limits host session (on_error limits sockets key message fatal r)
unfolding on_error
on_error-IsAdmitted limits host session sockets key message fatal r h =
    let tell = broadcast limits.buffer_bytes sockets (error_frame message fatal) in
    let told =
      change-IsAdmitted limits host session key tell r
        (broadcast-host_id limits.buffer_bytes sockets (error_frame message fatal)) h in
    if_either (IsAdmitted limits host session) fatal
      (λ _.
        close_entry-IsAdmitted limits host session key
          (record r { entries = change key tell r.entries }) told)
      (λ _. told)

handle-IsAdmitted :
    (limits : TailLimits) (host session : Text) (event : Event) (r : TailRegistry)
    → IsAdmitted limits host session r
    → IsAdmitted limits host session (handle limits event r)
unfolding handle fire on_lines on_rotated close_all held_by
handle-IsAdmitted limits host session (subscribes args) r h =
    subscribe-IsAdmitted limits host session args r h
handle-IsAdmitted limits host session (unsubscribes key id other) r h =
    unsubscribe-IsAdmitted limits host session key id other r h
handle-IsAdmitted limits host session (fires timer key) r (hosts, sessions) =
    (omega (arith, hosts, on_host-forget host key r.entries), sessions)
handle-IsAdmitted limits host session (reports sockets later key lines truncated) r h =
    change-IsAdmitted limits host session key
      (publish limits.buffer_bytes sockets later lines truncated) r
      (publish-host_id limits.buffer_bytes sockets later lines truncated) h
handle-IsAdmitted limits host session (rotates sockets key now) r h =
    change-IsAdmitted limits host session key
      (broadcast limits.buffer_bytes sockets (rotated_frame now)) r
      (broadcast-host_id limits.buffer_bytes sockets (rotated_frame now)) h
handle-IsAdmitted limits host session (fails sockets key message fatal) r h =
    on_error-IsAdmitted limits host session sockets key message fatal r h
handle-IsAdmitted limits host session shuts_down r h =
    let closed =
      close_each-IsAdmitted limits host session (map (λ (e : TailEntry). e.key) r.entries) r h in
    (closed.0, omega arith)

handle_all-keeps_limits :
    (limits : TailLimits) (host session : Text) (events : List Event) (r : TailRegistry)
    → IsAdmitted limits host session r
    → IsAdmitted limits host session (handle_all limits events r)
unfolding handle_all
handle_all-keeps_limits limits host session [] r h = h
handle_all-keeps_limits limits host session (event ∷ events) r h =
    handle_all-keeps_limits limits host session events (handle limits event r)
      (handle-IsAdmitted limits host session event r h)

-- Whatever requests, timers and reports arrive in whatever order, on a registry that begins empty no
-- host has more files followed than its limit, those that linger included, and no session is counted
-- with more streams than its own.
pub handle_all-IsAdmitted :
    (limits : TailLimits) (events : List Event) (host session : Text)
    → IsAdmitted limits host session (handle_all limits events no_tails)
unfolding on_host held_by
handle_all-IsAdmitted limits events host session =
    handle_all-keeps_limits limits host session events no_tails (omega arith, omega arith)
