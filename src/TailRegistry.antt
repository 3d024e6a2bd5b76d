-- ===== src/TailRegistry.antt =====
-- nest-api/src/fs/tail-registry.service.ts: which files are followed, for whom, and under which limits.
-- A timer is a number that is pending with the key it would remove; sources report to the entry of
-- their key as long as it is kept.
pub mod Entry
pub mod Resume
pub mod Delivery
pub mod Events
pub mod Counts
pub mod Limits
pub mod Views
pub mod Kept
pub mod Watched
mod Tests
use trekker.Prelude.{
  ℕ, zero, suc, ◌+◌, ◌-◌, Bool, true, false, not, Option, none, some, List, [], ◌∷◌, ◌++◌, map,
  if◌then◌else◌, ltb, leb, ◌==◌, length, filter,
}
use trekker.Text.{Text, text_eq}
use trekker.TailRegistry.Entry.*

pub record TailLimits : Type 0 where
  pub per_host : ℕ
  pub per_session : ℕ
  pub buffer_bytes : ℕ

pub record TailRegistry : Type 0 where
  pub entries : List TailEntry
  pub per_session : List (Text × ℕ)
  pub next_subscriber : ℕ
  pub timers : List (ℕ × Text)
  pub next_timer : ℕ

abbrev pub no_tails : TailRegistry
no_tails = record {
  entries = [];
  per_session = [];
  next_subscriber = 1;
  timers = [];
  next_timer = 0;
}

pub record SubscribeArgs : Type 0 where
  pub host_id : Text
  pub real_path : Text
  pub session_id : Text
  pub initial_lines : ℕ
  pub last_event_id : Option ℕ
  pub prefer_exec : Bool

-- `${hostId}:${realPath}`
abbrev pub key_of : Text → Text → Text
key_of host_id real_path = host_id ++ (58 ∷ real_path)

unfoldable pub entry_of : Text → List TailEntry → Option TailEntry
unfolding text_eq
entry_of key [] = none
entry_of key (e ∷ es) = let rest = entry_of key es in if text_eq e.key key then some e else rest

-- The entry of the key is changed in its place.
unfoldable pub change : Text → (TailEntry → TailEntry) → List TailEntry → List TailEntry
unfolding text_eq
change key f [] = []
change key f (e ∷ es) =
    let rest = change key f es in if text_eq e.key key then f e ∷ es else e ∷ rest

-- `entries.delete`
unfoldable pub forget : Text → List TailEntry → List TailEntry
unfolding text_eq
forget key = filter (λ (e : TailEntry). not (text_eq e.key key))

unfoldable pub on_host : Text → List TailEntry → ℕ
unfolding text_eq
on_host host [] = 0
on_host host (e ∷ es) = if text_eq e.host_id host then suc (on_host host es) else on_host host es

-- `perSession.get(id) ?? 0`
unfoldable pub held_by : Text → List (Text × ℕ) → ℕ
unfolding text_eq
held_by session [] = 0
held_by session (s ∷ counts) =
    let rest = held_by session counts in if text_eq s.0 session then s.1 else rest

-- `perSession.set`
unfoldable pub set_held : Text → ℕ → List (Text × ℕ) → List (Text × ℕ)
unfolding text_eq
set_held session n [] = (session, n) ∷ []
set_held session n (s ∷ counts) =
    let rest = set_held session n counts in
    if text_eq s.0 session then (s.0, n) ∷ counts else s ∷ rest

-- `perSession.delete`
unfoldable pub delete_held : Text → List (Text × ℕ) → List (Text × ℕ)
unfolding text_eq
delete_held session = filter (λ (s : Text × ℕ). not (text_eq s.0 session))

abbrev pub clear_timer : Option ℕ → List (ℕ × Text) → List (ℕ × Text)
clear_timer none timers = timers
clear_timer (some t) timers = filter (λ (x : ℕ × Text). not (x.0 == t)) timers

pub data Refusal : Type 0 where
  host_full session_full : Refusal

pub record Subscription : Type 0 where
  pub shared : Bool
  pub resumed : Bool
  pub source : SourceKind
  pub subscriber_id : ℕ

pub data Subscribed : Type 0 where
  refused : Refusal → Subscribed
  granted : Subscription → Subscribed

abbrev pub source_kind : Bool → SourceKind
source_kind prefer_exec = if prefer_exec then by_tail else by_poll

abbrev pub fresh_entry : SubscribeArgs → TailEntry
fresh_entry args = record {
  key = key_of args.host_id args.real_path;
  host_id = args.host_id;
  real_path = args.real_path;
  source = source_kind args.prefer_exec;
  stopped = none;
  subscribers = [];
  ring = [];
  total = 0;
  reaper = none;
}

abbrev pub fresh_held : ℕ → Held
fresh_held id = record { id = id; sent = []; dropped = 0; wants_gap = false }

-- A joining subscriber is told what the ring has when the entry was there before it.
abbrev pub greet : Bool → SubscribeArgs → TailEntry → ℕ → Held × Bool
greet shared args entry id =
    if shared
    then replay args.initial_lines args.last_event_id entry.ring entry.total (fresh_held id)
    else (fresh_held id, false)

-- What `subscribe` does once both limits have admitted it, with an entry that stands in the map.
unfoldable pub join : Bool → SubscribeArgs → TailEntry → TailRegistry → TailRegistry × Subscribed
unfolding change replay
join shared args entry r =
    let (held, resumed) = greet shared args entry r.next_subscriber in
    (
      record r {
        entries = change entry.key (attach held) r.entries;
        timers = clear_timer entry.reaper r.timers;
        next_subscriber = r.next_subscriber + 1;
      },
      granted (record {
        shared = shared;
        resumed = resumed;
        source = entry.source;
        subscriber_id = r.next_subscriber;
      }),
    )

abbrev pub admit_session : TailLimits → Text → TailRegistry → Option TailRegistry
admit_session limits session r =
    let held = held_by session r.per_session in
    if leb limits.per_session held
    then none
    else some (record r { per_session = set_held session (held + 1) r.per_session })

abbrev pub open_entry : SubscribeArgs → TailRegistry → TailRegistry
open_entry args r = record r { entries = r.entries ++ (fresh_entry args ∷ []) }

abbrev pub join_open : SubscribeArgs → TailRegistry → TailRegistry × Subscribed
join_open args r = join false args (fresh_entry args) (open_entry args r)

abbrev pub or_refused :
    TailRegistry
    → Option TailRegistry
    → (TailRegistry → TailRegistry × Subscribed)
    → TailRegistry × Subscribed
or_refused r none next = (r, refused session_full)
or_refused r (some admitted) next = next admitted

unfoldable pub subscribe : TailLimits → SubscribeArgs → TailRegistry → TailRegistry × Subscribed
unfolding join entry_of on_host held_by set_held
subscribe limits args r = elim (entry_of (key_of args.host_id args.real_path) r.entries) [
  | none ↦
      if leb limits.per_host (on_host args.host_id r.entries)
      then (r, refused host_full)
      else or_refused r (admit_session limits args.session_id r) (join_open args)
  | some entry ↦ or_refused r (admit_session limits args.session_id r) (join true args entry)
]

-- The count of a session goes down, and away at its last.
unfoldable pub release_session : Text → List (Text × ℕ) → List (Text × ℕ)
unfolding held_by set_held delete_held
release_session session counts =
    let held = held_by session counts in
    if leb held 1 then delete_held session counts else set_held session (held - 1) counts

-- A controller keeps the first reason it was aborted with.
abbrev pub stop : CloseReason → TailEntry → TailEntry
stop reason entry = record entry {
  stopped = elim entry.stopped [ none ↦ some reason | some first ↦ some first ];
}

abbrev pub linger : ℕ → TailEntry → TailEntry
linger timer entry = record (stop last_subscriber entry) { reaper = some timer }

abbrev pub start_linger : Text → TailRegistry → TailRegistry
start_linger key r = record r {
  entries = change key (linger r.next_timer) r.entries;
  timers = r.timers ++ ((r.next_timer, key) ∷ []);
  next_timer = r.next_timer + 1;
}

abbrev pub after_leaving : Text → List Held → TailRegistry → TailRegistry
after_leaving key [] r = start_linger key r
after_leaving key (_ ∷ _) r = r

unfoldable pub unsubscribe : Text → ℕ → Text → TailRegistry → TailRegistry
unfolding release_session entry_of change
unsubscribe key id session r =
    let released = record r { per_session = release_session session r.per_session } in
    elim (entry_of key r.entries) [
      | none ↦ released
      | some entry ↦
          after_leaving key (leave id entry).subscribers
            (record released { entries = change key (leave id) r.entries })
    ]

-- A timer that is still pending removes the entry of its key.
unfoldable pub fire : ℕ → Text → TailRegistry → TailRegistry
unfolding forget
fire timer key r = record r {
  entries = forget key r.entries;
  timers = clear_timer (some timer) r.timers;
}

-- `closeEntry` with `drop`: the subscribers are ended, and neither they nor the entry is kept.
unfoldable pub close_entry : Text → TailRegistry → TailRegistry
unfolding entry_of forget
close_entry key r = elim (entry_of key r.entries) [
  | none ↦ r
  | some entry ↦ record r {
    entries = forget key r.entries;
    timers = clear_timer entry.reaper r.timers;
  }
]

abbrev pub close_each : List Text → TailRegistry → TailRegistry
close_each [] r = r
close_each (key ∷ keys) r = close_each keys (close_entry key r)

unfoldable pub close_all : TailRegistry → TailRegistry
unfolding close_entry
close_all r = record (close_each (map (λ (e : TailEntry). e.key) r.entries) r) { per_session = [] }

-- The sink of a source: lines, a rotation, and an error, which closes the entry when it is fatal.
unfoldable pub on_lines :
    TailLimits → Sockets → Sockets → Text → List Text → ℕ → TailRegistry → TailRegistry
unfolding change publish
on_lines limits sockets later key lines truncated r = record r {
  entries = change key (publish limits.buffer_bytes sockets later lines truncated) r.entries;
}

unfoldable pub on_rotated : TailLimits → Sockets → Text → ℕ → TailRegistry → TailRegistry
unfolding change broadcast
on_rotated limits sockets key now r = record r {
  entries = change key (broadcast limits.buffer_bytes sockets (rotated_frame now)) r.entries;
}

unfoldable pub on_error : TailLimits → Sockets → Text → Text → Bool → TailRegistry → TailRegistry
unfolding change broadcast close_entry
on_error limits sockets key message fatal r =
    let told = record r {
      entries =
          change key (broadcast limits.buffer_bytes sockets (error_frame message fatal)) r.entries;
    } in
    if fatal then close_entry key told else told
