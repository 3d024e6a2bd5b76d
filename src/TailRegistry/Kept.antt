-- ===== src/TailRegistry/Kept.antt =====
-- nest-api/src/fs/tail-registry.service.ts: what is to hold of each entry and its timer.
use trekker.Prelude.{
  ℕ, ◌+◌, ◌-◌, ◌≤◌, ◌<◌, Bool, true, false, Option, none, some, List, [], ◌∷◌, ◌++◌, map, ◌≡◌, ◌≢◌,
  refl, sym, subst, ◌∙◌, ◌⊎◌, inl, inr, arith, if_either, ltb, length, Option-cases, All,
  All-filter,
}
use trekker.Text.{Text}
use trekker.TailRegistry.{TailLimits, TailRegistry, change, entry_of, clear_timer}
use trekker.TailRegistry.Entry.{
  truncated_line, last_index, TailFrame, lines_frame, gap_frame, Held, Sockets, TailEntry, attach,
  publish, broadcast, offer, add_to_ring, tail_ring_lines, slice_last,
}
use trekker.TailRegistry.Events.{
  Event, subscribes, unsubscribes, fires, reports, rotates, fails, shuts_down, handle,
}
use trekker.TailRegistry.Views.{entry_of-key, entry_of-change, pending, pending-clear}
use trekker.TailRegistry.Resume.{length-drop}

abbrev pub has_any : List Held → Bool
has_any [] = false
has_any (_ ∷ _) = true

abbrev pub is_set {ℓ} : {A : Type ℓ} → Option A → Bool
is_set none = false
is_set (some _) = true

abbrev pub Timers : Type 0
Timers = List (ℕ × Text)

-- Somebody follows the file and no timer is set for it; or its source was stopped, and its timer is pending
-- and will remove it.
abbrev pub IsWatched : Timers → TailEntry → Type 0
IsWatched timers e =
    ((has_any e.subscribers ≡ true) × (e.reaper ≡ none))
    ⊎ ((is_set e.stopped ≡ true)
        × ((t : ℕ) × (e.reaper ≡ some t) × (pending t timers ≡ some e.key)))

abbrev pub IsKept : Timers → TailEntry → Type 0
IsKept timers e = IsWatched timers e × (length e.ring ≤ tail_ring_lines)

-- Each entry of the map is.
abbrev pub AreKept : TailRegistry → Type 0
AreKept r = (key : Text) (e : TailEntry) → entry_of key r.entries ≡ some e → IsKept r.timers e

-- And no timer has a number that is still to be given.
abbrev pub IsSound : TailRegistry → Type 0
IsSound r = AreKept r × All (λ (x : ℕ × Text). x.0 < r.next_timer) r.timers

-- A timer fires once, while it is pending, with the key that it was set for.
abbrev pub IsDue : Event → TailRegistry → Type 0
IsDue (fires timer key) r = pending timer r.timers ≡ some key
IsDue (subscribes args) r = Unit
IsDue (unsubscribes key id session) r = Unit
IsDue (reports sockets later key lines truncated) r = Unit
IsDue (rotates sockets key now) r = Unit
IsDue (fails sockets key message fatal) r = Unit
IsDue shuts_down r = Unit

abbrev pub AreDue : TailLimits → List Event → TailRegistry → Type 0
AreDue limits [] r = Unit
AreDue limits (event ∷ events) r = IsDue event r × AreDue limits events (handle limits event r)

pub has_any-append : (hs : List Held) (h : Held) → has_any (hs ++ (h ∷ [])) ≡ true
has_any-append [] h = refl
has_any-append (_ ∷ _) h = refl

has_any-map : (f : Held → Held) (hs : List Held) → has_any (map f hs) ≡ has_any hs
has_any-map f [] = refl
has_any-map f (_ ∷ _) = refl

pub attach-IsKept :
    (timers : Timers) (held : Held) (e : TailEntry)
    → length e.ring ≤ tail_ring_lines
    → IsKept timers (attach held e)
attach-IsKept timers held e ring = (inl (has_any-append e.subscribers held, refl), ring)

pub broadcast-IsKept :
    (timers : Timers) (cap : ℕ) (sockets : Sockets) (frame : TailFrame) (e : TailEntry)
    → IsKept timers e
    → IsKept timers (broadcast cap sockets frame e)
unfolding broadcast
broadcast-IsKept timers cap sockets frame e (inl (some_one, no_timer), ring) = (
  inl (
    has_any-map (λ (h : Held). offer cap (sockets h.id) frame h) e.subscribers ∙ some_one,
    no_timer,
  ),
  ring,
)
broadcast-IsKept timers cap sockets frame e (inr timed, ring) = (inr timed, ring)

add_to_ring-le : (ring lines : List Text) → length (add_to_ring ring lines) ≤ tail_ring_lines
unfolding add_to_ring slice_last
add_to_ring-le ring lines =
    let longer = ring ++ lines in
    if_either (λ (v : List Text). length v ≤ tail_ring_lines) (ltb tail_ring_lines (length longer))
      (λ e. ground (arith, e, length-drop (length longer - tail_ring_lines) longer))
      (λ e. ground (arith, e))

pub publish-IsKept :
    (timers : Timers) (cap : ℕ) (sockets later : Sockets) (lines : List Text) (truncated : ℕ)
    (e : TailEntry)
    → IsKept timers e
    → IsKept timers (publish cap sockets later lines truncated e)
unfolding publish
publish-IsKept timers cap sockets later lines truncated e (watched, ring) =
    let frame = lines_frame lines (last_index (e.total + length lines)) in
    let grown = record e { ring = add_to_ring e.ring lines; total = e.total + length lines } in
    let told =
      broadcast-IsKept timers cap sockets frame grown (watched, add_to_ring-le e.ring lines) in
    if_either (IsKept timers) (ltb 0 truncated)
      (λ _.
        broadcast-IsKept timers cap later (gap_frame truncated truncated_line)
          (broadcast cap sockets frame grown) told)
      (λ _. told)

-- A change to the entry of a key that keeps it, with the same timers.
pub change-IsSound :
    (key : Text) (f : TailEntry → TailEntry) (r : TailRegistry)
    → ((e : TailEntry) → (f e).key ≡ e.key)
    → ((e : TailEntry) → IsKept r.timers e → IsKept r.timers (f e))
    → IsSound r
    → IsSound (record r { entries = change key f r.entries })
change-IsSound key f r same_key keeps (kept, ids) = (
  (λ k e h. elim (entry_of-change key f same_key k r.entries e h) [
    | inl (apart, old) ↦ kept k e old
    | inr (is, (before, old, made)) ↦
        subst (IsKept r.timers) (sym made) (keeps before (kept key before old))
  ]),
  ids,
)

-- Once the timer of an entry is cleared, the entries of other keys still have theirs.
pub cleared :
    (key k : Text) (r : TailRegistry) (entry e : TailEntry)
    → AreKept r
    → entry_of key r.entries ≡ some entry
    → entry_of k r.entries ≡ some e
    → k ≢ key
    → IsKept (clear_timer entry.reaper r.timers) e
cleared key k r entry e kept found old apart =
    let (watched, ring) = kept k e old in
    (
      (elim watched [
        | inl followed ↦ inl followed
        | inr (stopped, (t, has, due)) ↦
            inr (stopped, (t, has, still t due (Option-cases entry.reaper)))
      ]),
      ring,
    )
  where
    still :
        (t : ℕ)
        → pending t r.timers ≡ some e.key
        → (entry.reaper ≡ none) ⊎ ((u : ℕ) × (entry.reaper ≡ some u))
        → pending t (clear_timer entry.reaper r.timers) ≡ some e.key
    still t due (inl no_timer) = rw (no_timer) due
    still t due (inr (u, has)) = rw (has) (
        pending-clear t u r.timers (λ same. elim (kept key entry found).0 [
          | inl (_, no_timer) ↦ cc (no_timer, has)
          | inr (_, (v, own, due_too)) ↦
              let same_timer : v ≡ t = cc (own, has, same) in
              let of_key : some e.key ≡ some entry.key =
                sym due ∙ subst (λ n. pending n r.timers ≡ some entry.key) same_timer due_too in
              let keys : e.key ≡ entry.key = cc (of_key) in
              apart (
                sym (entry_of-key k r.entries e old)
                ∙ keys
                ∙ entry_of-key key r.entries entry found)
        ])
        ∙ due)

pub clear-ids :
    (n : ℕ) (o : Option ℕ) (timers : Timers)
    → All (λ (x : ℕ × Text). x.0 < n) timers
    → All (λ (x : ℕ × Text). x.0 < n) (clear_timer o timers)
clear-ids n none timers h = h
clear-ids n (some t) timers h = All-filter (λ (x : ℕ × Text). x.0 < n) _ timers h
