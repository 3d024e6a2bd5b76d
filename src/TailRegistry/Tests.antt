-- ===== src/TailRegistry/Tests.antt =====
-- The registry of tails on small inputs.
use trekker.Prelude.{ℕ, Bool, true, false, Option, none, some, List, [], ◌∷◌, ◌≡◌, refl, inr, arith}
use trekker.Text.{Text, codes, text_eq}
use trekker.TailRegistry.{
  TailLimits, SubscribeArgs, subscribe, on_lines, unsubscribe, fresh_entry, fresh_held, no_tails,
  held_by, on_host, change, release_session, entry_of, join, set_held, delete_held,
}
use trekker.TailRegistry.Entry.{
  slow_client, at, TailFrame, lines_frame, gap_frame, Socket, Sockets, TailEntry, publish, replay,
  broadcast, offer, drop, slice_last, add_to_ring,
}
use trekker.TailRegistry.Events.{
  Event, subscribes, unsubscribes, fires, reports, handle, handle_all,
}
use trekker.TailRegistry.Resume.{
  EntryEvent, published, joined, left, react_all, published_by, replay_of_log, replay-react_all,
}
use trekker.TailRegistry.Delivery.{Accounts, count_all, frames, offer_all, offer_all-Accounts}
use trekker.TailRegistry.Limits.{IsAdmitted, handle_all-IsAdmitted}
use trekker.TailRegistry.Views.{pending}
use trekker.TailRegistry.Kept.{is_set, AreKept}
use trekker.TailRegistry.Watched.{handle_all-AreKept}

abbrev args : Text → Option ℕ → SubscribeArgs
args session last = record {
  host_id = codes "h";
  real_path = codes "/log";
  session_id = session;
  initial_lines = 2;
  last_event_id = last;
  prefer_exec = false;
}

abbrev limits : TailLimits
limits = record { per_host = 6; per_session = 4; buffer_bytes = 100 }

abbrev open_socket : Socket
open_socket = record { answers = true; buffered = 0; writes = 9 }

abbrev full_socket : Socket
full_socket = record { answers = true; buffered = 101; writes = 9 }

abbrev ready : Sockets
ready id = open_socket

abbrev key : Text
key = codes "h:/log"

abbrev three : List Text
three = codes "a" ∷ codes "b" ∷ codes "c" ∷ []

abbrev events : List EntryEvent
events = joined (fresh_held 1) ∷ published ready ready three 0 ∷ left 1 ∷ []

replay-react_all_example :
    replay 2
      (some 1)
      (react_all 100 events (fresh_entry (args (codes "s") none))).ring
      (react_all 100 events (fresh_entry (args (codes "s") none))).total
      (fresh_held 2)
    ≡ replay_of_log 2 (some 1) (published_by events) (fresh_held 2)
replay-react_all_example =
    replay-react_all 100 events (fresh_entry (args (codes "s") none)) refl refl 2 (some 1)
      (fresh_held 2)

abbrev calls : List (Socket × TailFrame)
calls = (full_socket, lines_frame three (at 2)) ∷ (open_socket, lines_frame three (at 5)) ∷ []

offer_all-Accounts_example :
    Accounts (count_all (frames calls)) (fresh_held 1) (offer_all 100 calls (fresh_held 1))
offer_all-Accounts_example =
    offer_all-Accounts 100 calls (fresh_held 1)
      (((refl, omega arith), refl), (((refl, omega arith), refl), tt)) (inr refl)

-- The lines that a slow client missed are told before the next ones.
offer_all_slow :
    (offer_all 100 calls (fresh_held 1)).sent
    ≡ gap_frame 3 slow_client ∷ lines_frame three (at 5) ∷ []
unfolding offer_all offer
offer_all_slow = refl

abbrev requests : List Event
requests =
    subscribes (args (codes "s") none)
    ∷ reports ready ready key three 0
    ∷ unsubscribes key 1 (codes "s")
    ∷ subscribes (args (codes "s") (some 1))
    ∷ []

-- The client leaves, the timer that is set then fires, and another client comes and leaves.
abbrev left_alone : List Event
left_alone =
    subscribes (args (codes "s") none)
    ∷ reports ready ready key three 0
    ∷ unsubscribes key 1 (codes "s")
    ∷ fires 0 key
    ∷ subscribes (args (codes "s") none)
    ∷ unsubscribes key 2 (codes "s")
    ∷ []

handle_all-AreKept_example : AreKept (handle_all limits left_alone no_tails)
unfolding handle subscribe join entry_of on_host held_by set_held unsubscribe release_session change
    delete_held publish broadcast text_eq on_lines pending
handle_all-AreKept_example =
    handle_all-AreKept limits left_alone (tt, (tt, (tt, (refl, (tt, (tt, tt))))))

handle_all-IsAdmitted_example :
    IsAdmitted limits (codes "h") (codes "s") (handle_all limits requests no_tails)
handle_all-IsAdmitted_example = handle_all-IsAdmitted limits requests (codes "h") (codes "s")

abbrev stopped_of : List TailEntry → List Bool
stopped_of [] = []
stopped_of (e ∷ es) = is_set e.stopped ∷ stopped_of es

-- The client that comes back while the entry lingers has a subscriber on a source that stays stopped.
resumed_while_lingering : stopped_of (handle_all limits requests no_tails).entries ≡ true ∷ []
unfolding handle_all handle subscribe join entry_of on_host held_by set_held unsubscribe
    release_session change delete_held replay publish broadcast offer drop slice_last add_to_ring
    text_eq on_lines
resumed_while_lingering = refl
