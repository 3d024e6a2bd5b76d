-- ===== src/TailRegistry/Events.antt =====
-- nest-api/src/fs/tail-registry.service.ts: the requests, timers and reports of the registry in any
-- order, with the limits that hold throughout, and the sources that have no subscriber.
use trekker.Prelude.{ℕ, Bool, List, [], ◌∷◌}
use trekker.Text.{Text}
use trekker.TailRegistry.{
  TailLimits, TailRegistry, SubscribeArgs, subscribe, unsubscribe, fire, on_lines, on_rotated,
  on_error, close_all,
}
use trekker.TailRegistry.Entry.{Sockets}

pub data Event : Type 0 where
  subscribes : SubscribeArgs → Event
  unsubscribes : Text → ℕ → Text → Event
  fires : ℕ → Text → Event
  reports : Sockets → Sockets → Text → List Text → ℕ → Event
  rotates : Sockets → Text → ℕ → Event
  fails : Sockets → Text → Text → Bool → Event
  shuts_down : Event

unfoldable pub handle : TailLimits → Event → TailRegistry → TailRegistry
handle limits (subscribes args) r = (subscribe limits args r).0
handle limits (unsubscribes key id session) r = unsubscribe key id session r
handle limits (fires timer key) r = fire timer key r
handle limits (reports sockets later key lines truncated) r =
    on_lines limits sockets later key lines truncated r
handle limits (rotates sockets key now) r = on_rotated limits sockets key now r
handle limits (fails sockets key message fatal) r = on_error limits sockets key message fatal r
handle limits shuts_down r = close_all r

unfoldable pub handle_all : TailLimits → List Event → TailRegistry → TailRegistry
unfolding handle
handle_all limits [] r = r
handle_all limits (event ∷ events) r = handle_all limits events (handle limits event r)
