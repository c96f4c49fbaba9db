-- ===== src/Desk/Machine.antt =====
-- internal/bridge/desk.go, internal/bridge/bridge.go: one manager among the goroutines that touch
-- it. Every step is one stretch of code between two waits; the events choose the order.
pub mod Shape
pub mod Backoff
pub mod Writes
pub mod Availability
pub mod Sessions
pub mod Rule
pub mod Count
pub mod Wanted
pub mod Order
pub mod Keeps
pub mod Metrics
pub mod History
pub mod Shutdown
pub mod Recovery
pub mod Heights
use mqtt_linak.Base.{
  ℕ, Bool, true, false, Option, none, some, List, [], ◌∷◌, ◌++◌, Text, ℤ, pos, if◌then◌else◌,
}
use mqtt_linak.Config.{Config}
use mqtt_linak.Topics.{Numbers}
use mqtt_linak.Desk.{
  CommandKind, Ending, Place, top, resolving, serving, sleeping, over, returned, Manager, Effect,
  wake_scanner, on_reference_output, republish_state, submit,
}
use mqtt_linak.Desk.Run.{
  Reply, Wake, start_connect, loop_top, serve, replied, finish_round, next_round,
}

pub data Event : Type 0 where
  -- the goroutine of `run`: it goes on at the head of its loop or behind `connectAndServe`, receives
  -- a peripheral ID, leaves a wait by its context, gets a reply, leaves a select, or wakes up
  go_on : Event
  end_round : ℤ → ℕ → Event
  receive : Event
  quit : Event
  reply : Reply → ℕ → Event
  woken : Wake → ℕ → Event
  timer : Event
  -- the other goroutines: the context is cancelled, the event pump finds the peripheral or sees it
  -- drop, a position arrives, a command arrives, the MQTT client has reconnected
  cancel : Event
  found : Text → Event
  lost : Event
  position : ℤ → ℤ → ℕ → Event
  arrives : CommandKind → Text → Event
  reconnected : Event

-- The event pump's part for a desk that matches: CompareAndSwap, then a send that does not block.
unfoldable pub offer_peripheral : Text → Manager → Manager × List Effect
offer_peripheral pid m =
    if m.want_resolve
    then (
      record m {
        want_resolve = false;
        resolved = elim m.resolved [ none ↦ some pid | some old ↦ some old ];
      },
      wake_scanner ∷ [],
    )
    else (m, [])

-- The end of `resolve`: a peripheral ID from the channel, and the connection attempt follows.
unfoldable pub receive_peripheral : Manager → Manager × List Effect
unfolding start_connect
receive_peripheral m = elim m.resolved [
  | none ↦ (m, [])
  | some pid ↦ start_connect (record m { resolved = none; peripheral_id = pid })
]

-- The waits outside `connectAndServe` that end when the context does.
unfoldable pub quit_wait : Place → Manager → Manager × List Effect
quit_wait resolving m = (record m { place = over }, [])
quit_wait sleeping m = (record m { place = over }, [])
quit_wait p m = (m, [])

module _ (c : Config) where
  -- The events of the goroutine of `run`, each at the places where it is awaited.
  unfoldable pub run_step : Place → Event → Manager → Manager × List Effect
  unfolding loop_top finish_round receive_peripheral quit_wait replied serve next_round
  run_step top go_on m = loop_top m
  run_step (returned e) (end_round r now) m = finish_round c e r now m
  run_step resolving receive m = receive_peripheral m
  run_step p quit m = if m.cancelled then quit_wait p m else (m, [])
  run_step p (reply r now) m = replied c p r now m
  run_step serving (woken w now) m = serve c w now m
  run_step sleeping timer m = next_round c m
  run_step p e m = (m, [])

module _ (c : Config) {F : Type 0} (nums : Numbers F) where
  unfoldable pub step : Manager → Event → Manager × List Effect
  unfolding run_step offer_peripheral on_reference_output submit republish_state
  step m cancel = (record m { cancelled = true }, [])
  step m (found pid) = offer_peripheral pid m
  step m lost = (record m { disconnected = true }, [])
  step m (position extension speed now) = on_reference_output c m extension speed now
  step m (arrives kind payload) = (submit nums m kind payload, [])
  step m reconnected = (m, republish_state c m)
  step m e = run_step c m.place e m

  -- A history of events, with all that is asked for, the earliest first.
  unfoldable pub run : Manager → List Event → Manager × List Effect
  run m [] = (m, [])
  run m (e ∷ es) = let (m₁, out) = step m e in let (m₂, rest) = run m₁ es in (m₂, out ++ rest)
