-- ===== src/System.antt =====
-- internal/bridge/bridge.go: the desks, the event pump and the MQTT client together. One step is one
-- stretch of one goroutine between two waits; the events choose the order.
mod State
pub mod Absorb
pub mod Desks
pub mod Histories
pub mod Quiet
pub mod Silence
pub mod Safety
pub mod Broker
pub mod Retained
pub mod Routing
pub mod Obeys
pub mod Told
pub mod Metrics
pub mod Alerts
pub mod Wakeups
pub mod Parting
pub mod Farewell
pub mod Closing
pub mod Shutdown
use mqtt_linak.Base.{true, not, ◌&&◌, ◌||◌, List, [], ◌∷◌, ◌++◌, Text, text_eq, if◌then◌else◌}
use mqtt_linak.Config
use mqtt_linak.Config.{Config}
use mqtt_linak.Topics.{Numbers}
use mqtt_linak.Desk
use mqtt_linak.Desk.{Manager}
use mqtt_linak.Desk.Machine as DeskMachine
use mqtt_linak.Desk.Machine.{cancel, arrives}
use mqtt_linak.Mqttc
use mqtt_linak.Mqttc.{Subscription}
use mqtt_linak.Mqttc.Machine as ClientMachine
use mqtt_linak.Bridge.{on_discovery, on_disconnection}
use mqtt_linak.Bridge.Commands.{Handler}
unfoldable pub use State.*

module _ (c : Config) {F : Type 0} (nums : Numbers F) where
  -- A message goes to the handlers of the subscriptions whose filter is its topic: a filter with no
  -- wildcard matches no other.
  unfoldable pub deliver : List (Subscription Handler) → Text → Text → List Manager → List Manager
  unfolding update_at DeskMachine.step
  deliver [] topic payload ms = ms
  deliver (s ∷ ss) topic payload ms = deliver ss topic payload (
      if text_eq s.filter topic
      then (update_at (λ m. DeskMachine.step c nums m (arrives s.handler.1 payload)) s.handler.0
          ms).0
      else ms)

  unfoldable pub cancel_all : List Manager → List Manager
  unfolding DeskMachine.step
  cancel_all [] = []
  cancel_all (m ∷ ms) = (DeskMachine.step c nums m cancel).0 ∷ cancel_all ms

  unfoldable pub system_step : System → SystemEvent → System × List Output
  unfolding update_at absorb pass_on on_discovery on_disconnection deliver session_step
      republish_all cancel_all pumped scanner_step is_waited goodbye Mqttc.close
  system_step s (desk_event i e) =
      let (ms, out) = update_at (λ m. DeskMachine.step c nums m e) i s.bridge.desks in
      if is_own e
      then (
        record s { bridge = absorb out (record s.bridge { desks = ms }) },
        pass_on s.session.client i out,
      )
      else (s, [])
  system_step s (discovered p) = (pumped (on_discovery p s.bridge) s, [])
  system_step s (disconnection id) = (pumped (on_disconnection id s.bridge) s, [])
  system_step s (adapter_state on) =
      (pumped (if on then record s.bridge { scan_wake = true } else s.bridge) s, [])
  system_step s bluetooth_error = (s, [])
  system_step s (pump_ends closed) =
      (if closed || s.cancelled then record s { pump_over = true } else s, [])
  system_step s (scan_by w works) = if s.scanner_over then (s, []) else scanner_step w works s
  system_step s (delivered topic payload) = (
    record s {
      bridge = record s.bridge {
        desks = deliver s.session.client.subs topic payload s.bridge.desks;
      };
    },
    [],
  )
  system_step s (mqtt_event e) =
      let q = session_step s.session e in
      (
        record s { session = q },
        if not s.session.handled && q.handled
            then pass_on q.client 0 (republish_all c s.bridge.desks)
            else [],
      )
  system_step s finish = (
    record s {
      bridge = record s.bridge { desks = cancel_all s.bridge.desks };
      session = session_step s.session ClientMachine.cancel;
      cancelled = true;
    },
    [],
  )
  system_step s farewell =
      if is_waited s
      then (record s { parting = true }, pass_on s.session.client 0 (goodbye c s.bridge.desks))
      else (s, [])
  system_step s hang_up =
      if s.parting && not s.returned
      then (let (q, closing) = Mqttc.close s.session.client in
          (
            record s { session = record s.session { client = q }; returned = true },
            of_clients closing,
          ))
      else (s, [])

  unfoldable pub system_run : System → List SystemEvent → System × List Output
  unfolding system_step
  system_run s [] = (s, [])
  system_run s (e ∷ es) =
      let (s₁, out) = system_step s e in let (s₂, rest) = system_run s₁ es in (s₂, out ++ rest)
