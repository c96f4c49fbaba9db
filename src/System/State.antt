-- ===== src/System/State.antt =====
-- internal/bridge/bridge.go: the state of the program, what happens to it, and the pieces of `Run`,
-- `eventPump` and `scanController` between two waits.
use mqtt_linak.Base.{
  ℕ, zero, suc, Bool, true, false, not, ◌&&◌, List, [], ◌∷◌, ◌++◌, Text, text_eq, if◌then◌else◌,
}
use mqtt_linak.Config
use mqtt_linak.Config.{Config}
use mqtt_linak.Topics.{leaf_availability, metric_topic}
use mqtt_linak.Desk
use mqtt_linak.Desk.{
  Manager, Effect, publish, publish_retained, wake_scanner, delete_peripheral, online_payload,
  offline_payload, new_desk_manager, republish_state,
}
use mqtt_linak.Desk.Machine.{Event, go_on, end_round, receive, quit, reply, woken, timer, position}
use mqtt_linak.Mqttc
use mqtt_linak.Mqttc.{Client, Subscription, publish_metric}
use mqtt_linak.Mqttc.Machine as ClientMachine
use mqtt_linak.Mqttc.Machine.{Session, subscribes}
use mqtt_linak.Bridge.{
  Peripheral, Bridge, ScanCall, scan_round, scan_end, bridge_availability_topic,
}
use mqtt_linak.Bridge.Commands.{Handler, subscribe_commands}

pub record System : Type 0 where
  pub bridge : Bridge
  pub session : Session Handler
  -- whether the context has ended, a scan is on, and which of the goroutines of `Run`, besides the
  -- desks and the client, have returned; whether `Run` has said goodbye and sleeps, and whether it
  -- has returned
  pub cancelled : Bool
  pub scanning : Bool
  pub scanner_over : Bool
  pub pump_over : Bool
  pub parting : Bool
  pub returned : Bool

-- The ways out of the select of `scanController`.
pub data ScanWait : Type 0 where
  by_wake by_ticker by_end : ScanWait

pub data SystemEvent : Type 0 where
  -- an event of the desk at a place: of its goroutine, or a position
  desk_event : ℕ → Event → SystemEvent
  -- what the event pump receives: of a change of the adapter's state, whether it is powered on; it
  -- ends when a channel is closed, or by its context
  discovered : Peripheral → SystemEvent
  disconnection : Text → SystemEvent
  adapter_state : Bool → SystemEvent
  bluetooth_error : SystemEvent
  pump_ends : Bool → SystemEvent
  -- a round of the scan controller, and whether a scan would start
  scan_by : ScanWait → Bool → SystemEvent
  -- a message with its topic, the MQTT client's events, the end of the context, the goodbye of `Run`,
  -- and the end of its sleep behind that
  delivered : Text → Text → SystemEvent
  mqtt_event : ClientMachine.Event Handler → SystemEvent
  finish : SystemEvent
  farewell : SystemEvent
  hang_up : SystemEvent

-- What is asked of the packages below: by the desk at a place or the scan controller, or of the MQTT
-- connection.
pub data Output : Type 0 where
  of_desk : ℕ → Effect → Output
  of_client : Mqttc.Effect Handler → Output
  of_scanner : ScanCall → Output

-- The events that are a desk's own, and not the bridge's.
abbrev pub is_own : Event → Bool
is_own go_on = true
is_own (end_round r now) = true
is_own receive = true
is_own quit = true
is_own (reply r now) = true
is_own (woken w now) = true
is_own timer = true
is_own (position extension speed now) = true
is_own _ = false

unfoldable pub update_at :
    (Manager → Manager × List Effect) → ℕ → List Manager → List Manager × List Effect
update_at f i [] = ([], [])
update_at f zero (m ∷ ms) = let (m', out) = f m in (m' ∷ ms, out)
update_at f (suc i) (m ∷ ms) = let (ms', out) = update_at f i ms in (m ∷ ms', out)

-- `b.byPeripheral.Delete`
unfoldable pub delete_owner : Text → List (Text × ℕ) → List (Text × ℕ)
delete_owner key [] = []
delete_owner key (e ∷ es) =
    let rest = delete_owner key es in if text_eq key e.0 then rest else e ∷ rest

-- What a desk does to the bridge: it wakes the scan controller, or gives up its peripheral.
unfoldable pub absorb : List Effect → Bridge → Bridge
unfolding delete_owner
absorb [] b = b
absorb (wake_scanner ∷ es) b = absorb es (record b { scan_wake = true })
absorb (delete_peripheral key ∷ es) b =
    absorb es (record b { by_peripheral = delete_owner key b.by_peripheral })
absorb (_ ∷ es) b = absorb es b

abbrev pub of_clients : List (Mqttc.Effect Handler) → List Output
of_clients [] = []
of_clients (e ∷ es) = of_client e ∷ of_clients es

abbrev pub of_scans : List ScanCall → List Output
of_scans [] = []
of_scans (e ∷ es) = of_scanner e ∷ of_scans es

-- The publishes of a desk go through the client; the rest goes to the packages below.
unfoldable pub pass_on : Client Handler → ℕ → List Effect → List Output
unfolding publish_metric Mqttc.publish_retained
pass_on q i [] = []
pass_on q i (publish topic payload ∷ es) =
    of_clients (publish_metric q topic payload) ++ pass_on q i es
pass_on q i (publish_retained topic payload ∷ es) =
    of_clients (Mqttc.publish_retained q topic payload) ++ pass_on q i es
pass_on q i (e ∷ es) = of_desk i e ∷ pass_on q i es

-- `republishAll`
unfoldable pub republish_desks : Config → List Manager → List Effect
unfolding republish_state
republish_desks c [] = []
republish_desks c (m ∷ ms) = republish_state c m ++ republish_desks c ms

unfoldable pub republish_all : Config → List Manager → List Effect
unfolding republish_desks bridge_availability_topic
republish_all c ms =
    publish_retained (bridge_availability_topic c) online_payload ∷ republish_desks c ms

-- The end of `Run`: every desk is said to be offline, and then the bridge.
unfoldable pub goodbye : Config → List Manager → List Effect
unfolding bridge_availability_topic metric_topic
goodbye c [] = publish_retained (bridge_availability_topic c) offline_payload ∷ []
goodbye c (m ∷ ms) =
    publish_retained (metric_topic c.mqtt.metric_topic_base m.cfg.id leaf_availability)
      offline_payload
    ∷ goodbye c ms

-- The managers that `New` makes.
unfoldable pub new_desks : Config → List Config.Desk → List Manager
unfolding new_desk_manager
new_desks c [] = []
new_desks c (d ∷ ds) = new_desk_manager c d ∷ new_desks c ds

-- The program when its goroutines start.
unfoldable pub new_system : Config → System
unfolding new_desks subscribe_commands Mqttc.new
new_system c = record {
  bridge = record { desks = new_desks c c.desks; by_peripheral = []; seen = []; scan_wake = false };
  session = record {
    client = (subscribe_commands c.mqtt.command_topic_base 0 c.desks (Mqttc.new c.mqtt)).0;
    handled = false;
    asked = [];
  };
  cancelled = false;
  scanning = false;
  scanner_over = false;
  pump_over = false;
  parting = false;
  returned = false;
}

-- The events of the client's loop and of paho; commands are subscribed to at the start only.
unfoldable pub session_step : Session Handler → ClientMachine.Event Handler → Session Handler
unfolding ClientMachine.step
session_step q (subscribes filter h) = q
session_step q e = ClientMachine.step q e

-- A case of the event pump's select, unless the pump has returned.
unfoldable pub pumped : Bridge → System → System
pumped b s = if s.pump_over then s else record s { bridge = b }

-- A round of the scan controller behind its select.
unfoldable pub look : Bool → System → System × List Output
unfolding scan_round
look works s =
    let (scanning, calls) = scan_round works s.bridge.desks s.scanning in
    (record s { scanning = scanning }, of_scans calls)

unfoldable pub scanner_step : ScanWait → Bool → System → System × List Output
unfolding look scan_end
scanner_step by_wake works s =
    if s.bridge.scan_wake
    then look works (record s { bridge = record s.bridge { scan_wake = false } })
    else (s, [])
scanner_step by_ticker works s = look works s
scanner_step by_end works s =
    if s.cancelled
    then (let (scanning, calls) = scan_end s.scanning in
        (record s { scanning = scanning; scanner_over = true }, of_scans calls))
    else (s, [])

abbrev pub is_over : Desk.Place → Bool
is_over Desk.over = true
is_over _ = false

abbrev pub is_client_over : Mqttc.Place → Bool
is_client_over Mqttc.over = true
is_client_over _ = false

unfoldable pub all_over : List Manager → Bool
all_over [] = true
all_over (m ∷ ms) = is_over m.place && all_over ms

-- `wg.Wait` has come back, and `Run` goes on behind it.
unfoldable pub is_waited : System → Bool
unfolding all_over
is_waited s =
    (s.cancelled && (not s.parting && not s.returned))
    && ((s.pump_over && s.scanner_over)
        && (is_client_over s.session.client.place && all_over s.bridge.desks))
