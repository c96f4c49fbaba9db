-- ===== src/Run.antt =====
-- internal/bridge/bridge.go: `Run`, from the start of the helper to the deferred calls. What the
-- Bluetooth package answers to the start of its helper is a parameter; `State` is asked for the log
-- only. What happens while `Run` waits is a history of the program.
pub mod Ways
pub mod Completes
pub mod Wills
use mqtt_linak.Base.{
  Bool, Option, none, some, List, [], ◌∷◌, ◌++◌, Text, Result, ok, err, if◌then◌else◌,
}
use mqtt_linak.Config.{Bluetooth, Config}
use mqtt_linak.Topics.{Numbers}
use mqtt_linak.Desk.{publish_retained, online_payload}
use mqtt_linak.Mqttc.{Client}
use mqtt_linak.Mqttc.Options.{ClientOptions, PahoLogging, silent, new_client}
use mqtt_linak.Bridge.{ScanCall, bridge_availability_topic}
use mqtt_linak.Bridge.Commands.{Handler, subscribe_commands}
use mqtt_linak.System.{
  System, SystemEvent, Output, of_desk, of_client, of_scanner, of_clients, pass_on, new_system,
  system_run,
}

-- What `Run` asks of the packages, in its order: a client is made with the loggers of its package wired,
-- and a scan is asked for with its service UUIDs.
pub data RunCall : Type 0 where
  start_helper : Text → RunCall
  ask_state : RunCall
  make_client : PahoLogging → ClientOptions → RunCall
  scan_call : List Text → ScanCall → RunCall
  during : Output → RunCall
  close_helper : RunCall

-- It waits for something, has failed, or has got through.
pub data Ending (E A : Type 0) : Type 0 where
  waits : Ending E A
  fails : E → Ending E A
  gives : A → Ending E A

pub data RunError (E : Type 0) : Type 0 where
  starting_helper : E → RunError E
  connecting_mqtt : E → RunError E

abbrev pub Job : Type 0 → Type 0 → Type 0
Job E A = List RunCall × Ending E A

infixl 5 ◌>>=◌ ◌>>◌
abbrev ◌>>=◌ : {E A B : Type 0} → Job E A → (A → Job E B) → Job E B
(calls, waits) >>= next = (calls, waits)
(calls, fails e) >>= next = (calls, fails e)
(calls, gives a) >>= next = let (more, r) = next a in (calls ++ more, r)

abbrev ◌>>◌ : {E B : Type 0} → Job E (Unit {0}) → Job E B → Job E B
job >> next = job >>= (λ _. next)

abbrev call : {E : Type 0} → RunCall → Job E (Unit {0})
call x = (x ∷ [], gives tt)

-- `if err != nil { return … }`
abbrev check_none : {E : Type 0} → Option E → Job (RunError E) (Unit {0})
check_none none = ([], gives tt)
check_none (some e) = ([], fails (starting_helper e))

abbrev check_ok : {E A : Type 0} → Result E A → Job (RunError E) A
check_ok (ok a) = ([], gives a)
check_ok (err e) = ([], fails (connecting_mqtt e))

-- `defer`: the call is made when the rest is over, however it ends.
unfoldable pub deferred : {E A : Type 0} → RunCall → Job E A → Job E A
deferred x (calls, waits) = (calls, waits)
deferred x (calls, fails e) = (calls ++ x ∷ [], fails e)
deferred x (calls, gives a) = (calls ++ x ∷ [], gives a)

-- `DefaultScanServiceUUIDs` is empty.
unfoldable pub scan_uuids : Bluetooth → List Text
scan_uuids bt = elim bt.scan_service_uuids [ none ↦ [] | some uuids ↦ uuids ]

unfoldable pub calls_of : List Text → List Output → List RunCall
calls_of uuids [] = []
calls_of uuids (of_scanner x ∷ os) = scan_call uuids x ∷ calls_of uuids os
calls_of uuids (o ∷ os) = during o ∷ calls_of uuids os

-- With its client, `Run` subscribes to the commands and says that the bridge is online.
unfoldable pub launch : Config → Client Handler → System × List Output
unfolding new_system subscribe_commands pass_on bridge_availability_topic
launch c q =
    let (q₁, asked) = subscribe_commands c.mqtt.command_topic_base 0 c.desks q in
    (
      record (new_system c) { session = record (new_system c).session { client = q₁ } },
      of_clients asked
          ++ pass_on q₁ 0 (publish_retained (bridge_availability_topic c) online_payload ∷ []),
    )

module _ (c : Config) {F : Type 0} (nums : Numbers F) where
  -- The goroutines, from their start until `Run` returns. The end of `Run` is the events `farewell`
  -- and, behind its sleep, `hang_up`, with the deferred Close of the client.
  unfoldable pub serve : {E : Type 0} → Client Handler → List SystemEvent → Job E (Unit {0})
  unfolding launch system_run calls_of scan_uuids
  serve q es =
      let (s, first) = launch c q in
      let (s₁, out) = system_run c nums s es in
      (calls_of (scan_uuids c.bluetooth) (first ++ out), if s₁.returned then gives tt else waits)

  unfoldable pub run_bridge :
      {E : Type 0} → (Text → Option E) → List SystemEvent → Job (RunError E) (Unit {0})
  unfolding deferred new_client serve
  run_bridge start es = do
    call (start_helper c.bluetooth.helper_path)
    check_none (start c.bluetooth.helper_path)
    deferred close_helper (do
      call ask_state
      made ← check_ok (new_client silent c.mqtt (bridge_availability_topic c))
      call (make_client made.0 made.1)
      serve made.2 es)
