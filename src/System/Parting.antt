-- ===== src/System/Parting.antt =====
-- internal/bridge/bridge.go: `Run` sleeps between its goodbye and the deferred Close.
use mqtt_linak.Base.{◌≡◌, refl, ◌∙◌, Bool, true, false, not, ◌&&◌, List, [], arith, if◌then◌else◌}
use mqtt_linak.Config.{Config}
use mqtt_linak.Topics.{Numbers}
use mqtt_linak.Mqttc
use mqtt_linak.Mqttc.{Client, disconnect}
use mqtt_linak.Mqttc.Machine as ClientMachine
use mqtt_linak.Mqttc.Machine.{
  Session, go_on, accepted, token, greeted, dropped, lost_seen, timer, quit, cancel, subscribes,
}
use mqtt_linak.Bridge.{scan_round, scan_end}
use mqtt_linak.Bridge.Commands.{Handler}
use mqtt_linak.System.{
  of_scans, System, SystemEvent, desk_event, discovered, disconnection, adapter_state,
  bluetooth_error, pump_ends, scan_by, delivered, mqtt_event, finish, farewell, hang_up, pumped,
  look, ScanWait, by_wake, by_ticker, by_end, Output, session_step, scanner_step, is_client_over,
  is_waited, system_step,
}
use mqtt_linak.System.Silence.{client_calls, client_calls-scans}

-- `Run` has said goodbye and sleeps.
abbrev pub Parted : System → Type 0
Parted s = (s.parting && not s.returned ≡ true) × (is_client_over s.session.client.place ≡ true)

-- What may happen in that sleep, but for the events of desks and the connect handler.
abbrev pub is_quiet : SystemEvent → Bool
is_quiet (desk_event i e) = false
is_quiet (mqtt_event greeted) = false
is_quiet hang_up = false
is_quiet _ = true

-- What is left of a step in that sleep, which asks nothing of the client.
abbrev pub Quiet : System × List Output → Type 0
Quiet r = Parted r.0 × (client_calls r.1 ≡ [])

module _ (c : Config) {F : Type 0} (nums : Numbers F) where
  pub waited-not_returned : (s : System) → is_waited s ≡ true → true && not s.returned ≡ true
  unfolding is_waited
  waited-not_returned s h = ground (arith, h)

  Parted-not_waited : (s : System) → Parted s → is_waited s ≡ false
  unfolding is_waited
  Parted-not_waited s (p, o) = ground (arith, p)

  pub waited-over : (s : System) → is_waited s ≡ true → is_client_over s.session.client.place ≡ true
  unfolding is_waited
  waited-over s h = ground (arith, h)

  Parted-over :
      (p : Mqttc.Place) (e : ClientMachine.Event Handler) (q : Session Handler)
      → is_client_over p ≡ true
      → is_quiet (mqtt_event e) ≡ true
      → q.client.place ≡ p
      → let t = ClientMachine.step_at p e q in
        (is_client_over t.client.place ≡ true) × (t.handled ≡ q.handled)
  unfolding ClientMachine.step_at
  Parted-over Mqttc.over e q o n at = ground arith
  Parted-over _ e q o n at = absurd (cc)

  session_step-Parted :
      (e : ClientMachine.Event Handler) (q : Session Handler)
      → is_client_over q.client.place ≡ true
      → is_quiet (mqtt_event e) ≡ true
      → (is_client_over (session_step q e).client.place ≡ true)
        × ((session_step q e).handled ≡ q.handled)
  unfolding session_step ClientMachine.step
  session_step-Parted (subscribes filter h) q o n = (o, refl)
  session_step-Parted e q o n = Parted-over q.client.place e q o n refl

  unhandled :
      (a b : Bool) (out : List Output) → b ≡ a → client_calls (if not a && b then out else []) ≡ []
  unhandled true b out e = refl
  unhandled false b out e = rw e refl

  same-Parted :
      (s s' : System)
      → (s'.parting && not s'.returned) ≡ (s.parting && not s.returned)
      → is_client_over s'.session.client.place ≡ is_client_over s.session.client.place
      → Parted s
      → Parted s'
  same-Parted s s' e o (p, q) = (e ∙ p, o ∙ q)

  if-Quiet :
      (b : Bool) (x y : System × List Output) → Quiet x → Quiet y → Quiet (if b then x else y)
  if-Quiet true x y h k = h
  if-Quiet false x y h k = k

  look-Quiet : (s : System) (works : Bool) → Parted s → Quiet (look works s)
  unfolding look
  look-Quiet s works h = (h, client_calls-scans (scan_round works s.bridge.desks s.scanning).1)

  scanner_step-Quiet :
      (s : System) (w : ScanWait) (works : Bool) → Parted s → Quiet (scanner_step w works s)
  unfolding scanner_step
  scanner_step-Quiet s by_wake works h =
      let woken : System = record s { bridge = record s.bridge { scan_wake = false } } in
      if-Quiet s.bridge.scan_wake (look works woken) (s, []) (look-Quiet woken works h) (h, refl)
  scanner_step-Quiet s by_ticker works h = look-Quiet s works h
  scanner_step-Quiet s by_end works h =
      let r = scan_end s.scanning in
      if-Quiet s.cancelled (record s { scanning = r.0; scanner_over = true }, of_scans r.1) (s, [])
        (h, client_calls-scans r.1) (h, refl)

  pub system_step-Quiet :
      (s : System) (e : SystemEvent) → is_quiet e ≡ true → Parted s → Quiet (system_step c nums s e)
  unfolding system_step pumped
  system_step-Quiet s (desk_event i e) n h = absurd (cc)
  system_step-Quiet s hang_up n h = absurd (cc)
  system_step-Quiet s (discovered p) n h =
      (same-Parted s (system_step c nums s (discovered p)).0 (ground arith) (ground arith) h, refl)
  system_step-Quiet s (disconnection id) n h = (
    same-Parted s (system_step c nums s (disconnection id)).0 (ground arith) (ground arith) h,
    refl,
  )
  system_step-Quiet s (adapter_state on) n h = (
    same-Parted s (system_step c nums s (adapter_state on)).0 (ground arith) (ground arith) h,
    refl,
  )
  system_step-Quiet s bluetooth_error n h = (h, refl)
  system_step-Quiet s (pump_ends closed) n h = (ground (arith, h), ground arith)
  system_step-Quiet s (scan_by w works) n h =
      if-Quiet s.scanner_over (s, []) (scanner_step w works s) (h, refl)
        (scanner_step-Quiet s w works h)
  system_step-Quiet s (delivered topic payload) n h = (h, refl)
  system_step-Quiet s (mqtt_event e) n (p, o) =
      let k = session_step-Parted e s.session o n in
      ((p, k.0), unhandled s.session.handled (session_step s.session e).handled _ k.1)
  system_step-Quiet s finish n (p, o) =
      ((p, (session_step-Parted ClientMachine.cancel s.session o refl).0), refl)
  system_step-Quiet s farewell n h = rw (Parted-not_waited s h) (h, refl)
