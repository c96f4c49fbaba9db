-- ===== src/System/Wakeups.antt =====
-- internal/bridge/bridge.go, internal/bridge/desk.go: no wake-up of the scan controller is lost.
use mqtt_linak.Base.{
  ◌≡◌, refl, sym, ap, ◌∙◌, ◌⊎◌, inl, inr, ℕ, Bool, true, false, not, ◌&&◌, ◌||◌, Bool-cases, List,
  [], ◌∷◌, arith, if◌then◌else◌, append-nil,
}
use mathlib.Core.Path.{subst}
use mqtt_linak.Config
use mqtt_linak.Config.{Config}
use mqtt_linak.Topics.{Numbers}
use mqtt_linak.Desk.{Manager, Effect}
use mqtt_linak.Desk.Machine.{step}
use mqtt_linak.Desk.Machine.Wanted.{wakes}
use mqtt_linak.Mqttc
use mqtt_linak.Mqttc.Machine as ClientMachine
use mqtt_linak.Bridge.{Bridge, needs_scan, scan_end}
use mqtt_linak.Bridge.Commands.{Handler}
use mqtt_linak.System.{
  System, SystemEvent, desk_event, discovered, disconnection, adapter_state, bluetooth_error,
  pump_ends, scan_by, delivered, mqtt_event, finish, farewell, hang_up, ScanWait, by_wake,
  by_ticker, by_end, Output, of_clients, of_scans, is_own, update_at, absorb, pass_on,
  republish_all, goodbye, new_desks, new_system, session_step, look, scanner_step, is_waited,
  system_step, system_run,
}
use mqtt_linak.System.Absorb.{absorb-desks}
use mqtt_linak.System.Alerts.{
  refused, refused-append, refused-pass_on, Attentive, Alerts, Alerts-Attentive, absorb-wakes,
  absorb-silent, update_at-wakes, deliver-needs_scan, cancel_all-needs_scan, on_discovery-Alerts,
  on_disconnection-Alerts, adapter_state-Alerts, pumped-Attentive, look-Attentive,
}

-- A system whose bridge and scan controller are the same, with outputs that are not of the scan.
quiet-Attentive :
    (x : Bool) (s s' : System) (os : List Output)
    → s'.scanner_over ≡ s.scanner_over
    → s'.scanning ≡ s.scanning
    → Alerts s.bridge s'.bridge
    → refused x os ≡ x
    → Attentive x s
    → Attentive (refused x os) s'
quiet-Attentive x s s' os o sc a q h =
    subst (λ y. Attentive y s') (sym q) (Alerts-Attentive x s s' o sc a h)

refused-passed :
    (x : Bool) (q : Mqttc.Client Handler) (i : ℕ) (es : List Effect)
    → refused x (pass_on q i es) ≡ x
refused-passed x q i es =
    ap (refused x) (sym (append-nil (pass_on q i es))) ∙ refused-pass_on x q i es []

absorb-Alerts :
    (out : List Effect) (b : Bridge) (ms : List Manager)
    → (wakes out ≡ true) ⊎ (needs_scan ms ≡ needs_scan b.desks)
    → Alerts b (absorb out (record b { desks = ms }))
absorb-Alerts out b ms h = elim (Bool-cases (wakes out)) [
  | inl y ↦ inl (absorb-wakes out (record b { desks = ms }) (inl y))
  | inr n ↦ inr (
    absorb-silent out (record b { desks = ms }) n,
    ap needs_scan (absorb-desks out (record b { desks = ms })) ∙ ground (arith, h, n),
  )
]

abbrev Kept : Bool → System × List Output → Type 0
Kept x r = Attentive (refused x r.1) r.0

if-Kept :
    (x y : Bool) (r t : System × List Output) → Kept x r → Kept x t → Kept x (if y then r else t)
if-Kept x true r t h k = h
if-Kept x false r t h k = k

scanner_step-Attentive :
    (x : Bool) (w : ScanWait) (works : Bool) (s : System)
    → Attentive x s
    → Kept x (scanner_step w works s)
unfolding scanner_step
scanner_step-Attentive x by_wake works s h =
    let woken : System = record s { bridge = record s.bridge { scan_wake = false } } in
    if-Kept x s.bridge.scan_wake (look works woken) (s, []) (look-Attentive x works woken) h
scanner_step-Attentive x by_ticker works s h = look-Attentive x works s
scanner_step-Attentive x by_end works s h =
    let r = scan_end s.scanning in
    if-Kept x s.cancelled (record s { scanning = r.0; scanner_over = true }, of_scans r.1) (s, [])
      (inl refl) h

module _ (c : Config) {F : Type 0} (nums : Numbers F) where
  republished-refused :
      (x : Bool) (s : System) (e : ClientMachine.Event Handler)
      → refused x (system_step c nums s (mqtt_event e)).1 ≡ x
  unfolding system_step
  republished-refused x s e =
      let q = session_step s.session e in
      either (not s.session.handled && q.handled)
        (pass_on q.client 0 (republish_all c s.bridge.desks))
        (refused-passed x q.client 0 (republish_all c s.bridge.desks))
    where
      either :
          (b : Bool) (os : List Output) → refused x os ≡ x → refused x (if b then os else []) ≡ x
      either true os k = k
      either false os k = refl

  pump_ends-Attentive :
      (x b : Bool) (s : System)
      → Attentive x s
      → Attentive x (if b then record s { pump_over = true } else s)
  pump_ends-Attentive x true s h =
      Alerts-Attentive x s (record s { pump_over = true }) refl refl (inr (refl, refl)) h
  pump_ends-Attentive x false s h = h

  system_step-Attentive :
      (x : Bool) (s : System) (e : SystemEvent) → Attentive x s → Kept x (system_step c nums s e)
  unfolding system_step
  system_step-Attentive x s (desk_event i e) h =
      let r = update_at (λ m. step c nums m e) i s.bridge.desks in
      let s' = record s { bridge = absorb r.1 (record s.bridge { desks = r.0 }) } in
      let os = pass_on s.session.client i r.1 in
      if-Kept x (is_own e) (s', os) (s, [])
        (quiet-Attentive x s s' os refl refl
          (absorb-Alerts r.1 s.bridge r.0 (update_at-wakes c nums e i s.bridge.desks))
          (refused-passed x s.session.client i r.1) h)
        h
  system_step-Attentive x s (discovered p) h =
      pumped-Attentive x _ s (on_discovery-Alerts p s.bridge) h
  system_step-Attentive x s (disconnection id) h =
      pumped-Attentive x _ s (on_disconnection-Alerts id s.bridge) h
  system_step-Attentive x s (adapter_state on) h =
      pumped-Attentive x _ s (adapter_state-Alerts on s.bridge) h
  system_step-Attentive x s bluetooth_error h = h
  system_step-Attentive x s (pump_ends closed) h = pump_ends-Attentive x (closed || s.cancelled) s h
  system_step-Attentive x s (scan_by w works) h =
      if-Kept x s.scanner_over (s, []) (scanner_step w works s) h
        (scanner_step-Attentive x w works s h)
  system_step-Attentive x s (delivered topic payload) h =
      Alerts-Attentive x s (system_step c nums s (delivered topic payload)).0 refl refl
        (inr (refl, deliver-needs_scan c nums s.session.client.subs topic payload s.bridge.desks)) h
  system_step-Attentive x s (mqtt_event e) h =
      let r = system_step c nums s (mqtt_event e) in
      quiet-Attentive x s r.0 r.1 refl refl (inr (refl, refl)) (republished-refused x s e) h
  system_step-Attentive x s finish h =
      Alerts-Attentive x s (system_step c nums s finish).0 refl refl
        (inr (refl, cancel_all-needs_scan c nums s.bridge.desks)) h
  system_step-Attentive x s farewell h =
      let gone : System = record s { parting = true } in
      let os = pass_on s.session.client 0 (goodbye c s.bridge.desks) in
      if-Kept x (is_waited s) (gone, os) (s, [])
        (quiet-Attentive x s gone os refl refl (inr (refl, refl))
          (ap (refused x) (sym (append-nil os))
            ∙ refused-pass_on x s.session.client 0 (goodbye c s.bridge.desks) [])
          h)
        h
  system_step-Attentive x s hang_up h =
      let gone : System = record s {
        session = record s.session { client = (Mqttc.close s.session.client).0 };
        returned = true;
      } in
      let os = of_clients (Mqttc.close s.session.client).1 in
      if-Kept x (s.parting && not s.returned) (gone, os) (s, [])
        (quiet-Attentive x s gone os refl refl (inr (refl, refl)) refl h) h

  run-Attentive :
      (x : Bool) (s : System) (es : List SystemEvent)
      → Attentive x s
      → Kept x (system_run c nums s es)
  unfolding system_run
  run-Attentive x s [] h = h
  run-Attentive x s (e ∷ es) h =
      let (s₁, out) = system_step c nums s e in
      let (s₂, rest) = system_run c nums s₁ es in
      subst (λ y. Attentive y s₂) (sym (refused-append x out rest))
        (run-Attentive (refused x out) s₁ es (system_step-Attentive x s e h))

  new_desks-needs_scan : (ds : List Config.Desk) → needs_scan (new_desks c ds) ≡ false
  unfolding new_desks needs_scan
  new_desks-needs_scan [] = refl
  new_desks-needs_scan (d ∷ ds) = new_desks-needs_scan ds

  -- After any history of the program, while the scan controller runs and no wake-up waits for it, the
  -- scan is on exactly if some desk waits to be found, unless it is off because the last try to
  -- start it has failed.
  pub system_run-Attentive :
      (es : List SystemEvent)
      → let s = system_run c nums (new_system c) es in
        s.0.scanner_over ≡ false
        → s.0.bridge.scan_wake ≡ false
        → (s.0.scanning ≡ needs_scan s.0.bridge.desks)
          ⊎ ((s.0.scanning ≡ false) × (refused false s.1 ≡ true))
  unfolding new_system
  system_run-Attentive es o w =
      let h =
        run-Attentive false (new_system c) es
          (inr (inr (inl (sym (new_desks-needs_scan c.desks))))) in
      ground (arith, h, o, w)
