-- ===== src/System/Safety.antt =====
-- internal/bridge/bridge.go, internal/bridge/desk.go: what the program writes to its desks.
use mqtt_linak.Base.{
  member₂, ℕ, ◌≤◌, ◌≡◌, sym, ap, ◌∙◌, Bool, Bool-cases, inl, inr, true, false, not, ◌&&◌, some,
  List, [], ◌∷◌, Any, All, get_elem?, Text, ok,
}
use mathlib.Core.Path.{subst}
use mqtt_linak.Config
use mqtt_linak.Config.{Config}
use mqtt_linak.Topics.{Numbers, command_topic, max_tenths_mm, parse_tenths_mm}
use mqtt_linak.Desk.{kind_string, Command, Manager, new_desk_manager}
use mqtt_linak.Desk.Machine.{Event, step, run}
use mqtt_linak.Desk.Machine.Writes.{Writes, AllQueued, step-AllQueued, run-Writes, Heads-All}
use mqtt_linak.Mqttc
use mqtt_linak.Mqttc.{Client}
use mqtt_linak.Mqttc.Machine as ClientMachine
use mqtt_linak.Bridge.{scan_round, scan_end}
use mqtt_linak.Bridge.Commands.{Handler}
use mqtt_linak.System.{
  System, SystemEvent, desk_event, discovered, disconnection, delivered, mqtt_event, finish,
  farewell, hang_up, adapter_state, bluetooth_error, pump_ends, scan_by, ScanWait, by_wake,
  by_ticker, by_end, look, is_waited, goodbye, scanner_step, is_own, update_at, republish_all,
  new_system, session_step, system_step, system_run,
}
use mqtt_linak.System.Desks.{messages, Heard, HasHistory}
use mqtt_linak.System.Histories.{system_run-HasHistory}
use mqtt_linak.System.Quiet.{
  Carries, of_scans-quiet, Says, of_clients-Carries, pass_on-Carries, update_at-Any,
  republish_all-quiet, goodbye-quiet,
}

module _ (c : Config) {F : Type 0} (nums : Numbers F) where
  Asked : List (Text × Text) → Text → Command → Type 0
  Asked rs id cmd = Any (Says nums c.mqtt.command_topic_base id cmd) rs

  Heard-Asked :
      (rs : List (Text × Text)) (id payload : Text) (cmd : Command)
      → parse_tenths_mm nums payload ≡ ok cmd.value
      → Any
          (λ r. r ≡ (command_topic c.mqtt.command_topic_base id (kind_string cmd.kind), payload))
          rs
      → Asked rs id cmd
  unfolding Asked
  Heard-Asked [] id payload cmd p h = h
  Heard-Asked (r ∷ rs) id payload cmd p (inl h) = inl (cc (h), cc (h, p))
  Heard-Asked (r ∷ rs) id payload cmd p (inr h) = inr (Heard-Asked rs id payload cmd p h)

  -- A desk that has gone through what the messages said has only their commands in its queue.
  run-Asked :
      (all : List SystemEvent) (d : Config.Desk) (m : Manager) (es : List Event)
      → All (Heard c all d) es
      → AllQueued (Asked (messages all) d.id) m
      → AllQueued (Asked (messages all) d.id) (run c nums m es).0
  unfolding run
  run-Asked all d m [] _ f = f
  run-Asked all d m (e ∷ es) (heard, rest) f = run-Asked all d (step c nums m e).0 es rest (
      step-AllQueued c nums (Asked (messages all) d.id) m e
        (λ kind payload n at p.
          Heard-Asked (messages all) d.id payload (record { kind = kind; value = n }) p
            (heard.command kind payload at))
        f)

  new-Asked :
      (rs : List (Text × Text)) (id : Text) (d : Config.Desk)
      → AllQueued (Asked rs id) (new_desk_manager c d)
  unfolding new_desk_manager
  new-Asked rs id d = tt

  -- What a desk of the program writes, at any of its places.
  desk-Says :
      (es : List SystemEvent) (i : ℕ) (m : Manager) (e : Event) (cmd : Command)
      → get_elem? (system_run c nums (new_system c) es).0.bridge.desks i ≡ some m
      → Any (Writes cmd) (step c nums m e).1
      → (d : Config.Desk) × (get_elem? c.desks i ≡ some d)
        × Any (Says nums c.mqtt.command_topic_base d.id cmd) (messages es)
        × (m.online ≡ true)
        × (cmd.value ≤ max_tenths_mm)
  unfolding Asked
  desk-Says es i m e cmd at h =
      let (d, place, (own, heard, there)) =
        member₂ (HasHistory c nums es) c.desks (system_run c nums (new_system c) es).0.bridge.desks
          i m (system_run-HasHistory c nums es) at in
      let wrote : Any (Writes cmd) (step c nums (run c nums (new_desk_manager c d) own).0 e).1 =
        rw there h in
      let (serves, heads, online, stream, small) = run-Writes c nums d own e cmd wrote in
      let asked =
        run-Asked es d (new_desk_manager c d) own heard (new-Asked (messages es) d.id d) in
      (
        d,
        place,
        Heads-All c nums (Asked (messages es) d.id) cmd _ heads asked,
        ap (λ x. x.online) (sym there) ∙ online,
        small,
      )

  -- What the program knows of a command that a desk is asked to carry out.
  abbrev Accounted : List SystemEvent → ℕ → Command → Type 0
  Accounted es i cmd =
      (d : Config.Desk) × (get_elem? c.desks i ≡ some d)
      × Any (Says nums c.mqtt.command_topic_base d.id cmd) (messages es)
      × (cmd.value ≤ max_tenths_mm)

  desk_event-Says :
      (es : List SystemEvent) (j : ℕ) (e : Event) (i : ℕ) (cmd : Command)
      → let s = (system_run c nums (new_system c) es).0 in
        Any (Carries i cmd) (system_step c nums s (desk_event j e)).1 → Accounted es i cmd
  unfolding system_step
  desk_event-Says es j e i cmd h = elim (Bool-cases (is_own e)) [
    | inr n ↦ absurd (rw n at h)
    | inl y ↦
        let s = (system_run c nums (new_system c) es).0 in
        let (same, wrote) =
          pass_on-Carries s.session.client i j cmd
            (update_at (λ m. step c nums m e) j s.bridge.desks).1 (rw y at h) in
        let (m, at, w) = update_at-Any (Writes cmd) (λ m. step c nums m e) j s.bridge.desks wrote in
        let (d, place, said, online, small) = desk-Says es j m e cmd at w in
        (d, subst (λ k. get_elem? c.desks k ≡ some d) same place, said, small)
  ]

  mqtt_event-quiet :
      (s : System) (e : ClientMachine.Event Handler) (i : ℕ) (cmd : Command)
      → Any (Carries i cmd) (system_step c nums s (mqtt_event e)).1
      → ⊥
  unfolding system_step
  mqtt_event-quiet s e i cmd h =
      let q = session_step s.session e in
      elim (Bool-cases (not s.session.handled && q.handled)) [
        | inr n ↦ rw n at h
        | inl y ↦
            republish_all-quiet c cmd s.bridge.desks
              (pass_on-Carries q.client i 0 cmd (republish_all c s.bridge.desks) (rw y at h)).1
      ]

  look-quiet :
      (works : Bool) (s : System) (i : ℕ) (cmd : Command) → Any (Carries i cmd) (look works s).1 → ⊥
  unfolding look
  look-quiet works s i cmd h = of_scans-quiet i cmd (scan_round works s.bridge.desks s.scanning).1 h

  scan_by-quiet :
      (s : System) (w : ScanWait) (works : Bool) (i : ℕ) (cmd : Command)
      → Any (Carries i cmd) (scanner_step w works s).1
      → ⊥
  unfolding scanner_step
  scan_by-quiet s by_wake works i cmd h = elim (Bool-cases s.bridge.scan_wake) [
    | inr n ↦ rw (scanner_step, n) at h
    | inl y ↦
        look-quiet works (record s { bridge = record s.bridge { scan_wake = false } }) i cmd
          (simp (scanner_step, y) at h)
  ]
  scan_by-quiet s by_ticker works i cmd h = look-quiet works s i cmd h
  scan_by-quiet s by_end works i cmd h = elim (Bool-cases s.cancelled) [
    | inr n ↦ rw (scanner_step, n) at h
    | inl y ↦ of_scans-quiet i cmd (scan_end s.scanning).1 (simp (scanner_step, y) at h)
  ]

  farewell-quiet :
      (s : System) (i : ℕ) (cmd : Command)
      → Any (Carries i cmd) (system_step c nums s farewell).1
      → ⊥
  unfolding system_step Mqttc.close
  farewell-quiet s i cmd h = elim (Bool-cases (is_waited s)) [
    | inr n ↦ rw (system_step, n) at h
    | inl y ↦
        goodbye-quiet c cmd s.bridge.desks
          (pass_on-Carries s.session.client i 0 cmd (goodbye c s.bridge.desks)
            (simp (system_step, y) at h)).1
  ]

  hang_up-quiet :
      (s : System) (i : ℕ) (cmd : Command)
      → Any (Carries i cmd) (system_step c nums s hang_up).1
      → ⊥
  unfolding system_step Mqttc.close
  hang_up-quiet s i cmd h = elim (Bool-cases (s.parting && not s.returned)) [
    | inr n ↦ rw (system_step, n) at h
    | inl y ↦
        of_clients-Carries i cmd (Mqttc.close s.session.client).1 [] (simp (system_step, y) at h)
  ]

  -- After any history of the program, a command that a desk is asked to carry out next is what some
  -- message of that history said on the topic of this desk for the kind of the command, and its
  -- value is at most 65535.
  pub system_run-Says :
      (es : List SystemEvent) (e : SystemEvent) (i : ℕ) (cmd : Command)
      → Any (Carries i cmd) (system_step c nums (system_run c nums (new_system c) es).0 e).1
      → (d : Config.Desk) × (get_elem? c.desks i ≡ some d)
        × Any (Says nums c.mqtt.command_topic_base d.id cmd) (messages es)
        × (cmd.value ≤ max_tenths_mm)
  unfolding system_step
  system_run-Says es (desk_event j e) i cmd h = desk_event-Says es j e i cmd h
  system_run-Says es (mqtt_event e) i cmd h =
      absurd (mqtt_event-quiet (system_run c nums (new_system c) es).0 e i cmd h)
  system_run-Says es (discovered p) i cmd h = absurd h
  system_run-Says es (disconnection id) i cmd h = absurd h
  system_run-Says es (delivered topic payload) i cmd h = absurd h
  system_run-Says es finish i cmd h = absurd h
  system_run-Says es (adapter_state on) i cmd h = absurd h
  system_run-Says es bluetooth_error i cmd h = absurd h
  system_run-Says es (pump_ends closed) i cmd h = absurd h
  system_run-Says es (scan_by w works) i cmd h =
      let s = (system_run c nums (new_system c) es).0 in
      elim (Bool-cases s.scanner_over) [
        | inl y ↦ absurd (rw y at h)
        | inr n ↦ absurd (scan_by-quiet s w works i cmd (rw n at h))
      ]
  system_run-Says es farewell i cmd h =
      absurd (farewell-quiet (system_run c nums (new_system c) es).0 i cmd h)
  system_run-Says es hang_up i cmd h =
      absurd (hang_up-quiet (system_run c nums (new_system c) es).0 i cmd h)
