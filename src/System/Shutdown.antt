-- ===== src/System/Shutdown.antt =====
-- internal/bridge/bridge.go: once the context has ended, `Run` returns.
use mqtt_linak.Base.{
  ℕ, ◌≤◌, ◌≡◌, refl, sym, ap, ◌∙◌, true, false, List, [], ◌∷◌, ◌++◌, map, All, length, arith,
}
use mathlib.Core.Path.{subst}
use mqtt_linak.Config.{Config}
use mqtt_linak.Topics.{Numbers}
use mqtt_linak.Desk.{Manager}
use mqtt_linak.Desk.Run.{Reply}
use mqtt_linak.Desk.Machine.{step}
use mqtt_linak.Mqttc
use mqtt_linak.Mqttc.Machine as ClientMachine
use mqtt_linak.Mqttc.Machine.{Session}
use mqtt_linak.Bridge.Commands.{Handler}
use mqtt_linak.System.{
  System, SystemEvent, mqtt_event, pump_ends, scan_by, by_end, finish, farewell, hang_up,
  is_client_over, all_over, is_waited, cancel_all, session_step, new_system, scanner_step,
  system_step, system_run,
}
use mqtt_linak.System.Closing.{IsCancelled, system_run-append, desks_closing, desks_closing-over}

-- What the client's loop does once its context has ended: a dial fails, and a wait ends.
abbrev pub client_closing : Mqttc.Place → List (ClientMachine.Event Handler)
client_closing Mqttc.top = ClientMachine.go_on ∷ []
client_closing Mqttc.dialling = ClientMachine.token false ∷ ClientMachine.quit ∷ []
client_closing Mqttc.up = ClientMachine.quit ∷ []
client_closing Mqttc.asleep = ClientMachine.quit ∷ []
client_closing Mqttc.over = []

abbrev session_run : Session Handler → List (ClientMachine.Event Handler) → Session Handler
session_run q [] = q
session_run q (e ∷ es) = session_run (session_step q e) es

client_closing-over :
    (p : Mqttc.Place) (q : Session Handler)
    → q.client.place ≡ p
    → q.client.cancelled ≡ true
    → is_client_over (session_run q (client_closing p)).client.place ≡ true
unfolding session_step ClientMachine.step ClientMachine.step_at
client_closing-over Mqttc.top q e h = ground arith
client_closing-over Mqttc.dialling q e h = ground arith
client_closing-over Mqttc.up q e h = ground arith
client_closing-over Mqttc.asleep q e h = ground arith
client_closing-over Mqttc.over q e h = ground arith

cancel-client :
    (p : Mqttc.Place) (q : Session Handler)
    → (ClientMachine.step_at p ClientMachine.cancel q).client.cancelled ≡ true
unfolding ClientMachine.step_at
cancel-client Mqttc.top q = refl
cancel-client _ q = refl

module _ (c : Config) {F : Type 0} (nums : Numbers F) where
  -- What all goroutines do once the context has ended: those of the desks, one behind the other,
  -- with the answers to the calls that they wait for, the client, the event pump and the scan
  -- controller; then `Run` itself.
  abbrev pub shutdown : List (Reply × ℕ) → System → List SystemEvent
  shutdown answers s =
      desks_closing c nums answers 0 s.bridge.desks
      ++ (map mqtt_event (client_closing s.session.client.place)
          ++ (pump_ends false ∷ scan_by by_end true ∷ farewell ∷ hang_up ∷ []))

  cancel_all-IsCancelled : (ms : List Manager) → All IsCancelled (cancel_all c nums ms)
  unfolding cancel_all step
  cancel_all-IsCancelled [] = tt
  cancel_all-IsCancelled (m ∷ ms) = (refl, cancel_all-IsCancelled ms)

  -- The client's events at work in the program.
  record Clients (s : System) (q : Session Handler) (s' : System) : Type 0 where
    session : s'.session ≡ q
    bridge : s'.bridge ≡ s.bridge
    cancelled : s'.cancelled ≡ s.cancelled
    returned : s'.returned ≡ s.returned

  run-Clients :
      (s : System) (es : List (ClientMachine.Event Handler))
      → Clients s (session_run s.session es) (system_run c nums s (map mqtt_event es)).0
  unfolding system_run system_step
  run-Clients s [] = record { session = refl; bridge = refl; cancelled = refl; returned = refl }
  run-Clients s (e ∷ es) =
      let h = run-Clients (system_step c nums s (mqtt_event e)).0 es in
      record {
        session = h.session;
        bridge = h.bridge;
        cancelled = h.cancelled;
        returned = h.returned;
      }

  last-returned :
      (s : System)
      → s.cancelled ≡ true
      → is_client_over s.session.client.place ≡ true
      → all_over s.bridge.desks ≡ true
      → (system_run c nums s
          (pump_ends false ∷ scan_by by_end true ∷ farewell ∷ hang_up ∷ [])).0.returned
        ≡ true
  unfolding system_run system_step scanner_step is_waited
  last-returned s h k o = ground (arith, h, k, o)

  shutdown-returned :
      (answers : List (Reply × ℕ)) (s : System)
      → 13 ≤ length answers
      → s.cancelled ≡ true
      → s.session.client.cancelled ≡ true
      → All IsCancelled s.bridge.desks
      → (system_run c nums s (shutdown answers s)).0.returned ≡ true
  unfolding all_over
  shutdown-returned answers s enough ended client desks =
      let own = desks_closing c nums answers 0 s.bridge.desks in
      let calls = client_closing s.session.client.place in
      let last : List SystemEvent =
        pump_ends false ∷ scan_by by_end true ∷ farewell ∷ hang_up ∷ [] in
      let s₁ = (system_run c nums s own).0 in
      let s₂ = (system_run c nums s₁ (map mqtt_event calls)).0 in
      let (over, same) =
        desks_closing-over c nums answers s 0 [] s.bridge.desks enough refl refl refl desks in
      let h = run-Clients s₁ calls in
      let client_over : is_client_over s₂.session.client.place ≡ true =
        ap (λ q. is_client_over q.client.place)
          (h.session ∙ ap (λ q. session_run q calls) same.session)
        ∙ client_closing-over s.session.client.place s.session refl client in
      ap (λ t. t.returned)
        (system_run-append c nums s own (map mqtt_event calls ++ last)
          ∙ system_run-append c nums s₁ (map mqtt_event calls) last)
      ∙ last-returned s₂ (h.cancelled ∙ (same.cancelled ∙ ended)) client_over
          (ap (λ b. all_over b.desks) h.bridge ∙ over)

  finish-cancelled :
      (s : System)
      → let s' = (system_step c nums s finish).0 in
        (s'.cancelled ≡ true)
        × (s'.session.client.cancelled ≡ true)
        × All IsCancelled s'.bridge.desks
  unfolding system_step session_step ClientMachine.step
  finish-cancelled s =
      (refl, cancel-client s.session.client.place s.session, cancel_all-IsCancelled s.bridge.desks)

  -- Whatever the program has been through, once its context has ended `Run` returns in the schedule
  -- that lets the goroutines of the desks go on one behind the other, each with answers, at least
  -- thirteen and whatever they are, to the calls that it waits for, then the client's loop, the event
  -- pump and the scan controller leave their waits, and then `Run` go on.
  pub system_run-returned :
      (es : List SystemEvent) (answers : List (Reply × ℕ))
      → 13 ≤ length answers
      → let s = (system_run c nums (new_system c) (es ++ finish ∷ [])).0 in
        (system_run c nums s (shutdown answers s)).0.returned ≡ true
  unfolding system_run
  system_run-returned es answers enough =
      let s = (system_run c nums (new_system c) es).0 in
      let (ended, client, desks) = finish-cancelled s in
      subst (λ t. (system_run c nums t (shutdown answers t)).0.returned ≡ true)
        (sym (system_run-append c nums (new_system c) es (finish ∷ [])))
        (shutdown-returned answers (system_step c nums s finish).0 enough ended client desks)
