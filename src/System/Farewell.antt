-- ===== src/System/Farewell.antt =====
-- internal/bridge/bridge.go: what `Run` asks of the broker when its goroutines have returned.
use mqtt_linak.Base.{
  ◌≡◌, refl, ap, ◌∙◌, Bool, true, false, not, ◌&&◌, ◌||◌, List, [], ◌∷◌, ◌++◌, arith, if◌then◌else◌,
  All, sym,
}
use mqtt_linak.Config.{Config}
use mqtt_linak.Topics.{Numbers}
use mqtt_linak.Desk.Machine.{step}
use mqtt_linak.Mqttc
use mqtt_linak.Mqttc.{Client, disconnect}
use mqtt_linak.Mqttc.Machine as ClientMachine
use mqtt_linak.Mqttc.Machine.{
  Session, go_on, accepted, token, greeted, dropped, lost_seen, timer, quit, cancel, subscribes,
}
use mqtt_linak.Bridge.Commands.{Handler}
use mqtt_linak.System.{
  System, SystemEvent, desk_event, discovered, disconnection, adapter_state, bluetooth_error,
  pump_ends, scan_by, delivered, mqtt_event, finish, farewell, hang_up, Output, of_clients, is_own,
  update_at, absorb, pass_on, republish_all, goodbye, session_step, scanner_step, is_client_over,
  is_waited, system_step, system_run,
}
use mqtt_linak.System.Silence.{
  client_calls, last_words, client_calls-append, pass_on-closed, goodbye-last_words, Gone, Stays,
  session_step-Gone, same-Gone, if-Stays, if-Gone, pumped-Gone, scanner_step-Stays, not_waited,
}
use mqtt_linak.System.Parting.{
  Parted, is_quiet, waited-not_returned, waited-over, system_step-Quiet,
}

hung_up : (a b : Bool) → b ≡ true → a && not b ≡ false
hung_up a b h = ground (arith, h)

module _ (c : Config) {F : Type 0} (nums : Numbers F) where
  republished-silent :
      (s : System) (e : ClientMachine.Event Handler)
      → Gone s
      → client_calls (system_step c nums s (mqtt_event e)).1 ≡ []
  unfolding system_step
  republished-silent s e g =
      let q = session_step s.session e in
      either (not s.session.handled && q.handled)
        (pass_on q.client 0 (republish_all c s.bridge.desks))
        (pass_on-closed q.client 0 (republish_all c s.bridge.desks)
          (session_step-Gone s.session e g.over g.closed).0)
    where
      either :
          (b : Bool) (os : List Output)
          → client_calls os ≡ []
          → client_calls (if b then os else []) ≡ []
      either true os k = k
      either false os k = refl

  session-Gone :
      (s s' : System) (e : ClientMachine.Event Handler)
      → s'.returned ≡ s.returned
      → s'.session ≡ session_step s.session e
      → Gone s
      → Gone s'
  session-Gone s s' e r q g =
      let (closed, over) = session_step-Gone s.session e g.over g.closed in
      record {
        returned = r ∙ g.returned;
        closed = ap (λ x. x.client.is_open) q ∙ closed;
        over = ap (λ x. is_client_over x.client.place) q ∙ over;
      }

  system_step-Stays : (s : System) (e : SystemEvent) → Gone s → Stays (system_step c nums s e)
  unfolding system_step
  system_step-Stays s (desk_event i e) g =
      let r = update_at (λ m. step c nums m e) i s.bridge.desks in
      let s' : System = record s { bridge = absorb r.1 (record s.bridge { desks = r.0 }) } in
      if-Stays (is_own e) (s', pass_on s.session.client i r.1) (s, [])
        (λ y. record {
          gone = same-Gone s s' refl refl g;
          silent = pass_on-closed s.session.client i r.1 g.closed;
        })
        (λ n. record { gone = g; silent = refl })
  system_step-Stays s (discovered p) g = record { gone = pumped-Gone _ s g; silent = refl }
  system_step-Stays s (disconnection id) g = record { gone = pumped-Gone _ s g; silent = refl }
  system_step-Stays s (adapter_state on) g = record { gone = pumped-Gone _ s g; silent = refl }
  system_step-Stays s bluetooth_error g = record { gone = g; silent = refl }
  system_step-Stays s (pump_ends closed) g = record {
    gone =
        if-Gone (closed || s.cancelled) (record s { pump_over = true }) s
          (same-Gone s (record s { pump_over = true }) refl refl g) g;
    silent = refl;
  }
  system_step-Stays s (scan_by w works) g =
      if-Stays s.scanner_over (s, []) (scanner_step w works s)
        (λ y. record { gone = g; silent = refl }) (λ n. scanner_step-Stays s w works g)
  system_step-Stays s (delivered topic payload) g = record {
    gone = same-Gone s (system_step c nums s (delivered topic payload)).0 refl refl g;
    silent = refl;
  }
  system_step-Stays s (mqtt_event e) g = record {
    gone = session-Gone s (system_step c nums s (mqtt_event e)).0 e refl refl g;
    silent = republished-silent s e g;
  }
  system_step-Stays s finish g = record {
    gone = session-Gone s (system_step c nums s finish).0 ClientMachine.cancel refl refl g;
    silent = refl;
  }
  system_step-Stays s farewell g = rw (not_waited s g) (record { gone = g; silent = refl })
  system_step-Stays s hang_up g =
      rw (hung_up s.parting s.returned g.returned) (record { gone = g; silent = refl })

  system_run-silent :
      (s : System) (es : List SystemEvent) → Gone s → client_calls (system_run c nums s es).1 ≡ []
  unfolding system_run
  system_run-silent s [] g = refl
  system_run-silent s (e ∷ es) g =
      let h = system_step-Stays s e g in
      let (s₁, out) = system_step c nums s e in
      client_calls-append out (system_run c nums s₁ es).1
      ∙ (ap (λ x. x ++ client_calls (system_run c nums s₁ es).1) h.silent
          ∙ system_run-silent s₁ es h.gone)

  -- In the sleep of `Run` nothing is asked of the client, and behind it one Disconnect.
  sleep-disconnect :
      (s : System) (es rest : List SystemEvent)
      → All (λ e. is_quiet e ≡ true) es
      → Parted s
      → client_calls (system_run c nums s (es ++ hang_up ∷ rest)).1 ≡ disconnect ∷ []
  unfolding system_run system_step Mqttc.close
  sleep-disconnect s [] rest _ (p, o) =
      let s₁ : System = record s {
        session = record s.session { client = (Mqttc.close s.session.client).0 };
        returned = true;
      } in
      let g : Gone s₁ = record { returned = refl; closed = refl; over = o } in
      rw p (ap (λ x. disconnect ∷ x) (system_run-silent s₁ rest g))
  sleep-disconnect s (e ∷ es) rest (n, ns) h =
      let k = system_step-Quiet c nums s e n h in
      let (s₁, out) = system_step c nums s e in
      client_calls-append out (system_run c nums s₁ (es ++ hang_up ∷ rest)).1
      ∙ (ap (λ x. x ++ client_calls (system_run c nums s₁ (es ++ hang_up ∷ rest)).1) k.1
          ∙ sleep-disconnect s₁ es rest ns k.0)

  -- When the goroutines of the program have returned and the MQTT client is still connected, then
  -- what `Run` goes on to ask of the client is to say, retained, that each desk is offline and that
  -- the bridge is, and behind its sleep one Disconnect, and nothing more is asked of it, whatever
  -- happens later: as long as in the sleep neither a desk has an event nor the connect handler, which
  -- republishes, is called.
  pub farewell-last_words :
      (s : System) (es rest : List SystemEvent)
      → is_waited s ≡ true
      → s.session.client.is_open ≡ true
      → All (λ e. is_quiet e ≡ true) es
      → client_calls (system_run c nums s (farewell ∷ (es ++ hang_up ∷ rest))).1
        ≡ last_words c s.session.client.qos s.bridge.desks
  unfolding system_run system_step Mqttc.close
  farewell-last_words s es rest w o n =
      let s₁ : System = record s { parting = true } in
      let q = s.session.client in
      let out = pass_on q 0 (goodbye c s.bridge.desks) in
      let h : Parted s₁ = (waited-not_returned c nums s w, waited-over c nums s w) in
      rw w (
        client_calls-append out (system_run c nums s₁ (es ++ hang_up ∷ rest)).1
        ∙ (ap (λ x. client_calls out ++ x) (sleep-disconnect s₁ es rest n h)
            ∙ (sym (client_calls-append out (of_clients (Mqttc.close q).1))
                ∙ goodbye-last_words c q s.bridge.desks o)))
