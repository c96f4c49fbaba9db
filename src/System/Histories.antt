-- ===== src/System/Histories.antt =====
-- internal/bridge/bridge.go, internal/bridge/desk.go: what each desk goes through in the program.
use mqtt_linak.Base.{
  ℕ, suc, ◌≡◌, ◌≢◌, refl, sym, ap, ◌∙◌, Bool, true, false, Bool-cases, inl, inr, some, List, [],
  ◌∷◌, ◌++◌, Within-refl, Any, All, All₂, get_elem?, get_elem?-append, length, append_assoc,
  length-append, Text, text_eq, text_eq→eq, arith, if◌then◌else◌,
}
use mathlib.Core.Path.{subst}
use mqtt_linak.Config
use mqtt_linak.Config.{Config}
use mqtt_linak.Topics.{leaf_height, leaf_base_height, Numbers, command_topic}
use mqtt_linak.Desk.{kind_string, Manager}
use mqtt_linak.Desk.Machine.{Event, arrives, step, run}
use mqtt_linak.Mqttc
use mqtt_linak.Mqttc.{Client, Subscription, Place, top}
use mqtt_linak.Mqttc.Machine as ClientMachine
use mqtt_linak.Mqttc.Machine.{Session, go_on as client_goes_on, subscribes}
use mqtt_linak.Bridge.{Bridge}
use mqtt_linak.Bridge.Commands.{Handler, subscribed, routes}
use mqtt_linak.System.{
  System, SystemEvent, desk_event, discovered, disconnection, delivered, mqtt_event, finish,
  farewell, hang_up, adapter_state, bluetooth_error, pump_ends, scan_by, ScanWait, by_wake,
  by_ticker, by_end, pumped, look, scanner_step, is_own, update_at, new_desks, new_system,
  session_step, deliver, system_step, system_run,
}
use mqtt_linak.System.Absorb.{absorb-desks}
use mqtt_linak.System.Desks.{
  messages, delivered-messages, HasHistory, Histories, update_at-Histories, on_discovery-Histories,
  on_disconnection-Histories, cancel_all-Histories,
}

module _ (c : Config) {F : Type 0} (nums : Numbers F) (all : List SystemEvent) where
  -- A subscription is for the desk at its place, on that desk's topic for its kind.
  abbrev Serves : List Config.Desk → Subscription Handler → Type 0
  Serves ds s =
      (d : Config.Desk)
      → get_elem? ds s.handler.0 ≡ some d
      → s.filter ≡ command_topic c.mqtt.command_topic_base d.id (kind_string s.handler.1)

  deliver-Histories :
      (ds : List Config.Desk) (ss : List (Subscription Handler)) (topic payload : Text)
      (ms : List Manager)
      → Any (λ r. r ≡ (topic, payload)) (messages all)
      → All (Serves ds) ss
      → Histories c nums all ds ms
      → Histories c nums all ds (deliver c nums ss topic payload ms)
  unfolding deliver
  deliver-Histories ds [] topic payload ms said _ h = h
  deliver-Histories ds (s ∷ ss) topic payload ms said (serves, rest) h =
      elim (Bool-cases (text_eq s.filter topic)) [
        | inr n ↦ rw n (deliver-Histories ds ss topic payload ms said rest h)
        | inl y ↦ rw y (
            deliver-Histories ds ss topic payload _ said rest (
              update_at-Histories c nums all ds ms s.handler.0 (arrives s.handler.1 payload)
                (λ d at. record {
                  command = λ kind other e.
                      subst (λ (x : Text × Text). Any (λ r. r ≡ x) (messages all))
                        (cc (e, text_eq→eq s.filter topic y, serves d at)) said;
                  own = λ o. absurd (cc);
                })
                h))
      ]

  routes-Serves :
      (whole before ds : List Config.Desk) (k : ℕ)
      → whole ≡ before ++ ds
      → k ≡ length before
      → All (Serves whole) (routes c.mqtt.command_topic_base k ds)
  unfolding kind_string
  routes-Serves whole before [] k e l = tt
  routes-Serves whole before (d ∷ ds) k e l =
      let here : get_elem? whole k ≡ some d = rw (e, l) (get_elem?-append before ds d) in
      let later : All (Serves whole) (routes c.mqtt.command_topic_base (suc k) ds) =
        routes-Serves whole (before ++ d ∷ []) ds (suc k)
          (e ∙ sym (append_assoc before (d ∷ []) ds))
          (omega (arith, length-append before (d ∷ []))) in
      let same : (d' : Config.Desk) → get_elem? whole k ≡ some d' → d ≡ d' =
        λ d' at. cc (here, at) in
      let topic : Text → Config.Desk → Text =
        λ leaf x. command_topic c.mqtt.command_topic_base x.id leaf in
      (
        λ d' at. ap (topic leaf_height) (same d' at),
        (λ d' at. ap (topic leaf_base_height) (same d' at), later),
      )

  step_at-subs :
      (p : Place) (e : ClientMachine.Event Handler) (q : Session Handler)
      → ((filter : Text) (h : Handler) → e ≢ subscribes filter h)
      → (ClientMachine.step_at p e q).client.subs ≡ q.client.subs
  unfolding ClientMachine.step_at
  step_at-subs p (subscribes filter h) q n = absurd (n filter h refl)
  step_at-subs top client_goes_on q n = ground arith
  step_at-subs _ e q n = ground arith

  session_step-subs :
      (q : Session Handler) (e : ClientMachine.Event Handler)
      → (session_step q e).client.subs ≡ q.client.subs
  unfolding session_step ClientMachine.step
  session_step-subs q (subscribes filter h) = refl
  session_step-subs q e = step_at-subs q.client.place e q (λ filter h x. cc)

  abbrev Said : List SystemEvent → SystemEvent → Type 0
  Said es e = Any (λ x. x ≡ e) es

  -- What holds of the program: the subscriptions are those of the start, and each desk has a history.
  record Ongoing (s : System) : Type 0 where
    subs : s.session.client.subs ≡ routes c.mqtt.command_topic_base 0 c.desks
    desks : Histories c nums all c.desks s.bridge.desks

  desk_event-Ongoing :
      (s : System) (i : ℕ) (e : Event)
      → Said all (desk_event i e)
      → Ongoing s
      → Ongoing (system_step c nums s (desk_event i e)).0
  unfolding system_step
  desk_event-Ongoing s i e said h = elim (Bool-cases (is_own e)) [
    | inr n ↦ rw n h
    | inl y ↦ rw y (record {
      subs = h.subs;
      desks = rw (absorb-desks (update_at (λ m. step c nums m e) i s.bridge.desks).1) (
          update_at-Histories c nums all c.desks s.bridge.desks i e
            (λ d at. record {
              command = λ kind payload q. absurd (cc (rw q at y));
              own = λ o. (i, at, said);
            })
            h.desks);
    })
  ]

  if-Ongoing : (x : Bool) (s s' : System) → Ongoing s → Ongoing s' → Ongoing (if x then s else s')
  if-Ongoing true s s' h k = h
  if-Ongoing false s s' h k = k

  pumped-Ongoing :
      (b : Bridge) (s : System)
      → Histories c nums all c.desks b.desks
      → Ongoing s
      → Ongoing (pumped b s)
  unfolding pumped
  pumped-Ongoing b s k h =
      if-Ongoing s.pump_over s (record s { bridge = b }) h (record { subs = h.subs; desks = k })

  -- A change of what the invariant does not speak of.
  other-Ongoing :
      (s s' : System)
      → s'.bridge.desks ≡ s.bridge.desks
      → s'.session.client.subs ≡ s.session.client.subs
      → Ongoing s
      → Ongoing s'
  other-Ongoing s s' d q h = record {
    subs = q ∙ h.subs;
    desks = subst (Histories c nums all c.desks) (sym d) h.desks;
  }

  scan_by-same :
      (s : System) (w : ScanWait) (works : Bool)
      → let s' = (system_step c nums s (scan_by w works)).0 in
        (s'.bridge.desks ≡ s.bridge.desks) × (s'.session.client.subs ≡ s.session.client.subs)
  unfolding system_step scanner_step look
  scan_by-same s by_wake works = ground arith
  scan_by-same s by_ticker works = ground arith
  scan_by-same s by_end works = ground arith

  farewell-same :
      (s : System)
      → let s' = (system_step c nums s farewell).0 in
        (s'.bridge.desks ≡ s.bridge.desks) × (s'.session.client.subs ≡ s.session.client.subs)
  unfolding system_step Mqttc.close
  farewell-same s = ground arith

  hang_up-same :
      (s : System)
      → let s' = (system_step c nums s hang_up).0 in
        (s'.bridge.desks ≡ s.bridge.desks) × (s'.session.client.subs ≡ s.session.client.subs)
  unfolding system_step Mqttc.close
  hang_up-same s = ground arith

  pump_ends-same :
      (s : System) (closed : Bool)
      → let s' = (system_step c nums s (pump_ends closed)).0 in
        (s'.bridge.desks ≡ s.bridge.desks) × (s'.session.client.subs ≡ s.session.client.subs)
  unfolding system_step
  pump_ends-same s closed = ground arith

  adapter_state-desks :
      (on : Bool) (b : Bridge) → (if on then record b { scan_wake = true } else b).desks ≡ b.desks
  adapter_state-desks on b = ground arith

  system_step-Ongoing :
      (s : System) (e : SystemEvent) → Said all e → Ongoing s → Ongoing (system_step c nums s e).0
  unfolding system_step pumped
  system_step-Ongoing s (desk_event i e) said h = desk_event-Ongoing s i e said h
  system_step-Ongoing s (discovered p) said h =
      pumped-Ongoing _ s (on_discovery-Histories c nums all c.desks p s.bridge h.desks) h
  system_step-Ongoing s (disconnection id) said h =
      pumped-Ongoing _ s (on_disconnection-Histories c nums all c.desks id s.bridge h.desks) h
  system_step-Ongoing s (adapter_state on) said h =
      pumped-Ongoing _ s
        (subst (Histories c nums all c.desks) (sym (adapter_state-desks on s.bridge)) h.desks) h
  system_step-Ongoing s bluetooth_error said h = h
  system_step-Ongoing s (pump_ends closed) said h =
      other-Ongoing s _ (pump_ends-same s closed).0 (pump_ends-same s closed).1 h
  system_step-Ongoing s (scan_by w works) said h =
      other-Ongoing s _ (scan_by-same s w works).0 (scan_by-same s w works).1 h
  system_step-Ongoing s farewell said h =
      other-Ongoing s _ (farewell-same s).0 (farewell-same s).1 h
  system_step-Ongoing s hang_up said h = other-Ongoing s _ (hang_up-same s).0 (hang_up-same s).1 h
  system_step-Ongoing s (delivered topic payload) said h = record {
    subs = h.subs;
    desks =
        deliver-Histories c.desks s.session.client.subs topic payload s.bridge.desks
          (delivered-messages topic payload all said)
          (rw h.subs (routes-Serves c.desks [] c.desks 0 refl refl)) h.desks;
  }
  system_step-Ongoing s (mqtt_event e) said h = record {
    subs = session_step-subs s.session e ∙ h.subs;
    desks = h.desks;
  }
  system_step-Ongoing s finish said h = record {
    subs = session_step-subs s.session ClientMachine.cancel ∙ h.subs;
    desks = cancel_all-Histories c nums all c.desks s.bridge.desks h.desks;
  }

  system_run-Ongoing :
      (s : System) (es : List SystemEvent)
      → All (Said all) es
      → Ongoing s
      → Ongoing (system_run c nums s es).0
  unfolding system_run
  system_run-Ongoing s [] _ h = h
  system_run-Ongoing s (e ∷ es) (said, rest) h =
      system_run-Ongoing (system_step c nums s e).0 es rest (system_step-Ongoing s e said h)

  new_desks-Histories : (ds : List Config.Desk) → Histories c nums all ds (new_desks c ds)
  unfolding Histories new_desks run
  new_desks-Histories [] = tt
  new_desks-Histories (d ∷ ds) = (([], tt, refl), new_desks-Histories ds)

  new_system-Ongoing : Ongoing (new_system c)
  unfolding new_system Mqttc.new
  new_system-Ongoing = record {
    subs = subscribed c.mqtt.command_topic_base 0 c.desks (Mqttc.new c.mqtt);
    desks = new_desks-Histories c.desks;
  }

module _ (c : Config) {F : Type 0} (nums : Numbers F) where
  -- The subscriptions of the client are those of the start.
  pub system_run-subs :
      (es : List SystemEvent)
      → (system_run c nums (new_system c) es).0.session.client.subs
        ≡ routes c.mqtt.command_topic_base 0 c.desks
  system_run-subs es =
      (system_run-Ongoing c nums es (new_system c) es (Within-refl es)
        (new_system-Ongoing c nums es)).subs

  -- After any history of the program with its bridge, desks and MQTT client, the manager of each
  -- configured desk has got where it is by a history of its own, in which each command is a message
  -- of the program's history on that desk's own topic for the kind of the command, and each event of
  -- the desk's own goroutines and callbacks is an event of the program's history at that desk.
  pub system_run-HasHistory :
      (es : List SystemEvent)
      → All₂ (HasHistory c nums es) c.desks (system_run c nums (new_system c) es).0.bridge.desks
  unfolding Histories
  system_run-HasHistory es =
      (system_run-Ongoing c nums es (new_system c) es (Within-refl es)
        (new_system-Ongoing c nums es)).desks
