-- ===== src/System/Retained.antt =====
-- internal/bridge/bridge.go: what the broker is told of the desks after a reconnect.
use mqtt_linak.Base.{
  ℕ, suc, ◌≡◌, ◌≢◌, refl, sym, ap, ◌∙◌, Bool, true, false, not, ◌&&◌, Option, some, List, [], ◌∷◌,
  All₂, get_elem?, Text, text_eq, arith, if◌then◌else◌,
}
use mqtt_linak.Config
use mqtt_linak.Config.{Config, reserved_desk_id}
use mqtt_linak.Config.Valid.Spec.{IsDesk, IsValid}
use mqtt_linak.Topics.{Numbers, leaf_availability}
use mqtt_linak.Topics.Names.{metric_topic-injective}
use mqtt_linak.Desk.{Manager, online_payload, new_desk_manager}
use mqtt_linak.Desk.Machine.History.{run-cfg}
use mqtt_linak.Bridge.{bridge_availability_topic}
use mqtt_linak.Bridge.Names.{reserved-Lacks}
use mqtt_linak.Mqttc
use mqtt_linak.Mqttc.{Client, publish_metric, send, add_subscription}
use mqtt_linak.Mqttc.Machine as ClientMachine
use mqtt_linak.Mqttc.Machine.{Session, subscribes}
use mqtt_linak.Bridge.Commands.{Handler, subscribe_commands}
use mqtt_linak.System.{
  System, SystemEvent, Output, mqtt_event, finish, scan_by, pass_on, republish_all, new_system,
  session_step, pumped, look, scanner_step, system_step, system_run,
}
use mqtt_linak.System.Desks.{HasHistory}
use mqtt_linak.System.Histories.{system_run-HasHistory}
use mqtt_linak.System.Broker.{
  stored, stored-pass_on, other, topic_of, Shows, IsOf, Shows-eq, All-at, republish_desks-Shows,
}

module _ (c : Config) {F : Type 0} (nums : Numbers F) where
  HasHistory-IsOf :
      (all : List SystemEvent) (ds : List Config.Desk) (ms : List Manager)
      → All₂ (HasHistory c nums all) ds ms
      → All₂ (IsOf c) ds ms
  unfolding new_desk_manager
  HasHistory-IsOf all [] [] h = tt
  HasHistory-IsOf all [] (m ∷ ms) h = absurd h
  HasHistory-IsOf all (d ∷ ds) [] h = absurd h
  HasHistory-IsOf all (d ∷ ds) (m ∷ ms) ((es, heard, there), h) = (
    ap (λ x. x.cfg) (sym there) ∙ run-cfg c nums (new_desk_manager c d) es,
    HasHistory-IsOf all ds ms h,
  )

  greeted-client :
      (p : Mqttc.Place) (q : Session Handler)
      → q.client.is_open ≡ true
      → q.handled ≡ false
      → let t = ClientMachine.step_at p ClientMachine.greeted q in
        (t.client ≡ q.client) × (t.handled ≡ true)
  unfolding ClientMachine.step_at
  greeted-client p q o n = ground (arith, o, n)

  first-time :
      (a b : Bool) (out : List Output)
      → a ≡ false
      → b ≡ true
      → (if not a && b then out else []) ≡ out
  first-time a b out h k = rw (h, k) refl

  -- The first call of the connect handler republishes.
  greeted-republishes :
      (s : System)
      → s.session.client.is_open ≡ true
      → s.session.handled ≡ false
      → (system_step c nums s (mqtt_event ClientMachine.greeted)).1
        ≡ pass_on s.session.client 0 (republish_all c s.bridge.desks)
  unfolding system_step session_step ClientMachine.step
  greeted-republishes s o n =
      let q = session_step s.session ClientMachine.greeted in
      let g = greeted-client s.session.client.place s.session o n in
      first-time s.session.handled q.handled (pass_on q.client 0 (republish_all c s.bridge.desks)) n
        g.1
      ∙ ap (λ x. pass_on x 0 (republish_all c s.bridge.desks)) g.0

  step_at-retain :
      (p : Mqttc.Place) (e : ClientMachine.Event Handler) (q : Session Handler)
      → (ClientMachine.step_at p e q).client.retain ≡ q.client.retain
  unfolding ClientMachine.step_at add_subscription
  step_at-retain p e q = ground arith

  session_step-retain :
      (q : Session Handler) (e : ClientMachine.Event Handler)
      → (session_step q e).client.retain ≡ q.client.retain
  unfolding session_step ClientMachine.step
  session_step-retain q (subscribes filter h) = refl
  session_step-retain q e = step_at-retain q.client.place e q

  system_step-retain :
      (s : System) (e : SystemEvent)
      → (system_step c nums s e).0.session.client.retain ≡ s.session.client.retain
  unfolding system_step pumped scanner_step look Mqttc.close
  system_step-retain s (mqtt_event e) = session_step-retain s.session e
  system_step-retain s finish = session_step-retain s.session ClientMachine.cancel
  system_step-retain s (scan_by w works) = ground arith
  system_step-retain s e = ground arith

  system_run-retain :
      (s : System) (es : List SystemEvent)
      → (system_run c nums s es).0.session.client.retain ≡ s.session.client.retain
  unfolding system_run
  system_run-retain s [] = refl
  system_run-retain s (e ∷ es) =
      system_run-retain (system_step c nums s e).0 es ∙ system_step-retain s e

  subscribe_commands-retain :
      (base : Text) (i : ℕ) (ds : List Config.Desk) (q : Client Handler)
      → (subscribe_commands base i ds q).0.retain ≡ q.retain
  unfolding subscribe_commands add_subscription
  subscribe_commands-retain base i [] q = refl
  subscribe_commands-retain base i (d ∷ ds) q = subscribe_commands-retain base (suc i) ds _

  new_system-retain : (new_system c).session.client.retain ≡ c.mqtt.retain
  unfolding new_system Mqttc.new
  new_system-retain =
      subscribe_commands-retain c.mqtt.command_topic_base 0 c.desks (Mqttc.new c.mqtt)

  apart-from-bridge :
      (d : Config.Desk) (leaf : Text)
      → leaf ≢ leaf_availability
      → IsDesk d
      → text_eq (topic_of c d leaf) (bridge_availability_topic c) ≡ false
  unfolding bridge_availability_topic
  apart-from-bridge d leaf n p = other (topic_of c d leaf) (bridge_availability_topic c) (λ e.
      n
        (metric_topic-injective c.mqtt.metric_topic_base d.id reserved_desk_id leaf
          leaf_availability p.proper_id.no_slash reserved-Lacks e).1)

  -- With a valid configuration, after any history of the program, the first call of the connect
  -- handler on an open connection leaves retained on the broker, on each desk's topics, the state of
  -- that desk, whatever was retained there before: its availability, and, if the configuration has
  -- metrics retained, its height and base height as far as they are known; else these two stay as
  -- they were.
  pub republish_all-Shows :
      (es : List SystemEvent) (i : ℕ) (m : Manager) (before : Text → Option Text)
      → IsValid c
      → (system_run c nums (new_system c) es).0.session.client.is_open ≡ true
      → (system_run c nums (new_system c) es).0.session.handled ≡ false
      → get_elem? (system_run c nums (new_system c) es).0.bridge.desks i ≡ some m
      → let s = (system_run c nums (new_system c) es).0 in
        Shows c m before
          (λ t. stored (before t) t (system_step c nums s (mqtt_event ClientMachine.greeted)).1)
  unfolding republish_all
  republish_all-Shows es i m before v o n at =
      let s = (system_run c nums (new_system c) es).0 in
      let ms = s.bridge.desks in
      let r : Text → Option Text =
        λ t. if text_eq t (bridge_availability_topic c) then some online_payload else before t in
      let k : s.session.client.retain ≡ c.mqtt.retain =
        system_run-retain (new_system c) es ∙ new_system-retain in
      Shows-eq c m before r _ _
        (λ t.
          ap (stored (before t) t) (greeted-republishes s o n)
          ∙ stored-pass_on s.session.client c.mqtt.retain (before t) t (republish_all c ms) o k)
        (λ leaf a.
          rw
            (apart-from-bridge m.cfg leaf a (
              All-at c IsDesk c.desks ms i m v.proper_desks
                (HasHistory-IsOf es c.desks ms (system_run-HasHistory c nums es)) at))
            refl)
        (republish_desks-Shows c c.desks ms i m r v.proper_desks v.distinct_ids
          (HasHistory-IsOf es c.desks ms (system_run-HasHistory c nums es)) at)
