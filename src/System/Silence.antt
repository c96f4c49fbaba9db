-- ===== src/System/Silence.antt =====
-- internal/bridge/bridge.go: once `Run` has returned, nothing is asked of the MQTT client.
use mqtt_linak.Base.{
  ℕ, ◌≡◌, refl, ap, ◌∙◌, Bool, true, false, List, [], ◌∷◌, ◌++◌, arith, if◌then◌else◌,
}
use mqtt_linak.Config.{Config}
use mqtt_linak.Topics.{metric_topic, leaf_availability}
use mqtt_linak.Desk.{Manager, Effect, publish, publish_retained, offline_payload}
use mqtt_linak.Mqttc
use mqtt_linak.Mqttc.{Client, disconnect}
use mqtt_linak.Mqttc.Machine as ClientMachine
use mqtt_linak.Mqttc.Machine.{
  Session, go_on, accepted, token, greeted, dropped, lost_seen, timer, quit, cancel, subscribes,
}
use mqtt_linak.Bridge.{Bridge, ScanCall, scan_round, scan_end, bridge_availability_topic}
use mqtt_linak.Bridge.Commands.{Handler}
use mqtt_linak.System.{
  System, ScanWait, by_wake, by_ticker, by_end, Output, of_desk, of_client, of_scanner, of_clients,
  of_scans, pass_on, goodbye, session_step, pumped, look, scanner_step, is_client_over, is_waited,
}

-- What is asked of the MQTT connection.
abbrev pub client_calls : List Output → List (Mqttc.Effect Handler)
client_calls [] = []
client_calls (of_client e ∷ os) = e ∷ client_calls os
client_calls (of_desk i e ∷ os) = client_calls os
client_calls (of_scanner e ∷ os) = client_calls os

-- Offline, retained, for each desk and then the bridge, and the end of the connection.
abbrev pub last_words : Config → ℕ → List Manager → List (Mqttc.Effect Handler)
last_words c qos [] =
    Mqttc.publish (bridge_availability_topic c) qos true offline_payload ∷ disconnect ∷ []
last_words c qos (m ∷ ms) =
    Mqttc.publish (metric_topic c.mqtt.metric_topic_base m.cfg.id leaf_availability) qos true
      offline_payload
    ∷ last_words c qos ms

pub client_calls-append :
    (xs ys : List Output) → client_calls (xs ++ ys) ≡ client_calls xs ++ client_calls ys
client_calls-append [] ys = refl
client_calls-append (of_client e ∷ os) ys = ap (λ x. e ∷ x) (client_calls-append os ys)
client_calls-append (of_desk i e ∷ os) ys = client_calls-append os ys
client_calls-append (of_scanner e ∷ os) ys = client_calls-append os ys

pub client_calls-scans : (es : List ScanCall) → client_calls (of_scans es) ≡ []
client_calls-scans [] = refl
client_calls-scans (e ∷ es) = client_calls-scans es

-- A client that is not connected drops what it is given.
pub pass_on-closed :
    (q : Client Handler) (i : ℕ) (es : List Effect)
    → q.is_open ≡ false
    → client_calls (pass_on q i es) ≡ []
unfolding pass_on Mqttc.publish_metric Mqttc.publish_retained Mqttc.send
pass_on-closed q i [] h = refl
pass_on-closed q i (publish topic payload ∷ es) h = rw h (pass_on-closed q i es h)
pass_on-closed q i (publish_retained topic payload ∷ es) h = rw h (pass_on-closed q i es h)
pass_on-closed q i (e ∷ es) h = pass_on-closed q i es h

pub goodbye-last_words :
    (c : Config) (q : Client Handler) (ms : List Manager)
    → q.is_open ≡ true
    → client_calls (pass_on q 0 (goodbye c ms) ++ of_clients (Mqttc.close q).1)
      ≡ last_words c q.qos ms
unfolding goodbye pass_on Mqttc.publish_retained Mqttc.send Mqttc.close
goodbye-last_words c q [] h = rw h refl
goodbye-last_words c q (m ∷ ms) h = rw h (
    ap
      (λ x.
        Mqttc.publish (metric_topic c.mqtt.metric_topic_base m.cfg.id leaf_availability) q.qos true
          offline_payload
        ∷ x)
      (goodbye-last_words c q ms h))

-- `Run` has returned, and the client's loop before it; the connection is closed.
pub record Gone (s : System) : Type 0 where
  pub returned : s.returned ≡ true
  pub closed : s.session.client.is_open ≡ false
  pub over : is_client_over s.session.client.place ≡ true

-- A step behind that, which asks nothing of the client.
pub record Stays (r : System × List Output) : Type 0 where
  pub gone : Gone r.0
  pub silent : client_calls r.1 ≡ []

pub step_at-Gone :
    (p : Mqttc.Place) (e : ClientMachine.Event Handler) (q : Session Handler)
    → q.client.place ≡ p
    → is_client_over p ≡ true
    → q.client.is_open ≡ false
    → ((ClientMachine.step_at p e q).client.is_open ≡ false)
      × (is_client_over (ClientMachine.step_at p e q).client.place ≡ true)
unfolding ClientMachine.step_at
step_at-Gone Mqttc.over e q at o c = ground arith
step_at-Gone _ e q at o c = absurd (cc)

pub session_step-Gone :
    (q : Session Handler) (e : ClientMachine.Event Handler)
    → is_client_over q.client.place ≡ true
    → q.client.is_open ≡ false
    → ((session_step q e).client.is_open ≡ false)
      × (is_client_over (session_step q e).client.place ≡ true)
unfolding session_step ClientMachine.step
session_step-Gone q (subscribes filter h) o c = (c, o)
session_step-Gone q e o c = step_at-Gone q.client.place e q refl o c

pub same-Gone :
    (s s' : System) → s'.returned ≡ s.returned → s'.session ≡ s.session → Gone s → Gone s'
same-Gone s s' r q g = record {
  returned = r ∙ g.returned;
  closed = ap (λ x. x.client.is_open) q ∙ g.closed;
  over = ap (λ x. is_client_over x.client.place) q ∙ g.over;
}

pub if-Stays :
    (b : Bool) (x y : System × List Output)
    → (b ≡ true → Stays x)
    → (b ≡ false → Stays y)
    → Stays (if b then x else y)
if-Stays true x y h k = h refl
if-Stays false x y h k = k refl

pub if-Gone : (b : Bool) (s s' : System) → Gone s → Gone s' → Gone (if b then s else s')
if-Gone true s s' g h = g
if-Gone false s s' g h = h

pub pumped-Gone : (b : Bridge) (s : System) → Gone s → Gone (pumped b s)
unfolding pumped
pumped-Gone b s g =
    if-Gone s.pump_over s (record s { bridge = b }) g
      (same-Gone s (record s { bridge = b }) refl refl g)

look-Stays : (works : Bool) (s : System) → Gone s → Stays (look works s)
unfolding look
look-Stays works s g = record {
  gone = same-Gone s (look works s).0 refl refl g;
  silent = client_calls-scans (scan_round works s.bridge.desks s.scanning).1;
}

pub scanner_step-Stays :
    (s : System) (w : ScanWait) (works : Bool) → Gone s → Stays (scanner_step w works s)
unfolding scanner_step
scanner_step-Stays s by_wake works g =
    let woken : System = record s { bridge = record s.bridge { scan_wake = false } } in
    if-Stays s.bridge.scan_wake (look works woken) (s, [])
      (λ y. look-Stays works woken (same-Gone s woken refl refl g))
      (λ n. record { gone = g; silent = refl })
scanner_step-Stays s by_ticker works g = look-Stays works s g
scanner_step-Stays s by_end works g =
    let r = scan_end s.scanning in
    let s' : System = record s { scanning = r.0; scanner_over = true } in
    if-Stays s.cancelled (s', of_scans r.1) (s, [])
      (λ y. record { gone = same-Gone s s' refl refl g; silent = client_calls-scans r.1 })
      (λ n. record { gone = g; silent = refl })

pub not_waited : (s : System) → Gone s → is_waited s ≡ false
unfolding is_waited
not_waited s g = ground (arith, g.returned)
