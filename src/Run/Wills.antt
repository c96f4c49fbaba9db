-- ===== src/Run/Wills.antt =====
-- internal/bridge/bridge.go, internal/mqttc/mqttc.go: the will of the client that `Run` makes.
use mqtt_linak.Base.{
  ℕ, true, ◌≡◌, ◌≢◌, refl, inl, inr, false, Option, some, List, [], ◌∷◌, ◌++◌, All, All-append,
  Text, is_nil,
}
use mqtt_linak.Config.{Config}
use mqtt_linak.Config.Valid.Spec.{IsValid}
use mqtt_linak.Topics.{Numbers, metric_topic}
use mqtt_linak.Desk.{offline_payload}
use mqtt_linak.Mqttc.Options.{Will, warn, silent, wire_paho_logging, client_options}
use mqtt_linak.Bridge.{bridge_availability_topic}
use mqtt_linak.Bridge.Names.{desk_topics, published_topics-Unique}
use mqtt_linak.System.{new_system, system_run, SystemEvent, Output, of_desk, of_client, of_scanner}
use mqtt_linak.Run.{RunCall, make_client, calls_of, scan_uuids, run_bridge}
use mqtt_linak.Run.Ways.{run_bridge-Ways}

-- A client is made only with a will that says, retained, that the bridge is offline, on a topic that
-- is none of the desks', and with the errors of its package in the log.
abbrev pub LeavesOffline : Config → RunCall → Type 0
LeavesOffline c (make_client l o) =
    (w : Will) × (o.will ≡ some w)
    × (w.topic ≡ bridge_availability_topic c)
    × (w.payload ≡ offline_payload)
    × (w.retained ≡ true)
    × All (λ t. w.topic ≢ t) (desk_topics c.mqtt.metric_topic_base c.desks)
    × (l.at_error ≡ some warn)
LeavesOffline c _ = Unit

is_nil-append : (s : Text) (b : ℕ) (t : Text) → is_nil (s ++ b ∷ t) ≡ false
unfolding is_nil
is_nil-append [] b t = refl
is_nil-append (a ∷ s) b t = refl

bridge_availability_topic-is_nil : (c : Config) → is_nil (bridge_availability_topic c) ≡ false
unfolding bridge_availability_topic metric_topic
bridge_availability_topic-is_nil c = is_nil-append c.mqtt.metric_topic_base b'/' _

client_options-LeavesOffline :
    (c : Config)
    → IsValid c
    → LeavesOffline c (
        make_client
          (wire_paho_logging c.mqtt.debug silent)
          (client_options c.mqtt (bridge_availability_topic c)))
unfolding client_options wire_paho_logging
client_options-LeavesOffline c v =
    rw (bridge_availability_topic-is_nil c)
      (_, refl, refl, refl, refl, (published_topics-Unique c v).0, refl)

calls_of-LeavesOffline :
    (c : Config) (uuids : List Text) (os : List Output) → All (LeavesOffline c) (calls_of uuids os)
unfolding calls_of
calls_of-LeavesOffline c uuids [] = tt
calls_of-LeavesOffline c uuids (of_scanner x ∷ os) = (tt, calls_of-LeavesOffline c uuids os)
calls_of-LeavesOffline c uuids (of_desk i x ∷ os) = (tt, calls_of-LeavesOffline c uuids os)
calls_of-LeavesOffline c uuids (of_client x ∷ os) = (tt, calls_of-LeavesOffline c uuids os)

module _ (c : Config) {F E : Type 0} (nums : Numbers F) (start : Text → Option E) where
  -- With a valid configuration, whatever way `Run` takes, a client that it makes has a will that
  -- says, retained, that the bridge is offline, on the bridge's availability topic; and this is none
  -- of the topics on which something is published about a desk. The errors of the MQTT package, such
  -- as a refused connection, are then logged as warnings.
  pub run_bridge-LeavesOffline :
      (es : List SystemEvent) → IsValid c → All (LeavesOffline c) (run_bridge c nums start es).0
  run_bridge-LeavesOffline es v =
      let will = client_options-LeavesOffline c v in
      let calls : All (LeavesOffline c)
          (calls_of (scan_uuids c.bluetooth) (system_run c nums (new_system c) es).1) =
        calls_of-LeavesOffline c (scan_uuids c.bluetooth) _ in
      elim (run_bridge-Ways c nums start es) [
        | inl (e, p, r) ↦ rw r (tt, tt)
        | inr (p, k, inl (n, r)) ↦ rw r (tt, (tt, (will, calls)))
        | inr (p, k, inr (y, r)) ↦
            rw r (tt, (tt, (will, All-append (LeavesOffline c) _ _ calls (tt, tt))))
      ]
