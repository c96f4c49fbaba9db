-- ===== src/System/Told.antt =====
-- internal/bridge/bridge.go, internal/mqttc/mqttc.go: what the program may say to the broker.
use mqtt_linak.Base.{
  ℕ, ◌≡◌, refl, ◌⊎◌, inl, inr, Bool, Bool-cases, true, some, List, [], ◌∷◌, Any, All, All-append,
  get_elem?, Text, ℤ,
}
use mqtt_linak.Config
use mqtt_linak.Config.{Config}
use mqtt_linak.Topics.{
  leaf_height, leaf_base_height, leaf_availability, metric_topic, format_tenths_mm,
}
use mqtt_linak.Desk.{Effect, publish, publish_retained, online_payload, offline_payload}
use mqtt_linak.Desk.Run.{value}
use mqtt_linak.Desk.Machine.{position, reply}
use mqtt_linak.Desk.Machine.Metrics.{Honest}
use mqtt_linak.Mqttc
use mqtt_linak.Mqttc.{Client, send}
use mqtt_linak.Bridge.{ScanCall, bridge_availability_topic}
use mqtt_linak.Bridge.Commands.{Handler}
use mqtt_linak.System.{SystemEvent, desk_event, Output, of_client, of_clients, of_scans, pass_on}

-- What the program may say on a topic after a history, and whether the broker is to keep it.
pub data Told (c : Config) (all : List SystemEvent) (t : Text) (retained : Bool) (p : Text)
    : Type 0 where
  -- the availability of the bridge
  of_bridge :
      t ≡ bridge_availability_topic c
      → retained ≡ true
      → (p ≡ online_payload) ⊎ (p ≡ offline_payload)
      → Told c all t retained p
  -- the availability of a configured desk
  of_availability :
      (d : Config.Desk) (i : ℕ)
      → get_elem? c.desks i ≡ some d
      → t ≡ metric_topic c.mqtt.metric_topic_base d.id leaf_availability
      → retained ≡ true
      → (p ≡ online_payload) ⊎ (p ≡ offline_payload)
      → Told c all t retained p
  -- a position that a configured desk has reported
  of_height :
      (d : Config.Desk) (i : ℕ) (x speed : ℤ) (now : ℕ)
      → get_elem? c.desks i ≡ some d
      → Any (λ e. e ≡ desk_event i (position x speed now)) all
      → t ≡ metric_topic c.mqtt.metric_topic_base d.id leaf_height
      → p ≡ format_tenths_mm x
      → Told c all t retained p
  -- a value that a configured desk has replied
  of_base_height :
      (d : Config.Desk) (i : ℕ) (x : ℤ) (now : ℕ)
      → get_elem? c.desks i ≡ some d
      → Any (λ e. e ≡ desk_event i (reply (value x) now)) all
      → t ≡ metric_topic c.mqtt.metric_topic_base d.id leaf_base_height
      → p ≡ format_tenths_mm x
      → Told c all t retained p

abbrev pub Truthful : Config → List SystemEvent → Output → Type 0
Truthful c all (of_client (Mqttc.publish t qos retained p)) = Told c all t retained p
Truthful c all _ = Unit

-- A position, and a reply, of the desk in a history.
abbrev pub At : Config → List SystemEvent → Config.Desk → ℤ → Type 0
At c all d x =
    (i : ℕ) × (speed : ℤ) × (now : ℕ) × (get_elem? c.desks i ≡ some d)
    × Any (λ e. e ≡ desk_event i (position x speed now)) all

abbrev pub Replied : Config → List SystemEvent → Config.Desk → ℤ → Type 0
Replied c all d x =
    (i : ℕ) × (now : ℕ) × (get_elem? c.desks i ≡ some d)
    × Any (λ e. e ≡ desk_event i (reply (value x) now)) all

module _ (c : Config) (all : List SystemEvent) where
  pub of_scans-Truthful : (es : List ScanCall) → All (Truthful c all) (of_scans es)
  of_scans-Truthful [] = tt
  of_scans-Truthful (e ∷ es) = (tt, of_scans-Truthful es)

  send-Truthful :
      (q : Client Handler) (t p : Text) (retained : Bool)
      → Told c all t retained p
      → All (Truthful c all) (of_clients (send q t p retained))
  unfolding send
  send-Truthful q t p retained h = elim (Bool-cases q.is_open) [
    | inl y ↦ rw (send, y) (h, tt)
    | inr n ↦ rw (send, n) tt
  ]

  -- A publish of a desk, or of the bridge about a desk.
  abbrev pub Speaks : Effect → Type 0
  Speaks (publish t p) = (retained : Bool) → Told c all t retained p
  Speaks (publish_retained t p) = Told c all t true p
  Speaks _ = Unit

  pub pass_on-Truthful :
      (q : Client Handler) (j : ℕ) (es : List Effect)
      → All Speaks es
      → All (Truthful c all) (pass_on q j es)
  unfolding pass_on Mqttc.publish_metric Mqttc.publish_retained
  pass_on-Truthful q j [] h = tt
  pass_on-Truthful q j (publish t p ∷ es) (h, rest) =
      All-append (Truthful c all) _ _ (send-Truthful q t p q.retain (h q.retain))
        (pass_on-Truthful q j es rest)
  pass_on-Truthful q j (publish_retained t p ∷ es) (h, rest) =
      All-append (Truthful c all) _ _ (send-Truthful q t p true h) (pass_on-Truthful q j es rest)
  pass_on-Truthful q j (e ∷ es) (h, rest) = (tt, pass_on-Truthful q j es rest)

  pub Honest-Speaks :
      (d : Config.Desk) (i : ℕ)
      → get_elem? c.desks i ≡ some d
      → (e : Effect) → Honest c d (At c all d) (Replied c all d) e
      → Speaks e
  Honest-Speaks d i at (publish t p) (inl (x, same, says, (k, speed, now, place, here))) =
      λ retained. of_height d k x speed now place here same says
  Honest-Speaks d i at (publish t p) (inr (x, same, says, (k, now, place, here))) =
      λ retained. of_base_height d k x now place here same says
  Honest-Speaks d i at (publish_retained t p) (same, says) = of_availability d i at same refl says
  Honest-Speaks d i at (_) h = tt
