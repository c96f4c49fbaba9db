-- ===== src/Config/Env/Laws.antt =====
-- internal/config/config.go: what the environment changes, and what it leaves.
use mqtt_linak.Base.{
  atoi, ℕ, ◌≡◌, refl, Bool, ◌&&◌, Option, none, some, Text, codes, pos, leb_ℤ, pos_part, arith,
  if◌then◌else◌,
}
use mqtt_linak.Config.{Mqtt}
use mqtt_linak.Config.Env.{parse_bool, overlay, apply_qos, apply_retain, env_mqtt}

-- The variable's value if it is set, otherwise the file's.
abbrev pub value_or {ℓ} : {A : Type ℓ} → Option A → A → A
value_or none a = a
value_or (some v) a = v

-- The QoS of a variable that reads as 0, 1 or 2.
abbrev pub qos_or : Option Text → ℕ → ℕ
qos_or none q = q
qos_or (some v) q = elim (atoi v) [
  | none ↦ q
  | some n ↦ if leb_ℤ (pos 0) n && leb_ℤ n (pos 2) then pos_part n else q
]

abbrev pub retain_or : Option Text → Bool → Bool
retain_or none b = b
retain_or (some v) b = value_or (parse_bool v) b

qos-overlay :
    (o : Option Text) (m : Mqtt)
    → overlay o (λ v. apply_qos (atoi v)) m ≡ record m { qos = qos_or o m.qos }
unfolding apply_qos
qos-overlay none m = refl
qos-overlay (some v) m = ground arith

retain-overlay :
    (o : Option Text) (m : Mqtt)
    → overlay o (λ v. apply_retain (parse_bool v)) m ≡ record m { retain = retain_or o m.retain }
unfolding apply_retain
retain-overlay none m = refl
retain-overlay (some v) m = ground arith

broker-overlay :
    (o : Option Text) (m : Mqtt)
    → overlay o (λ v (m : Mqtt). record m { broker = v }) m
      ≡ record m { broker = value_or o m.broker }
broker-overlay none m = refl
broker-overlay (some v) m = refl

client_id-overlay :
    (o : Option Text) (m : Mqtt)
    → overlay o (λ v (m : Mqtt). record m { client_id = v }) m
      ≡ record m { client_id = value_or o m.client_id }
client_id-overlay none m = refl
client_id-overlay (some v) m = refl

username-overlay :
    (o : Option Text) (m : Mqtt)
    → overlay o (λ v (m : Mqtt). record m { username = v }) m
      ≡ record m { username = value_or o m.username }
username-overlay none m = refl
username-overlay (some v) m = refl

password-overlay :
    (o : Option Text) (m : Mqtt)
    → overlay o (λ v (m : Mqtt). record m { password = v }) m
      ≡ record m { password = value_or o m.password }
password-overlay none m = refl
password-overlay (some v) m = refl

command_topic_base-overlay :
    (o : Option Text) (m : Mqtt)
    → overlay o (λ v (m : Mqtt). record m { command_topic_base = v }) m
      ≡ record m { command_topic_base = value_or o m.command_topic_base }
command_topic_base-overlay none m = refl
command_topic_base-overlay (some v) m = refl

metric_topic_base-overlay :
    (o : Option Text) (m : Mqtt)
    → overlay o (λ v (m : Mqtt). record m { metric_topic_base = v }) m
      ≡ record m { metric_topic_base = value_or o m.metric_topic_base }
metric_topic_base-overlay none m = refl
metric_topic_base-overlay (some v) m = refl

module _ (lookup : Text → Option Text) where
  -- Every field of the MQTT section is its own variable's value where that is set and reads as a
  -- value of the field, and the file's value otherwise; the debug flag and the timings have no
  -- variable.
  pub env_mqtt-fields :
      (m : Mqtt)
      → env_mqtt lookup m ≡ record m {
        broker = value_or (lookup (codes "MQTT_LINAK_BROKER")) m.broker;
        client_id = value_or (lookup (codes "MQTT_LINAK_CLIENT_ID")) m.client_id;
        username = value_or (lookup (codes "MQTT_LINAK_USERNAME")) m.username;
        password = value_or (lookup (codes "MQTT_LINAK_PASSWORD")) m.password;
        command_topic_base =
            value_or (lookup (codes "MQTT_LINAK_COMMAND_TOPIC_BASE")) m.command_topic_base;
        metric_topic_base =
            value_or (lookup (codes "MQTT_LINAK_METRIC_TOPIC_BASE")) m.metric_topic_base;
        qos = qos_or (lookup (codes "MQTT_LINAK_QOS")) m.qos;
        retain = retain_or (lookup (codes "MQTT_LINAK_RETAIN")) m.retain;
      }
  unfolding env_mqtt
  env_mqtt-fields m = simp (
    broker-overlay, client_id-overlay, username-overlay, password-overlay,
    command_topic_base-overlay, metric_topic_base-overlay, qos-overlay, retain-overlay,
  )
