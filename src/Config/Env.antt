-- ===== src/Config/Env.antt =====
-- internal/config/config.go: the overlay of environment variables. `lookup` is `os.LookupEnv`.
pub mod Laws
use mqtt_linak.Base.{
  atoi, ℕ, ◌+◌, ◌-◌, ◌*◌, ◌^◌, Bool, true, false, ◌&&◌, ◌||◌, Option, none, some, List, [], ◌∷◌,
  Text, codes, ℤ, pos, sub_ℕ, ltb, leb, ◌==◌, if◌then◌else◌, leb_ℤ, text_eq, pos_part,
}
use mqtt_linak.Config.{Mqtt, Bluetooth, Config}

unfoldable pub is_one_of : Text → List Text → Bool
unfolding text_eq
is_one_of s [] = false
is_one_of s (t ∷ ts) = text_eq s t || is_one_of s ts

-- `strconv.ParseBool`
unfoldable pub parse_bool : Text → Option Bool
unfolding is_one_of
parse_bool s =
    if is_one_of s
      (codes "1" ∷ codes "t" ∷ codes "T" ∷ codes "true" ∷ codes "TRUE" ∷ codes "True" ∷ [])
    then some true
    else if is_one_of s
        (codes "0" ∷ codes "f" ∷ codes "F" ∷ codes "false" ∷ codes "FALSE" ∷ codes "False" ∷ [])
    then some false
    else none

-- The closure `set`: a variable that is set is applied.
abbrev pub overlay {ℓ κ} : {A : Type ℓ} {C : Type κ} → Option A → (A → C → C) → C → C
overlay none apply c = c
overlay (some v) apply c = apply v c

-- The closure for MQTT_LINAK_QOS
unfoldable pub apply_qos : Option ℤ → Mqtt → Mqtt
apply_qos none m = m
apply_qos (some n) m =
    if leb_ℤ (pos 0) n && leb_ℤ n (pos 2) then record m { qos = pos_part n } else m

-- The closure for MQTT_LINAK_RETAIN
unfoldable pub apply_retain : Option Bool → Mqtt → Mqtt
apply_retain none m = m
apply_retain (some b) m = record m { retain = b }

module _ (lookup : Text → Option Text) where
  -- The variables that fall on the MQTT section, in the order of the calls of `set`.
  unfoldable pub env_mqtt : Mqtt → Mqtt
  unfolding atoi parse_bool apply_qos apply_retain
  env_mqtt m₀ =
      let m₁ =
        overlay (lookup (codes "MQTT_LINAK_BROKER")) (λ v (m : Mqtt). record m { broker = v }) m₀ in
      let m₂ =
        overlay (lookup (codes "MQTT_LINAK_CLIENT_ID")) (λ v (m : Mqtt). record m { client_id = v })
          m₁ in
      let m₃ =
        overlay (lookup (codes "MQTT_LINAK_USERNAME")) (λ v (m : Mqtt). record m { username = v })
          m₂ in
      let m₄ =
        overlay (lookup (codes "MQTT_LINAK_PASSWORD")) (λ v (m : Mqtt). record m { password = v })
          m₃ in
      let m₅ =
        overlay (lookup (codes "MQTT_LINAK_COMMAND_TOPIC_BASE"))
          (λ v (m : Mqtt). record m { command_topic_base = v }) m₄ in
      let m₆ =
        overlay (lookup (codes "MQTT_LINAK_METRIC_TOPIC_BASE"))
          (λ v (m : Mqtt). record m { metric_topic_base = v }) m₅ in
      let m₇ = overlay (lookup (codes "MQTT_LINAK_QOS")) (λ v. apply_qos (atoi v)) m₆ in
      overlay (lookup (codes "MQTT_LINAK_RETAIN")) (λ v. apply_retain (parse_bool v)) m₇

  unfoldable pub env_bluetooth : Bluetooth → Bluetooth
  env_bluetooth =
      overlay (lookup (codes "MQTT_LINAK_HELPER_PATH"))
        (λ v (b : Bluetooth). record b { helper_path = v })

  -- `ApplyEnv`: the two sections share no field, so the helper path may come last.
  unfoldable pub apply_env : Config → Config
  unfolding env_mqtt env_bluetooth
  apply_env c = record c { mqtt = env_mqtt c.mqtt; bluetooth = env_bluetooth c.bluetooth }
