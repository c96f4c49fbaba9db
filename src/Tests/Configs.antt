-- ===== src/Tests/Configs.antt =====
-- Configurations and payloads.
use mqtt_linak.Base.{
  inr, is_nil, trim_space, contains_any, has_suffix, digits_value, ℕ, ◌≡◌, refl, ◌↔◌, Option, none,
  some, List, [], Text, codes, pos, ok, err, arith, text_eq, if◌then◌else◌,
}
use mqtt_linak.Config.{
  valid_topic_base, no_desk, validate_desks, valid_desk_id, is_seen, valid_matchers, Config,
  Bluetooth, validate,
}
use mqtt_linak.Config.Valid.Spec.{IsValid}
use mqtt_linak.Config.Valid.{validate_iff}
use mqtt_linak.Config.Env.{env_mqtt, apply_env}
use mqtt_linak.Config.Load.{contents, probed, with_uuids, parse, load_bluetooth}
use mqtt_linak.Config.Load.Laws.{uuids, Decodes, parse_sound, load_bluetooth-parse}
use mqtt_linak.Topics.{out_of_range, parse_tenths_mm, format_tenths_mm}
use mqtt_linak.Topics.Payload.{
  Denotes, Carries, parse_tenths_mm_iff, parse_tenths_mm-format_tenths_mm,
}
use mqtt_linak.Config.Env.Laws.{value_or, qos_or, retain_or, env_mqtt-fields}
use mqtt_linak.Tests.Data.{sample, naturals, naturals-ReadsDecimals, constant}

-- The environment of a test.
unfoldable pub env : Text → Option Text
env key = if text_eq key (codes "MQTT_LINAK_QOS") then some (codes "2") else none

sample_accepted : validate sample ≡ none
unfolding validate is_nil trim_space valid_topic_base contains_any has_suffix no_desk validate_desks
    valid_desk_id is_seen valid_matchers text_eq
sample_accepted = refl

pub sample-IsValid : IsValid sample
sample-IsValid = (validate_iff sample).0 sample_accepted

validate_iff_example : (validate sample ≡ none) ↔ IsValid sample
validate_iff_example = validate_iff sample

env_qos : (env_mqtt env sample.mqtt).qos ≡ 2
unfolding env_mqtt env text_eq
env_qos = refl

unfoldable pub read : Config
read = apply_env env (with_uuids sample (probed none))

read_ok : parse constant env [] ≡ ok read
unfolding parse env read apply_env validate is_nil trim_space valid_topic_base contains_any
    has_suffix no_desk validate_desks valid_desk_id is_seen valid_matchers text_eq
read_ok = refl

parse_sound_example :
    IsValid read
    × (probe : Option (Option (List Text))) × (cfg : Config) × Decodes constant env [] probe cfg
    × (read ≡ apply_env env (with_uuids cfg (probed probe)))
parse_sound_example = parse_sound constant env [] read read_ok

read-IsValid : IsValid read
unfolding read apply_env validate is_nil trim_space valid_topic_base contains_any has_suffix no_desk
    validate_desks valid_desk_id is_seen valid_matchers text_eq env with_uuids
read-IsValid = (validate_iff read).0 refl

load_bluetooth-parse_example :
    (bt : Bluetooth) × (load_bluetooth constant env (contents []) ≡ ok bt)
    × (uuids bt ≡ uuids read.bluetooth)
    × (record bt { scan_service_uuids = none }
        ≡ record read.bluetooth { scan_service_uuids = none })
load_bluetooth-parse_example = load_bluetooth-parse constant env [] read read_ok (λ cfg e. cc)

accepted : parse_tenths_mm naturals (codes " 7350 ") ≡ ok 7350
unfolding parse_tenths_mm is_nil trim_space digits_value
accepted = refl

refused : parse_tenths_mm naturals (codes "65536") ≡ err (out_of_range (pos 65536))
unfolding parse_tenths_mm is_nil trim_space digits_value
refused = refl

parse_tenths_mm_iff_example :
    (parse_tenths_mm naturals (codes " 7350 ") ≡ ok 7350)
    ↔ ((v : ℕ) × Denotes naturals (trim_space (codes " 7350 ")) v × Carries naturals v 7350)
parse_tenths_mm_iff_example = parse_tenths_mm_iff naturals (λ x. inr refl) (codes " 7350 ") 7350

parse_tenths_mm-format_tenths_mm_example :
    parse_tenths_mm naturals (format_tenths_mm (pos 7350)) ≡ ok 7350
parse_tenths_mm-format_tenths_mm_example =
    parse_tenths_mm-format_tenths_mm naturals naturals-ReadsDecimals 7350 (omega arith)

env_mqtt-fields_example : env_mqtt env sample.mqtt ≡ record sample.mqtt {
  broker = value_or (env (codes "MQTT_LINAK_BROKER")) sample.mqtt.broker;
  client_id = value_or (env (codes "MQTT_LINAK_CLIENT_ID")) sample.mqtt.client_id;
  username = value_or (env (codes "MQTT_LINAK_USERNAME")) sample.mqtt.username;
  password = value_or (env (codes "MQTT_LINAK_PASSWORD")) sample.mqtt.password;
  command_topic_base =
      value_or (env (codes "MQTT_LINAK_COMMAND_TOPIC_BASE")) sample.mqtt.command_topic_base;
  metric_topic_base =
      value_or (env (codes "MQTT_LINAK_METRIC_TOPIC_BASE")) sample.mqtt.metric_topic_base;
  qos = qos_or (env (codes "MQTT_LINAK_QOS")) sample.mqtt.qos;
  retain = retain_or (env (codes "MQTT_LINAK_RETAIN")) sample.mqtt.retain;
}
env_mqtt-fields_example = env_mqtt-fields env sample.mqtt
