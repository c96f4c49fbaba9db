-- ===== src/Config.antt =====
-- internal/config/config.go: the configuration, its defaults and its validation. A Duration is a
-- time.Duration, an int64 of nanoseconds; a nil slice is `none`.
pub mod Valid
pub mod Env
pub mod Load
use mqtt_linak.Base.{
  ℕ, suc, ◌*◌, Bool, true, false, not, ◌||◌, Option, none, some, List, [], ◌∷◌, Text, codes, ℤ, pos,
  ◌==◌, ltb, ltb_ℤ, leb_ℤ, if◌then◌else◌, is_nil, text_eq, trim_space, contains_any, has_suffix,
}

abbrev pub Duration : Type 0
Duration = ℤ

abbrev pub millisecond : ℕ
millisecond = 1_000_000

abbrev pub second : ℕ
second = 1_000_000_000

abbrev pub hour : ℕ
hour = 3_600_000_000_000

pub record Mqtt : Type 0 where
  pub broker : Text
  pub client_id : Text
  pub username : Text
  pub password : Text
  pub qos : ℕ
  pub retain : Bool
  pub command_topic_base : Text
  pub metric_topic_base : Text
  pub debug : Bool
  pub keep_alive : Duration
  pub connect_timeout : Duration

pub record Bluetooth : Type 0 where
  pub helper_path : Text
  pub scan_service_uuids : Option (List Text)
  pub wake_on_connect : Bool
  pub connect_timeout : Duration
  pub reconnect_min_backoff : Duration
  pub reconnect_max_backoff : Duration
  pub keep_alive_interval : Duration
  pub publish_min_interval : Duration

pub record Desk : Type 0 where
  pub id : Text
  pub name : Text
  pub name_prefix : Text
  pub peripheral_id : Text

pub record Config : Type 0 where
  pub mqtt : Mqtt
  pub bluetooth : Bluetooth
  pub desks : List Desk

abbrev pub reserved_desk_id : Text
reserved_desk_id = codes "bridge"

unfoldable pub default_config : Config
default_config = record {
  mqtt = record {
    broker = [];
    client_id = codes "mqtt-linak";
    username = [];
    password = [];
    qos = 0;
    retain = true;
    command_topic_base = codes "cmd/linak";
    metric_topic_base = codes "tele/linak";
    debug = false;
    keep_alive = pos (30 * second);
    connect_timeout = pos (10 * second);
  };
  bluetooth = record {
    helper_path = [];
    scan_service_uuids = none;
    wake_on_connect = true;
    connect_timeout = pos (30 * second);
    reconnect_min_backoff = pos (2 * second);
    reconnect_max_backoff = pos (60 * second);
    keep_alive_interval = pos hour;
    publish_min_interval = pos (250 * millisecond);
  };
  desks = [];
}

pub data TopicBaseError : Type 0 where
  base_empty base_wildcard base_slash : TopicBaseError

pub data DeskError : Type 0 where
  id_required id_spaces id_characters id_reserved id_duplicate : DeskError
  no_matcher many_matchers : DeskError

-- The messages, less their fixed words.
pub data ConfigError : Type 0 where
  broker_required : ConfigError
  bad_qos : ℕ → ConfigError
  bad_command_base : TopicBaseError → ConfigError
  bad_metric_base : TopicBaseError → ConfigError
  no_desks : ConfigError
  bad_desk : ℕ → Text → DeskError → ConfigError
  min_backoff_not_positive : ConfigError
  max_backoff_too_small : ConfigError
  connect_timeout_not_positive : ConfigError

-- `if err := …; err != nil { return err }` and what follows.
infixr 20 ◌or_else◌
abbrev pub ◌or_else◌ {ℓ} : {E : Type ℓ} → Option E → Option E → Option E
none or_else next = next
some e or_else next = some e

-- The same where the error is wrapped.
abbrev pub wrap {ℓ κ} : {D : Type ℓ} {E : Type κ} → (D → E) → Option D → Option E
wrap f none = none
wrap f (some d) = some (f d)

-- `if bad { return e }`
abbrev pub fail_if {ℓ} : {E : Type ℓ} → Bool → E → Option E
fail_if bad e = if bad then some e else none

unfoldable pub valid_topic_base : Text → Option TopicBaseError
valid_topic_base v =
    if is_nil (trim_space v)
    then some base_empty
    else if contains_any v (codes "+#")
    then some base_wildcard
    else if has_suffix v (codes "/")
    then some base_slash
    else none

unfoldable pub valid_desk_id : Text → Option DeskError
valid_desk_id id =
    if is_nil (trim_space id)
    then some id_required
    else if not (text_eq id (trim_space id))
    then some id_spaces
    else if contains_any id (codes "/+#")
    then some id_characters
    else if text_eq id reserved_desk_id
    then some id_reserved
    else none

-- `_, dup := seen[id]`
unfoldable pub is_seen : Text → List Text → Bool
is_seen id [] = false
is_seen id (s ∷ seen) = text_eq id s || is_seen id seen

-- One round of the loop that counts the matchers.
unfoldable pub count_set : List Text → ℕ
count_set [] = 0
count_set (v ∷ vs) = if is_nil (trim_space v) then count_set vs else suc (count_set vs)

unfoldable pub valid_matchers : Desk → Option DeskError
unfolding count_set
valid_matchers d =
    let matchers = count_set (d.name ∷ d.name_prefix ∷ d.peripheral_id ∷ []) in
    if matchers == 0 then some no_matcher else if ltb 1 matchers then some many_matchers else none

-- The loop over the desks, with the index and the map `seen`.
unfoldable pub validate_desks : ℕ → List Text → List Desk → Option ConfigError
validate_desks i seen [] = none
validate_desks i seen (d ∷ ds) =
    wrap (bad_desk i d.id) (valid_desk_id d.id)
    or_else fail_if (is_seen d.id seen) (bad_desk i d.id id_duplicate)
    or_else wrap (bad_desk i d.id) (valid_matchers d)
    or_else validate_desks (suc i) (d.id ∷ seen) ds

unfoldable pub no_desk : List Desk → Bool
no_desk [] = true
no_desk (d ∷ ds) = false

-- `none` is a nil error.
unfoldable pub validate : Config → Option ConfigError
validate c =
    fail_if (is_nil (trim_space c.mqtt.broker)) broker_required
    or_else fail_if (ltb 2 c.mqtt.qos) (bad_qos c.mqtt.qos)
    or_else wrap bad_command_base (valid_topic_base c.mqtt.command_topic_base)
    or_else wrap bad_metric_base (valid_topic_base c.mqtt.metric_topic_base)
    or_else fail_if (no_desk c.desks) no_desks
    or_else validate_desks 0 [] c.desks
    or_else fail_if (leb_ℤ c.bluetooth.reconnect_min_backoff (pos 0)) min_backoff_not_positive
    or_else fail_if (ltb_ℤ c.bluetooth.reconnect_max_backoff c.bluetooth.reconnect_min_backoff)
        max_backoff_too_small
    or_else fail_if (leb_ℤ c.bluetooth.connect_timeout (pos 0)) connect_timeout_not_positive
