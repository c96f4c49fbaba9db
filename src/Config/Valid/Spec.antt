-- ===== src/Config/Valid/Spec.antt =====
-- internal/config/config.go: a configuration that is fit for use, said without tests.
use mqtt_linak.Base.{
  ◌≤◌, ◌≢◌, List, [], ◌∷◌, ◌++◌, All, Text, pos, ◌≤ℤ◌, ◌<ℤ◌, IsBlank, IsTrimmed, Lacks, is_space,
}
use mqtt_linak.Config.{Desk, Config, reserved_desk_id}

-- A prefix of topics: not blank, with no wildcard, and with no slash at its end.
pub record IsTopicBase (v : Text) : Type 0 where
  pub visible : ¬ IsBlank v
  pub no_plus : Lacks b'+' v
  pub no_hash : Lacks b'#' v
  pub no_slash : (t : Text) → v ≢ t ++ b'/' ∷ []

-- One level of a topic, and not the bridge's own.
pub record IsDeskId (id : Text) : Type 0 where
  pub visible : ¬ IsBlank id
  pub trimmed : IsTrimmed is_space id
  pub no_slash : Lacks b'/' id
  pub no_plus : Lacks b'+' id
  pub no_hash : Lacks b'#' id
  pub not_reserved : id ≢ reserved_desk_id

-- Exactly one of the three is more than white space.
pub data HasOneMatcher (d : Desk) : Type 0 where
  by_name : ¬ IsBlank d.name → IsBlank d.name_prefix → IsBlank d.peripheral_id → HasOneMatcher d
  by_prefix : IsBlank d.name → ¬ IsBlank d.name_prefix → IsBlank d.peripheral_id → HasOneMatcher d
  by_peripheral :
      IsBlank d.name → IsBlank d.name_prefix → ¬ IsBlank d.peripheral_id → HasOneMatcher d

pub record IsDesk (d : Desk) : Type 0 where
  pub proper_id : IsDeskId d.id
  pub one_matcher : HasOneMatcher d

-- No two desks share an id.
abbrev pub Distinct : List Desk → Type 0
Distinct [] = Unit
Distinct (d ∷ ds) = All (λ (e : Desk). e.id ≢ d.id) ds × Distinct ds

pub record IsValid (c : Config) : Type 0 where
  pub broker : ¬ IsBlank c.mqtt.broker
  pub qos : c.mqtt.qos ≤ 2
  pub command_base : IsTopicBase c.mqtt.command_topic_base
  pub metric_base : IsTopicBase c.mqtt.metric_topic_base
  pub some_desk : c.desks ≢ []
  pub proper_desks : All IsDesk c.desks
  pub distinct_ids : Distinct c.desks
  pub min_backoff : pos 0 <ℤ c.bluetooth.reconnect_min_backoff
  pub max_backoff : c.bluetooth.reconnect_min_backoff ≤ℤ c.bluetooth.reconnect_max_backoff
  pub connect_timeout : pos 0 <ℤ c.bluetooth.connect_timeout
