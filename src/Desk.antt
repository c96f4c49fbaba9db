-- ===== src/Desk.antt =====
-- internal/bridge/desk.go: the state of one desk's manager and the handlers that other goroutines
-- call. A channel of capacity one is an Option or a Bool, the command channel a list of at most
-- eight; an instant is a number of nanoseconds, and a zero time.Time is `none`.
pub mod Run
pub mod Machine
use mqtt_linak.Base.{
  ℕ, zero, suc, ◌+◌, ◌*◌, ◌/◌, Bool, true, false, not, ◌&&◌, ◌||◌, Option, none, some, List, [],
  ◌∷◌, ◌++◌, Text, codes, ℤ, pos, sub_ℕ, ◌+ℤ◌, wrap64, ltb, ltb_ℤ, leb_ℤ, eq_ℤ, if◌then◌else◌,
  is_nil, length, take, Result, ok, err, to_upper,
}
use mqtt_linak.Config
use mqtt_linak.Config.{Config, Duration, second}
use mqtt_linak.Throttle.{Throttle, new_throttle, set, reset}
use mqtt_linak.Topics.{
  leaf_height, leaf_base_height, leaf_availability, metric_topic, Numbers, parse_tenths_mm,
  format_tenths_mm,
}

pub data CommandKind : Type 0 where
  height base_height : CommandKind

-- `commandKind.String`
unfoldable pub kind_string : CommandKind → Text
kind_string base_height = leaf_base_height
kind_string height = leaf_height

pub record Command : Type 0 where
  pub kind : CommandKind
  pub value : ℕ

-- How a call of `connectAndServe` returns: nil, errDisconnected, or another error.
pub data Ending : Type 0 where
  stopped dropped failed : Ending

-- The characteristics that `discover` asks for, in its order.
pub data Characteristic : Type 0 where
  reference_output reference_input desk_panel : Characteristic

-- Where the goroutine of `run` stands: at the head of its loop, at a call that it waits for, in the
-- select of the serve loop, or behind `connectAndServe`.
pub data Place : Type 0 where
  top resolving connecting creating waking stopping owning serving : Place
  discovering rearming : Characteristic → Place
  moving writing_base reading_base keeping_alive sleeping over : Place
  disconnecting returned : Ending → Place

pub record Manager : Type 0 where
  pub cfg : Config.Desk
  pub want_resolve : Bool
  pub resolved : Option Text
  pub peripheral_id : Text
  pub disconnected : Bool
  pub commands : List Command
  pub has_desk : Bool
  pub subs_set : Bool
  pub throttle : Throttle
  pub last_height : ℤ
  pub has_height : Bool
  pub last_base : ℤ
  pub has_base : Bool
  pub online : Bool
  pub online_at : Option ℕ
  pub last_held : Duration
  pub last_activity : Option ℕ
  pub consec_failure : ℕ
  -- the variable `backoff` of `run`, its place, and whether its context is cancelled
  pub backoff : Duration
  pub place : Place
  pub cancelled : Bool

-- What a manager asks of the MQTT client, of the Bluetooth packages, of the timer, and of the bridge.
pub data Effect : Type 0 where
  publish publish_retained : Text → Text → Effect
  connect disconnect : Text → Effect
  forget_handles new_desk add_callback : Effect
  get_characteristic set_notify : Characteristic → Effect
  wake_up stop take_ownership base_offset : Effect
  move write_base_offset : ℕ → Effect
  sleep : Duration → Effect
  wake_scanner : Effect
  delete_peripheral : Text → Effect

abbrev pub online_payload : Text
online_payload = codes "online"

abbrev pub offline_payload : Text
offline_payload = codes "offline"

abbrev pub command_capacity : ℕ
command_capacity = 8

unfoldable pub max_duration : Duration → Duration → Duration
max_duration a b = if ltb_ℤ b a then a else b

unfoldable pub truncate : Text → ℕ → Text
truncate s n = if ltb n (length s) then take n s ++ codes "..." else s

unfoldable pub match_description : Config.Desk → Text
match_description d =
    if is_nil d.peripheral_id
    then codes "name=" ++ d.name
    else codes "peripheral_id=" ++ d.peripheral_id

unfoldable pub mark_activity : ℕ → Manager → Manager
mark_activity now m = record m { last_activity = some now }

-- `m.lastActivity.IsZero` is tested first.
unfoldable pub idle_for : ℕ → Manager → Duration
idle_for now m = elim m.last_activity [ none ↦ pos 0 | some at ↦ sub_ℕ now at ]

unfoldable pub set_online : Bool → ℕ → Manager → Manager
set_online true now m = record m { online = true; online_at = some now }
set_online false now m = elim m.online_at [
  | some at ↦ record m { online = false; last_held = sub_ℕ now at; online_at = none }
  | none ↦ record m { online = false; last_held = pos 0 }
]

unfoldable pub forget_peripheral : Manager → Manager × List Effect
forget_peripheral m = (
  record m { peripheral_id = []; consec_failure = 0 },
  if is_nil m.peripheral_id then [] else delete_peripheral (to_upper m.peripheral_id) ∷ [],
)

module _ (c : Config) where
  unfoldable pub new_desk_manager : Config.Desk → Manager
  unfolding new_throttle
  new_desk_manager d = record {
    cfg = d;
    want_resolve = false;
    resolved = none;
    peripheral_id = [];
    disconnected = false;
    commands = [];
    has_desk = false;
    subs_set = false;
    throttle = new_throttle c.bluetooth.publish_min_interval;
    last_height = pos 0;
    has_height = false;
    last_base = pos 0;
    has_base = false;
    online = false;
    online_at = none;
    last_held = pos 0;
    last_activity = none;
    consec_failure = 0;
    backoff = c.bluetooth.reconnect_min_backoff;
    place = top;
    cancelled = false;
  }

  -- `m.topic`
  unfoldable pub topic : Manager → Text → Text
  topic m leaf = metric_topic c.mqtt.metric_topic_base m.cfg.id leaf

  unfoldable pub publish_height : Manager → ℤ → Manager × List Effect
  unfolding topic
  publish_height m v = (
    record m { last_height = v; has_height = true },
    publish (topic m leaf_height) (format_tenths_mm v) ∷ [],
  )

  -- What the throttle hands to its callback is published.
  unfoldable pub publish_throttled : Manager → Throttle × Option ℤ → Manager × List Effect
  unfolding publish_height
  publish_throttled m (t, none) = (record m { throttle = t }, [])
  publish_throttled m (t, some v) = publish_height (record m { throttle = t }) v

  unfoldable pub on_reference_output : Manager → ℤ → ℤ → ℕ → Manager × List Effect
  unfolding publish_throttled set
  on_reference_output m extension speed now =
      publish_throttled m (set m.throttle extension (eq_ℤ speed (pos 0)) now)

  unfoldable pub on_base_offset : Manager → ℤ → Manager × List Effect
  unfolding topic
  on_base_offset m v = (
    record m { last_base = v; has_base = true },
    publish (topic m leaf_base_height) (format_tenths_mm v) ∷ [],
  )

  unfoldable pub republish_state : Manager → List Effect
  unfolding topic
  republish_state m =
      publish_retained (topic m leaf_availability)
          (if m.online then online_payload else offline_payload)
        ∷ (if m.has_height
            then publish (topic m leaf_height) (format_tenths_mm m.last_height) ∷ []
            else [])
      ++ (if m.has_base
          then publish (topic m leaf_base_height) (format_tenths_mm m.last_base) ∷ []
          else [])

-- A full queue drops the command.
unfoldable pub enqueue : Manager → Command → Manager
enqueue m cmd =
    if ltb (length m.commands) command_capacity
    then record m { commands = m.commands ++ cmd ∷ [] }
    else m

module _ {F : Type 0} (nums : Numbers F) where
  unfoldable pub submit : Manager → CommandKind → Text → Manager
  unfolding enqueue
  submit m kind payload = elim (parse_tenths_mm nums payload) [
    | err e ↦ m
    | ok value ↦ if not m.online then m else enqueue m (record { kind = kind; value = value })
  ]
