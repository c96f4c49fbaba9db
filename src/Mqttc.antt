-- ===== src/Mqttc.antt =====
-- internal/mqttc/mqttc.go: the MQTT client. What it asks of paho, of the timer and of its caller is
-- a list of effects; what paho answers is an argument.
pub mod Machine
pub mod Options
pub mod Recovery
pub mod Subscriptions
use mqtt_linak.Base.{
  ℕ, ◌*◌, ◌+◌, Bool, true, false, ◌||◌, not, Option, none, some, List, [], ◌∷◌, ◌++◌, Text, codes,
  ℤ, pos, ltb, ltb_ℤ, leb_ℤ, if◌then◌else◌, ◌==◌, is_nil, to_lower, contains,
}
use mqtt_linak.Config.{Mqtt, Duration, second}

abbrev pub online : Text
online = codes "online"

abbrev pub offline : Text
offline = codes "offline"

-- In nanoseconds.
abbrev pub min_backoff : ℕ
min_backoff = 2 * second

abbrev pub max_backoff : ℕ
max_backoff = 60 * second

-- A handler is named by what it is called with besides the message; `H` is the type of such names.
pub record Subscription (H : Type 0) : Type 0 where
  pub filter : Text
  pub handler : H

-- Where `Run` stands: at the head of its loop, in `connectOnce`, waiting for a lost connection,
-- asleep, or returned.
pub data Place : Type 0 where
  top dialling up asleep over : Place

-- `open` is `IsConnectionOpen` of paho's client, `lost` the channel of capacity one.
pub record Client (H : Type 0) : Type 0 where
  pub username : Text
  pub connect_timeout : Duration
  pub qos : ℕ
  pub retain : Bool
  pub lost : Bool
  pub subs : List (Subscription H)
  pub is_open : Bool
  pub backoff : ℕ
  pub place : Place
  pub cancelled : Bool

pub data Effect (H : Type 0) : Type 0 where
  dial : Effect H
  subscribe : Text → ℕ → H → Effect H
  publish : Text → ℕ → Bool → Text → Effect H
  on_reconnect : Effect H
  sleep : ℕ → Effect H
  disconnect : Effect H

abbrev pub default_timeout : Duration
default_timeout = pos (10 * second)

unfoldable pub username_for_log : {H : Type 0} → Client H → Text
username_for_log c = if is_nil c.username then codes "(none)" else c.username

-- Of the message of an error.
unfoldable pub is_auth_error : Text → Bool
is_auth_error message =
    let s = to_lower message in
    contains s (codes "not authorized")
    || (contains s (codes "bad user name or password")
        || contains s (codes "bad username or password"))

module _ {H : Type 0} where
  -- `New`: nothing is connected.
  unfoldable pub new : Mqtt → Client H
  new cfg = record {
    username = cfg.username;
    connect_timeout =
        if leb_ℤ cfg.connect_timeout (pos 0) then default_timeout else cfg.connect_timeout;
    qos = cfg.qos;
    retain = cfg.retain;
    lost = false;
    subs = [];
    is_open = false;
    backoff = min_backoff;
    place = top;
    cancelled = false;
  }

  -- `subscribeOne`; of the client it reads the QoS.
  unfoldable pub subscribe_one : ℕ → Subscription H → Effect H
  subscribe_one qos s = subscribe s.filter qos s.handler

  -- `Subscribe`
  unfoldable pub add_subscription : Text → H → Client H → Client H × List (Effect H)
  unfolding subscribe_one
  add_subscription filter h c =
      let s : Subscription H = record { filter = filter; handler = h } in
      (record c { subs = c.subs ++ s ∷ [] }, if c.is_open then subscribe_one c.qos s ∷ [] else [])

  -- The loop of `resubscribe`, over a copy of the subscriptions.
  unfoldable pub subscribe_all : ℕ → List (Subscription H) → List (Effect H)
  unfolding subscribe_one
  subscribe_all qos [] = []
  subscribe_all qos (s ∷ ss) = subscribe_one qos s ∷ subscribe_all qos ss

  unfoldable pub resubscribe : Client H → List (Effect H)
  unfolding subscribe_all
  resubscribe c = subscribe_all c.qos c.subs

  -- `publish`
  unfoldable pub send : Client H → Text → Text → Bool → List (Effect H)
  send c topic payload retain =
      if not c.is_open then [] else publish topic c.qos retain payload ∷ []

  -- `Publish` and `PublishRetained`
  unfoldable pub publish_metric : Client H → Text → Text → List (Effect H)
  unfolding send
  publish_metric c topic payload = send c topic payload c.retain

  unfoldable pub publish_retained : Client H → Text → Text → List (Effect H)
  unfolding send
  publish_retained c topic payload = send c topic payload true

  -- The connect handler of paho.
  unfoldable pub on_connect : Client H → List (Effect H)
  unfolding resubscribe
  on_connect c = resubscribe c ++ on_reconnect ∷ []

  -- The connection-lost handler.
  unfoldable pub on_connection_lost : Client H → Client H
  on_connection_lost c = record c { is_open = false; lost = true }

  -- The head of the loop of `Run`: a drop of the previous connection is discarded.
  unfoldable pub loop_top : Client H → Client H × List (Effect H)
  loop_top c =
      if c.cancelled
      then (record c { place = over }, [])
      else (record c { lost = false; place = dialling }, dial ∷ [])

  -- `connectOnce` has returned, with or without an error.
  unfoldable pub dialled : Bool → Client H → Client H × List (Effect H)
  dialled true c = (record c { backoff = min_backoff; place = up }, [])
  dialled false c = (record c { place = asleep }, sleep c.backoff ∷ [])

  -- The sleep is over.
  unfoldable pub next_round : Client H → Client H
  next_round c = record c {
    backoff = if ltb max_backoff (c.backoff * 2) then max_backoff else c.backoff * 2;
    place = top;
  }

  unfoldable pub close : Client H → Client H × List (Effect H)
  close c = (record c { is_open = false }, disconnect ∷ [])
