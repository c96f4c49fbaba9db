-- ===== src/Mqttc/Options.antt =====
-- internal/mqttc/mqttc.go: what `New` asks of paho. `mqtt.NewClient`, which keeps the options, is not
-- the repository's code.
use mqtt_linak.Base.{
  Bool, true, false, Option, none, some, Text, Result, ok, is_nil, if◌then◌else◌, trim_space, ℕ,
}
use mqtt_linak.Config.{Mqtt, Duration}
use mqtt_linak.Mqttc.{Client, new, offline}

-- The message that the broker publishes for a client that is gone without a Disconnect.
pub record Will : Type 0 where
  pub topic : Text
  pub payload : Text
  pub qos : ℕ
  pub retained : Bool

-- The setters of `mqtt.ClientOptions` that `New` calls.
pub record ClientOptions : Type 0 where
  pub broker : Text
  pub client_id : Text
  pub username : Text
  pub password : Text
  pub keep_alive : Duration
  pub connect_timeout : Duration
  pub auto_reconnect : Bool
  pub connect_retry : Bool
  pub clean_session : Bool
  pub order_matters : Bool
  pub will : Option Will

unfoldable pub client_options : Mqtt → Text → ClientOptions
unfolding new
client_options cfg will_topic =
    let c : Client (Unit {0}) = new cfg in
    record {
      broker = cfg.broker;
      client_id = cfg.client_id;
      username = cfg.username;
      password = cfg.password;
      keep_alive = cfg.keep_alive;
      connect_timeout = c.connect_timeout;
      auto_reconnect = false;
      connect_retry = false;
      clean_session = true;
      order_matters = false;
      will =
          if is_nil will_topic
          then none
          else some
              (record { topic = will_topic; payload = offline; qos = cfg.qos; retained = true });
    }

pub data Level : Type 0 where
  debug warn error : Level

-- The package's own loggers, none of which writes anything before they are wired.
pub record PahoLogging : Type 0 where
  pub wired : Bool
  pub at_critical : Option Level
  pub at_error : Option Level
  pub at_warn : Option Level
  pub at_debug : Option Level

abbrev pub silent : PahoLogging
silent = record {
  wired = false;
  at_critical = none;
  at_error = none;
  at_warn = none;
  at_debug = none;
}

-- `wirePahoLogging`, with its `sync.Once`.
unfoldable pub wire_paho_logging : Bool → PahoLogging → PahoLogging
wire_paho_logging on l = if l.wired then l else record {
  wired = true;
  at_critical = some error;
  at_error = some warn;
  at_warn = some debug;
  at_debug = if on then some debug else l.at_debug;
}

-- `New` has an error among its results and no way to it.
unfoldable pub new_client :
    {E H : Type 0} → PahoLogging → Mqtt → Text → Result E (PahoLogging × ClientOptions × Client H)
unfolding wire_paho_logging client_options new
new_client l cfg will_topic =
    ok (wire_paho_logging cfg.debug l, client_options cfg will_topic, new cfg)

-- `Println` and `Printf` of `pahoLogger`, behind the formatting of `fmt`.
unfoldable paho_line : Option Level → Text → Option (Level × Text)
paho_line none line = none
paho_line (some l) line = some (l, trim_space line)

-- Both results of `tok.WaitTimeout` and `tok.Error` in `connectOnce`: the token has not resolved in
-- time, or it has, with an error or without one.
data TokenAnswer (E : Type 0) : Type 0 where
  unresolved : TokenAnswer E
  resolved : Option E → TokenAnswer E

data ConnectError (E : Type 0) : Type 0 where
  timed_out : Duration → ConnectError E
  refused : E → ConnectError E

unfoldable connect_once : {E H : Type 0} → Client H → TokenAnswer E → Option (ConnectError E)
connect_once c unresolved = some (timed_out c.connect_timeout)
connect_once c (resolved none) = none
connect_once c (resolved (some e)) = some (refused e)
