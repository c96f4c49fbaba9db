-- ===== src/Tests/Data.antt =====
-- Inputs that the tests share.
use mqtt_linak.Base.{
  negsuc, ◌^◌, ◌-◌, ℕ, ◌*◌, true, false, none, [], ◌∷◌, codes, pos, refl, digits_value, ok,
}
use mqtt_linak.Config.{Config, Desk, second}
use mqtt_linak.Topics.{Numbers}
use mqtt_linak.Topics.Payload.{ReadsDecimals}
use mqtt_linak.Config.Load.{Yaml}

abbrev pub office : Desk
office = record {
  id = codes "office";
  name = codes "Desk 8802";
  name_prefix = [];
  peripheral_id = [];
}

abbrev pub lab : Desk
lab = record { id = codes "lab"; name = []; name_prefix = codes "Desk "; peripheral_id = [] }

abbrev pub sample : Config
sample = record {
  mqtt = record {
    broker = codes "mqtt://localhost:1883";
    client_id = codes "mqtt-linak";
    username = [];
    password = [];
    qos = 0;
    retain = true;
    command_topic_base = codes "cmd/linak";
    metric_topic_base = codes "tele/linak";
    debug = false;
    keep_alive = pos (30 * second);
    connect_timeout = pos (10 * second);
  };
  bluetooth = record {
    helper_path = [];
    scan_service_uuids = none;
    wake_on_connect = true;
    connect_timeout = pos (30 * second);
    reconnect_min_backoff = pos (2 * second);
    reconnect_max_backoff = pos (60 * second);
    keep_alive_interval = pos (3600 * second);
    publish_min_interval = pos 250_000_000;
  };
  desks = office ∷ lab ∷ [];
}

-- Floating-point numbers of which only the natural ones are told apart, and no JSON.
abbrev pub naturals : Numbers ℕ
naturals = record {
  parse_float = digits_value;
  is_nan = λ v. false;
  is_inf = λ v. false;
  round = pos;
  overflow = λ x. negsuc (2 ^ 63 - 1);
  unmarshal = λ s. none;
}

pub naturals-ReadsDecimals : ReadsDecimals naturals
naturals-ReadsDecimals s n e le = (n, e, refl, refl, refl)

-- A YAML package that reads every document as the sample.
abbrev pub constant : Yaml ℕ
constant = record {
  probe = λ raw. ok none;
  decode = λ raw c. ok sample;
  decode_bluetooth = λ raw b. ok sample.bluetooth;
}
