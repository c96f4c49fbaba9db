-- ===== src/Tests/Commands.antt =====
-- cmd/mqtt-linak/main.go: runs of the program.
use mqtt_linak.Base.{
  ℕ, ◌≡◌, refl, false, Option, none, List, [], Text, codes, ok, text_eq, to_lower, is_nil,
  trim_space, contains_any, has_suffix,
}
use mqtt_linak.Config.{
  Bluetooth, Config, validate, valid_topic_base, valid_desk_id, valid_matchers, validate_desks,
  no_desk, is_seen,
}
use mqtt_linak.Config.Valid.Spec.{IsValid}
use mqtt_linak.Config.Env.{apply_env}
use mqtt_linak.Config.Load.{FileAnswer, contents, load, parse, with_uuids}
use mqtt_linak.Bridge.Scan.{Sighting, InventoryError}
use mqtt_linak.CommandLine.{
  Level, Format, Flags, new_logger, chosen_path, with_debug, exit_code, main,
}
use mqtt_linak.CommandLine.Laws.{main-RanWith}
use mqtt_linak.Tests.Data.{constant}
use mqtt_linak.Tests.Configs.{env, read}

abbrev plain_flags : Flags
plain_flags = record {
  config_path = codes "config.yaml";
  config_given = false;
  log_level = codes "INFO";
  log_format = [];
  mqtt_debug = false;
  scan_only = false;
  show_version = false;
}

abbrev loud_flags : Flags
loud_flags = record plain_flags { log_level = codes "loud" }

abbrev empty_file : Text → FileAnswer ℕ
empty_file path = contents []

abbrev nothing_found : Bluetooth → List Sighting × Option InventoryError
nothing_found bt = ([], none)

abbrev bridge_stops : Config → Option ℕ
bridge_stops c = none

main-RanWith_example :
    (plain_flags.show_version ≡ false)
    × ((l : Level × Format) × (new_logger plain_flags.log_level plain_flags.log_format ≡ ok l))
    × (plain_flags.scan_only ≡ false)
    × IsValid read
    × (d : Config) × (load constant env (empty_file (chosen_path env plain_flags)) ≡ ok d)
    × (read ≡ with_debug false d)
unfolding main load with_debug read parse env apply_env validate is_nil trim_space valid_topic_base
    contains_any has_suffix no_desk validate_desks valid_desk_id is_seen valid_matchers text_eq
    to_lower new_logger with_uuids
main-RanWith_example =
    main-RanWith constant env empty_file nothing_found bridge_stops plain_flags read refl

refused : exit_code (main constant env empty_file nothing_found bridge_stops loud_flags) ≡ 2
unfolding exit_code main new_logger text_eq to_lower
refused = refl
