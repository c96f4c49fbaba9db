-- ===== src/CommandLine.antt =====
-- cmd/mqtt-linak/main.go: the command line. What `flag.Parse` makes of the arguments, the environment,
-- the files and the two modes of work below are parameters.
pub mod Ways
pub mod Laws
use mqtt_linak.Base.{
  ℕ, Bool, true, false, not, ◌&&◌, ◌||◌, Option, none, some, List, [], ◌∷◌, Text, codes, text_eq,
  to_lower, is_nil, Result, ok, err, if◌then◌else◌,
}
use mqtt_linak.Config.{Bluetooth, Config}
use mqtt_linak.Config.Load.{Yaml, FileAnswer, LoadError, load, load_bluetooth}
use mqtt_linak.Bridge.Scan.{Sighting, InventoryError}

pub data Level : Type 0 where
  debug info warn error : Level

pub data Format : Type 0 where
  plain json : Format

pub data LoggerError : Type 0 where
  unknown_level unknown_format : Text → LoggerError

-- The first switch of `newLogger`, on the level in lower case.
unfoldable pub level_of : Text → Option Level
level_of s =
    if text_eq s (codes "debug")
    then some debug
    else if text_eq s (codes "info")
    then some info
    else if text_eq s (codes "warn") || text_eq s (codes "warning")
    then some warn
    else if text_eq s (codes "error")
    then some error
    else none

-- The second.
unfoldable pub format_of : Text → Option Format
format_of s =
    if text_eq s (codes "text") || is_nil s
    then some plain
    else if text_eq s (codes "json")
    then some json
    else none

unfoldable pub new_logger : Text → Text → Result LoggerError (Level × Format)
unfolding level_of format_of
new_logger level format = elim (level_of (to_lower level)) [
  | none ↦ err (unknown_level level)
  | some l ↦ elim (format_of (to_lower format)) [
    | none ↦ err (unknown_format format)
    | some f ↦ ok (l, f)
  ]
]

-- The flags, and whether -config was given.
pub record Flags : Type 0 where
  pub config_path : Text
  pub config_given : Bool
  pub log_level : Text
  pub log_format : Text
  pub mqtt_debug : Bool
  pub scan_only : Bool
  pub show_version : Bool

-- What the program does before it exits.
pub data Outcome (E B : Type 0) : Type 0 where
  printed_version : Outcome E B
  refused_logger : LoggerError → Outcome E B
  scan_refused : LoadError E → Outcome E B
  scan_failed : InventoryError → Outcome E B
  listed : List Sighting → Outcome E B
  refused_config : LoadError E → Outcome E B
  bridge_failed : Config → B → Outcome E B
  bridge_stopped : Config → Outcome E B

-- `os.Getenv` is empty where the variable is not set.
unfoldable pub getenv : (Text → Option Text) → Text → Text
getenv lookup key = elim (lookup key) [ none ↦ [] | some v ↦ v ]

-- The environment fills in the path if the flag was not given.
unfoldable pub chosen_path : (Text → Option Text) → Flags → Text
unfolding getenv
chosen_path lookup flags =
    let env = getenv lookup (codes "MQTT_LINAK_CONFIG") in
    if not (is_nil env) && not flags.config_given then env else flags.config_path

unfoldable pub with_debug : Bool → Config → Config
with_debug on c = if on then record c { mqtt = record c.mqtt { debug = true } } else c

module _ {E B : Type 0} (yaml : Yaml E) (lookup : Text → Option Text)
    (read_file : Text → FileAnswer E)
    (inventory : Bluetooth → List Sighting × Option InventoryError)
    (run_bridge : Config → Option B) where
  unfoldable pub list_or_fail : List Sighting → Option InventoryError → Outcome E B
  list_or_fail [] (some e) = scan_failed e
  list_or_fail ss e = listed ss

  unfoldable pub run_scan : Text → Outcome E B
  unfolding load_bluetooth list_or_fail
  run_scan path = elim (load_bluetooth yaml lookup (read_file path)) [
    | err e ↦ scan_refused e
    | ok bt ↦ list_or_fail (inventory bt).0 (inventory bt).1
  ]

  unfoldable pub run_daemon : Bool → Text → Outcome E B
  unfolding load with_debug
  run_daemon mqtt_debug path = elim (load yaml lookup (read_file path)) [
    | err e ↦ refused_config e
    | ok c ↦ elim (run_bridge (with_debug mqtt_debug c)) [
      | some e ↦ bridge_failed (with_debug mqtt_debug c) e
      | none ↦ bridge_stopped (with_debug mqtt_debug c)
    ]
  ]

  unfoldable pub main : Flags → Outcome E B
  unfolding new_logger chosen_path run_scan run_daemon
  main flags =
      if flags.show_version
      then printed_version
      else elim (new_logger flags.log_level flags.log_format) [
        | err e ↦ refused_logger e
        | ok l ↦
            if flags.scan_only
            then run_scan (chosen_path lookup flags)
            else run_daemon flags.mqtt_debug (chosen_path lookup flags)
      ]

-- The exit code.
unfoldable pub exit_code : {E B : Type 0} → Outcome E B → ℕ
exit_code (refused_logger e) = 2
exit_code (scan_refused e) = 1
exit_code (scan_failed e) = 1
exit_code (refused_config e) = 1
exit_code (bridge_failed c e) = 1
exit_code _ = 0
