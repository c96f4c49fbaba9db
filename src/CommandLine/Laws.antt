-- ===== src/CommandLine/Laws.antt =====
-- cmd/mqtt-linak/main.go: what an exit code says, and with what the bridge is run.
use mathlib.Core.Path.{subst}
use mqtt_linak.Base.{
  ◌≤◌, sym, ap, ◌≡◌, ◌↔◌, inl, inr, Bool, true, false, Option, none, some, List, [], ◌∷◌, Text,
  Result-cases, ok, err, arith,
}
use mqtt_linak.Config.{Bluetooth, Config}
use mqtt_linak.Config.Valid.Spec.{IsValid}
use mqtt_linak.Config.Load.{Yaml, FileAnswer, contents, load, load_bluetooth}
use mqtt_linak.Config.Load.Laws.{parse_sound}
use mqtt_linak.Bridge.Scan.{Sighting, InventoryError}
use mqtt_linak.CommandLine.{
  Level, Format, LoggerError, new_logger, Flags, Outcome, bridge_failed, bridge_stopped, with_debug,
  list_or_fail, run_scan, run_daemon, main, exit_code, chosen_path,
}
use mqtt_linak.CommandLine.Ways.{Way, version, logger, scan, daemon, way, main-refused}

-- The bridge has been run with this configuration.
abbrev pub RanWith : {E B : Type 0} → Config → Outcome E B → Type 0
RanWith c (bridge_failed d e) = c ≡ d
RanWith c (bridge_stopped d) = c ≡ d
RanWith c _ = ⊥

with_debug-IsValid : (on : Bool) (c : Config) → IsValid c → IsValid (with_debug on c)
unfolding with_debug
with_debug-IsValid true c v = record {
  broker = v.broker;
  qos = v.qos;
  command_base = v.command_base;
  metric_base = v.metric_base;
  some_desk = v.some_desk;
  proper_desks = v.proper_desks;
  distinct_ids = v.distinct_ids;
  min_backoff = v.min_backoff;
  max_backoff = v.max_backoff;
  connect_timeout = v.connect_timeout;
}
with_debug-IsValid false c v = v

module _ {E B : Type 0} (yaml : Yaml E) (lookup : Text → Option Text)
    (read_file : Text → FileAnswer E)
    (inventory : Bluetooth → List Sighting × Option InventoryError)
    (run_bridge : Config → Option B) where
  load-IsValid : (a : FileAnswer E) (c : Config) → load yaml lookup a ≡ ok c → IsValid c
  unfolding load
  load-IsValid (contents raw) c h = (parse_sound yaml lookup raw c h).0
  load-IsValid (FileAnswer.not_exist e) c h = absurd (cc)
  load-IsValid (FileAnswer.unreadable e) c h = absurd (cc)

  -- The bridge has been run only if a configuration was loaded, and with what was loaded.
  loaded-RanWith :
      (on : Bool) (d c : Config) (o : Option B)
      → RanWith c (elim o as (λ x. Outcome E B) [
        | some e ↦ bridge_failed (with_debug on d) e
        | none ↦ bridge_stopped (with_debug on d)
      ])
      → c ≡ with_debug on d
  loaded-RanWith on d c none h = h
  loaded-RanWith on d c (some e) h = h

  run_daemon-RanWith :
      (on : Bool) (path : Text) (c : Config)
      → RanWith c (run_daemon yaml lookup read_file inventory run_bridge on path)
      → (d : Config) × (load yaml lookup (read_file path) ≡ ok d) × (c ≡ with_debug on d)
  unfolding run_daemon
  run_daemon-RanWith on path c h = elim (Result-cases (load yaml lookup (read_file path))) [
    | inr (e, p) ↦ absurd (rw (run_daemon, p) at h)
    | inl (d, p) ↦
        (d, p, loaded-RanWith on d c (run_bridge (with_debug on d)) (rw (run_daemon, p) at h))
  ]

  scan-quiet :
      (path : Text) (c : Config)
      → RanWith c (run_scan yaml lookup read_file inventory run_bridge path)
      → ⊥
  unfolding run_scan list_or_fail
  scan-quiet path c h = elim (Result-cases (load_bluetooth yaml lookup (read_file path))) [
    | inr (e, p) ↦ rw (run_scan, p) at h
    | inl (bt, p) ↦ lists (inventory bt).0 (inventory bt).1 (rw (run_scan, p) at h)
  ]
    where
      lists :
          (ss : List Sighting) (e : Option InventoryError)
          → RanWith c (list_or_fail yaml lookup read_file inventory run_bridge ss e)
          → ⊥
      lists [] (some e) h = h
      lists [] none h = h
      lists (s ∷ ss) e h = h

  run_scan-exit_code :
      (path : Text) → exit_code (run_scan yaml lookup read_file inventory run_bridge path) ≤ 1
  unfolding run_scan list_or_fail exit_code
  run_scan-exit_code path = ground arith

  run_daemon-exit_code :
      (on : Bool) (path : Text)
      → exit_code (run_daemon yaml lookup read_file inventory run_bridge on path) ≤ 1
  unfolding run_daemon exit_code
  run_daemon-exit_code on path = ground arith

  -- If the bridge is run at all, then neither -version nor -scan was given, the flags of the logger
  -- were accepted, and it is run with a valid configuration: the one that was loaded from the path
  -- of the flag or the environment, with MQTT debugging switched on if the flag says so.
  pub main-RanWith :
      (flags : Flags) (c : Config)
      → RanWith c (main yaml lookup read_file inventory run_bridge flags)
      → (flags.show_version ≡ false)
        × ((l : Level × Format) × (new_logger flags.log_level flags.log_format ≡ ok l))
        × (flags.scan_only ≡ false)
        × IsValid c
        × (d : Config) × (load yaml lookup (read_file (chosen_path lookup flags)) ≡ ok d)
        × (c ≡ with_debug flags.mqtt_debug d)
  main-RanWith flags c h =
      go (main yaml lookup read_file inventory run_bridge flags)
        (way yaml lookup read_file inventory run_bridge flags) h
    where
      go :
          (o : Outcome E B)
          → Way yaml lookup read_file inventory run_bridge flags o
          → RanWith c o
          → (flags.show_version ≡ false)
            × ((l : Level × Format) × (new_logger flags.log_level flags.log_format ≡ ok l))
            × (flags.scan_only ≡ false)
            × IsValid c
            × (d : Config) × (load yaml lookup (read_file (chosen_path lookup flags)) ≡ ok d)
            × (c ≡ with_debug flags.mqtt_debug d)
      go _ (version v) h = absurd h
      go _ (logger e v p) h = absurd h
      go _ (scan l p) h = absurd (scan-quiet (chosen_path lookup flags) c h)
      go _ (daemon l v p s) h =
          let (d, loaded, same) =
            run_daemon-RanWith flags.mqtt_debug (chosen_path lookup flags) c h in
          (
            v,
            (l, p),
            s,
            subst IsValid (sym same) (
                with_debug-IsValid flags.mqtt_debug d
                  (load-IsValid (read_file (chosen_path lookup flags)) d loaded)),
            d,
            loaded,
            same,
          )

  -- The exit code is 2 exactly if the flags of the logger are refused, unless only the version is
  -- asked for.
  exit_code-main :
      (flags : Flags)
      → (exit_code (main yaml lookup read_file inventory run_bridge flags) ≡ 2) ↔ (
          (flags.show_version ≡ false)
          × (e : LoggerError) × (new_logger flags.log_level flags.log_format ≡ err e))
  unfolding exit_code
  exit_code-main flags = (
    go (main yaml lookup read_file inventory run_bridge flags)
        (way yaml lookup read_file inventory run_bridge flags),
    refused,
  )
    where
      go :
          (o : Outcome E B)
          → Way yaml lookup read_file inventory run_bridge flags o
          → exit_code o ≡ 2
          → (flags.show_version ≡ false)
            × (e : LoggerError) × (new_logger flags.log_level flags.log_format ≡ err e)
      go _ (version v) h = absurd (omega arith)
      go _ (logger e v p) h = (v, e, p)
      go _ (scan l p) h = absurd (omega (arith, run_scan-exit_code (chosen_path lookup flags)))
      go _ (daemon l v p s) h =
          absurd (omega (arith, run_daemon-exit_code flags.mqtt_debug (chosen_path lookup flags)))

      refused :
          (flags.show_version ≡ false)
            × (e : LoggerError) × (new_logger flags.log_level flags.log_format ≡ err e)
          → exit_code (main yaml lookup read_file inventory run_bridge flags) ≡ 2
      refused (v, e, p) =
          ap exit_code (main-refused yaml lookup read_file inventory run_bridge flags e v p)
