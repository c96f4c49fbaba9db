-- ===== src/CommandLine/Ways.antt =====
-- cmd/mqtt-linak/main.go: the ways through `main`.
use mathlib.Core.Path.{subst}
use mqtt_linak.Base.{
  sym, ◌≡◌, refl, inl, inr, true, false, Bool-cases, Option, List, Text, Result-cases, ok, err,
}
use mqtt_linak.Config.{Bluetooth, Config}
use mqtt_linak.Config.Load.{Yaml, FileAnswer}
use mqtt_linak.Bridge.Scan.{Sighting, InventoryError}
use mqtt_linak.CommandLine.{
  Level, Format, LoggerError, new_logger, Flags, Outcome, printed_version, refused_logger, run_scan,
  run_daemon, main, chosen_path,
}

module _ {E B : Type 0} (yaml : Yaml E) (lookup : Text → Option Text)
    (read_file : Text → FileAnswer E)
    (inventory : Bluetooth → List Sighting × Option InventoryError)
    (run_bridge : Config → Option B) where
  main-version :
      (flags : Flags)
      → flags.show_version ≡ true
      → main yaml lookup read_file inventory run_bridge flags ≡ printed_version
  unfolding main
  main-version flags v = rw (main, v) refl

  pub main-refused :
      (flags : Flags) (e : LoggerError)
      → flags.show_version ≡ false
      → new_logger flags.log_level flags.log_format ≡ err e
      → main yaml lookup read_file inventory run_bridge flags ≡ refused_logger e
  unfolding main
  main-refused flags e v p = rw (main, v, p) refl

  main-run_scan :
      (flags : Flags) (l : Level × Format)
      → flags.show_version ≡ false
      → new_logger flags.log_level flags.log_format ≡ ok l
      → flags.scan_only ≡ true
      → main yaml lookup read_file inventory run_bridge flags
        ≡ run_scan yaml lookup read_file inventory run_bridge (chosen_path lookup flags)
  unfolding main run_scan
  main-run_scan flags l v p s = rw (main, v, p, s) refl

  main-run_daemon :
      (flags : Flags) (l : Level × Format)
      → flags.show_version ≡ false
      → new_logger flags.log_level flags.log_format ≡ ok l
      → flags.scan_only ≡ false
      → main yaml lookup read_file inventory run_bridge flags
        ≡ run_daemon yaml lookup read_file inventory run_bridge flags.mqtt_debug
            (chosen_path lookup flags)
  unfolding main run_daemon
  main-run_daemon flags l v p s = rw (main, v, p, s) refl

  -- The ways through `main`.
  pub data Way (flags : Flags) : Outcome E B → Type 0 where
    version : flags.show_version ≡ true → Way flags printed_version
    logger :
        (e : LoggerError)
        → flags.show_version ≡ false
        → new_logger flags.log_level flags.log_format ≡ err e
        → Way flags (refused_logger e)
    scan :
        (l : Level × Format)
        → new_logger flags.log_level flags.log_format ≡ ok l
        → Way flags (run_scan yaml lookup read_file inventory run_bridge (chosen_path lookup flags))
    daemon :
        (l : Level × Format)
        → flags.show_version ≡ false
        → new_logger flags.log_level flags.log_format ≡ ok l
        → flags.scan_only ≡ false
        → Way flags (
            run_daemon yaml lookup read_file inventory run_bridge flags.mqtt_debug
              (chosen_path lookup flags))

  pub way : (flags : Flags) → Way flags (main yaml lookup read_file inventory run_bridge flags)
  way flags = elim (Bool-cases flags.show_version) [
    | inl y ↦ subst (Way flags) (sym (main-version flags y)) (version y)
    | inr v ↦ elim (Result-cases (new_logger flags.log_level flags.log_format)) [
      | inr (e, p) ↦ subst (Way flags) (sym (main-refused flags e v p)) (logger e v p)
      | inl (l, p) ↦ elim (Bool-cases flags.scan_only) [
        | inl s ↦ subst (Way flags) (sym (main-run_scan flags l v p s)) (scan l p)
        | inr s ↦ subst (Way flags) (sym (main-run_daemon flags l v p s)) (daemon l v p s)
      ]
    ]
  ]
