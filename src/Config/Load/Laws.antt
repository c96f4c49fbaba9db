-- ===== src/Config/Load/Laws.antt =====
-- internal/config/config.go: what a configuration that has been read is like.
use mqtt_linak.Base.{
  ◌≡◌, refl, sym, ap, ◌∙◌, Option, none, some, List, [], Text, Result, ok, err, >>=-eq-ok, arith,
}
use mqtt_linak.Config.{Bluetooth, Config, default_config, validate}
use mqtt_linak.Config.Valid.Spec.{IsValid}
use mqtt_linak.Config.Valid.{validate_iff}
use mqtt_linak.Config.Env.{env_bluetooth, apply_env}
use mqtt_linak.Config.Load.{
  Yaml, contents, as_parsing, probed, flat, with_uuids, checked, parse, load_bluetooth,
}

checked-ok : (E : Type 0) (c d : Config) → checked E c ≡ ok d → (validate d ≡ none) × (c ≡ d)
unfolding checked
checked-ok E c d h = ground arith

checked-valid : (E : Type 0) (c : Config) → validate c ≡ none → checked E c ≡ ok c
unfolding checked
checked-valid E c h = ground arith

-- The services that a scan is filtered by: a nil slice filters by none.
abbrev pub uuids : Bluetooth → List Text
uuids bt = elim bt.scan_service_uuids [ none ↦ [] | some us ↦ us ]

as_parsing-ok : {E A : Type 0} (r : Result E A) {a : A} → as_parsing r ≡ ok a → r ≡ ok a
as_parsing-ok (ok b) h = cc
as_parsing-ok (err e) h = absurd (cc)

module _ {E : Type 0} (yaml : Yaml E) (lookup : Text → Option Text) where
  -- The two readings of the probe differ in nothing that a scan sees.
  env_sections :
      (bt : Bluetooth) (probe : Option (Option (List Text)))
      → let a = env_bluetooth lookup (record bt { scan_service_uuids = flat probe }) in
        let b = env_bluetooth lookup (record bt { scan_service_uuids = probed probe }) in
        (uuids a ≡ uuids b)
        × (record a { scan_service_uuids = none } ≡ record b { scan_service_uuids = none })
  unfolding env_bluetooth flat probed
  env_sections bt probe = ground arith

  -- What a document decodes to, before the environment and the checks.
  abbrev pub Decodes : Text → Option (Option (List Text)) → Config → Type 0
  Decodes raw probe cfg = (yaml.probe raw ≡ ok probe) × (yaml.decode raw default_config ≡ ok cfg)

  parse-steps :
      (raw : Text) (c : Config)
      → parse yaml lookup raw ≡ ok c
      → (probe : Option (Option (List Text))) × (cfg : Config) × Decodes raw probe cfg
        × (validate c ≡ none)
        × (apply_env lookup (with_uuids cfg (probed probe)) ≡ c)
  unfolding parse
  parse-steps raw c h =
      let (probe, p, h₁) = >>=-eq-ok _ (as_parsing (yaml.probe raw)) h in
      let (cfg, d, h₂) = >>=-eq-ok _ (as_parsing (yaml.decode raw default_config)) h₁ in
      let (v, e) = checked-ok E _ c h₂ in (probe, cfg, (as_parsing-ok _ p, as_parsing-ok _ d), v, e)

  -- A configuration that `Parse` returns is valid, and is what the environment makes of the decoded
  -- document with the service list of the probe.
  pub parse_sound :
      (raw : Text) (c : Config)
      → parse yaml lookup raw ≡ ok c
      → IsValid c
        × (probe : Option (Option (List Text))) × (cfg : Config) × Decodes raw probe cfg
        × (c ≡ apply_env lookup (with_uuids cfg (probed probe)))
  parse_sound raw c h =
      let (probe, cfg, d, v, e) = parse-steps raw c h in
      ((validate_iff c).0 v, probe, cfg, d, sym e)

  -- `LoadBluetooth` gives `-scan` the section that the bridge itself would use, with an empty list
  -- of services where that is explicit or absent: of a document that `Parse` accepts, and whose
  -- section is decoded the same by the lax decoder.
  pub load_bluetooth-parse :
      (raw : Text) (c : Config)
      → parse yaml lookup raw ≡ ok c
      → ((cfg : Config)
          → yaml.decode raw default_config ≡ ok cfg
          → yaml.decode_bluetooth raw default_config.bluetooth ≡ ok cfg.bluetooth)
      → (bt : Bluetooth) × (load_bluetooth yaml lookup (contents raw) ≡ ok bt)
        × (uuids bt ≡ uuids c.bluetooth)
        × (record bt { scan_service_uuids = none }
            ≡ record c.bluetooth { scan_service_uuids = none })
  unfolding load_bluetooth apply_env with_uuids
  load_bluetooth-parse raw c h same =
      let (probe, cfg, (p, d), v, e) = parse-steps raw c h in
      let env = env_sections cfg.bluetooth probe in
      (
        env_bluetooth lookup (record cfg.bluetooth { scan_service_uuids = flat probe }),
        rw (same cfg d, p) refl,
        env.0 ∙ ap (λ (c : Config). uuids c.bluetooth) e,
        env.1 ∙ ap (λ (c : Config). record c.bluetooth { scan_service_uuids = none }) e,
      )
