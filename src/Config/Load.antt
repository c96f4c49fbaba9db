-- ===== src/Config/Load.antt =====
-- internal/config/config.go: reading a file. The YAML package and the file system are parameters.
pub mod Laws
use mqtt_linak.Base.{Option, none, some, List, [], ◌∷◌, Text, Result, ok, err, ◌>>=◌}
use mqtt_linak.Config.{Bluetooth, Config, ConfigError, default_config, validate}
use mqtt_linak.Config.Env.{env_bluetooth, apply_env}

-- What gopkg.in/yaml.v3 does with a document: `decode` fills in a configuration and refuses unknown
-- keys, `decode_bluetooth` fills in that section and passes over the rest, `probe` reads
-- scan_service_uuids alone (no pointer if the key is absent; the slice behind one may be nil).
pub record Yaml (E : Type 0) : Type 0 where
  pub probe : Text → Result E (Option (Option (List Text)))
  pub decode : Text → Config → Result E Config
  pub decode_bluetooth : Text → Bluetooth → Result E Bluetooth

-- What `os.ReadFile` answers.
pub data FileAnswer (E : Type 0) : Type 0 where
  contents : Text → FileAnswer E
  not_exist : E → FileAnswer E
  unreadable : E → FileAnswer E

pub data LoadError (E : Type 0) : Type 0 where
  reading : E → LoadError E
  parsing : E → LoadError E
  invalid : ConfigError → LoadError E

-- `fmt.Errorf("parsing config: %w", err)`
abbrev pub as_parsing : {E A : Type 0} → Result E A → Result (LoadError E) A
as_parsing (ok a) = ok a
as_parsing (err e) = err (parsing e)

-- An explicit list is told from an absent one: a nil slice behind the pointer becomes an empty one.
unfoldable pub probed : Option (Option (List Text)) → Option (List Text)
probed none = none
probed (some none) = some []
probed (some (some uuids)) = some uuids

-- In `LoadBluetooth` the slice behind the pointer is taken as it is.
unfoldable pub flat : Option (Option (List Text)) → Option (List Text)
flat none = none
flat (some uuids) = uuids

unfoldable pub with_uuids : Config → Option (List Text) → Config
with_uuids c uuids = record c { bluetooth = record c.bluetooth { scan_service_uuids = uuids } }

-- The end of `Parse`.
unfoldable pub checked : (E : Type 0) → Config → Result (LoadError E) Config
checked E c = elim (validate c) [ none ↦ ok c | some e ↦ err (invalid e) ]

module _ {E : Type 0} (yaml : Yaml E) (lookup : Text → Option Text) where
  unfoldable pub parse : Text → Result (LoadError E) Config
  unfolding probed with_uuids checked
  parse raw = do
    probe ← as_parsing (yaml.probe raw)
    cfg ← as_parsing (yaml.decode raw default_config)
    checked E (apply_env lookup (with_uuids cfg (probed probe)))

  unfoldable pub load : FileAnswer E → Result (LoadError E) Config
  load (contents raw) = parse raw
  load (not_exist e) = err (reading e)
  load (unreadable e) = err (reading e)

  unfoldable pub load_bluetooth : FileAnswer E → Result (LoadError E) Bluetooth
  unfolding flat
  load_bluetooth (not_exist e) = ok default_config.bluetooth
  load_bluetooth (unreadable e) = err (reading e)
  load_bluetooth (contents raw) = do
    bt ← as_parsing (yaml.decode_bluetooth raw default_config.bluetooth)
    probe ← as_parsing (yaml.probe raw)
    ok (env_bluetooth lookup (record bt { scan_service_uuids = flat probe }))
