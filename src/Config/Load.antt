-- ===== src/Config/Load.antt =====
-- How a configuration is loaded (config/config.go): `LoadConfig`, `loadConfigFile` and
-- `includeConfigFile`, and `ListCustomIdentifiers`. The toml decoder and `filepath.Glob` are the
-- libraries'.
use mackerel_agent.Prelude.{
  String, Bool, true, false, Option, none, some, List, [], ◌∷◌, ◌++◌, Dict, is_nil, if◌then◌else◌,
  Result, ok, err, ◌>>=◌, str_eq, ◌||◌,
}
use mackerel_agent.Config.{Config, MetricPlugin, CheckPlugin, ConfigError, undecodable, bad_glob}
use mackerel_agent.Config.Plugins.{set_each_plugins}

-- What the loader calls. `decode file conf` is `toml.DecodeFile(file, conf)`: the configuration
-- with the values of the file written over it, and whether the file defines "roles". `empty` is
-- `&Config{}`, and `default_config` the default of the platform.
pub record Loader (Re : Type 0) : Type 0 where
  pub compile : String → Option Re
  pub decode : String → Config Re → Option (Config Re × Bool)
  pub glob : String → Option (List String)
  pub empty : Config Re
  pub default_config : Config Re

-- If the included file does not have "roles", the roles from before are used.
abbrev pub with_roles : {Re : Type 0} → Bool → List String → Config Re → Config Re
with_roles true roles_saved decoded = decoded
with_roles false roles_saved decoded = record decoded { roles = roles_saved }

abbrev pub or_default : String → String → String
or_default s d = if is_nil s then d else s

module _ {Re : Type 0} (l : Loader Re) where
  -- The loop of includeConfigFile over the files.
  unfoldable pub include_files : List String → Config Re → Result ConfigError (Config Re)
  include_files [] conf = ok conf
  include_files (file ∷ files) conf = elim (l.decode file (record conf { roles = [] })) [
    | none ↦ err undecodable
    | some (decoded, roles_defined) ↦
        elim (set_each_plugins l.compile (with_roles roles_defined conf.roles decoded)) [
          | err e ↦ err e
          | ok conf' ↦ include_files files conf'
        ]
  ]

  unfoldable pub include_config_file : Config Re → String → Result ConfigError (Config Re)
  unfolding include_files
  include_config_file conf include = elim (l.glob include) [
    | none ↦ err bad_glob
    | some files ↦ include_files files conf
  ]

  abbrev pub decode_new : String → Result ConfigError (Config Re)
  decode_new file = elim (l.decode file l.empty) [
    | none ↦ err undecodable
    | some (conf, roles_defined) ↦
        ok (record conf { metric_plugins = []; check_plugins = []; metadata_plugins = [] })
  ]

  unfoldable pub load_config_file : String → Result ConfigError (Config Re)
  unfolding include_config_file
  load_config_file file = do
    decoded ← decode_new file
    conf ← set_each_plugins l.compile decoded
    if is_nil conf.include then ok conf else include_config_file conf conf.include

  -- The default values, where the configuration does not have values.
  unfoldable pub set_defaults : Config Re → Config Re
  set_defaults conf = record conf {
    apibase = or_default conf.apibase l.default_config.apibase;
    root = or_default conf.root l.default_config.root;
    pidfile = or_default conf.pidfile l.default_config.pidfile;
    verbose = if conf.verbose then conf.verbose else l.default_config.verbose;
    diagnostic = if conf.diagnostic then conf.diagnostic else l.default_config.diagnostic;
  }

  unfoldable pub load_config : String → Result ConfigError (Config Re)
  unfolding set_defaults
  load_config conffile = do conf ← load_config_file conffile; ok (set_defaults conf)

-- index(xs, y) != -1
unfoldable pub contains : List String → String → Bool
contains [] y = false
contains (x ∷ xs) y = str_eq x y || contains xs y

-- One of the two loops of ListCustomIdentifiers, over the identifiers of the plugins it visits.
unfoldable pub add_identifiers : List String → List (Option String) → List String
unfolding contains
add_identifiers ids [] = ids
add_identifiers ids (none ∷ rest) = add_identifiers ids rest
add_identifiers ids (some c ∷ rest) =
    add_identifiers (if contains ids c then ids else ids ++ c ∷ []) rest

abbrev pub metric_identifiers : {Re : Type 0} → Dict (MetricPlugin Re) → List (Option String)
metric_identifiers [] = []
metric_identifiers ((name, p) ∷ ps) = p.custom_identifier ∷ metric_identifiers ps

abbrev pub check_identifiers : Dict CheckPlugin → List (Option String)
check_identifiers [] = []
check_identifiers ((name, p) ∷ ps) = p.custom_identifier ∷ check_identifiers ps

-- (conf *Config) ListCustomIdentifiers
unfoldable pub list_custom_identifiers : {Re : Type 0} → Config Re → List String
unfolding add_identifiers
list_custom_identifiers conf =
    add_identifiers (add_identifiers [] (metric_identifiers conf.metric_plugins))
      (check_identifiers conf.check_plugins)
