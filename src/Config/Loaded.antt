-- ===== src/Config/Loaded.antt =====
-- What a loaded configuration holds (config/config.go): the default values, the plugins, and the
-- roles of the included files.
use mackerel_agent.Prelude.{
  String, Bool, true, false, Option, none, some, List, [], ◌∷◌, lookup, if◌then◌else◌, ok,
  >>=-eq-ok, ◌≡◌, arith, IsMap,
}
use mackerel_agent.Config.{Config, MetricPlugin, PluginConfig}
use mackerel_agent.Config.Plugins.{
  set_each_plugins, set_plugins, plugins_of, build_metric_plugin, build_check_plugin,
  build_metadata_plugin,
}
use mackerel_agent.Config.Load.{
  Loader, with_roles, include_files, load_config_file, set_defaults, load_config,
}
use mackerel_agent.Config.Built.{set_plugins-lookup, set_plugins-other}

module _ {Re : Type 0} (compile : String → Option Re) where
  -- What setting the plugins leaves alone, and that it empties the field `Plugin`.
  pub record PluginsSet (conf conf' : Config Re) : Type 0 where
    pub plugin : conf'.plugin ≡ []
    pub roles : conf'.roles ≡ conf.roles
    pub include : conf'.include ≡ conf.include
    pub apibase : conf'.apibase ≡ conf.apibase
    pub metric :
        set_plugins
          (build_metric_plugin compile)
          "plugin.metrics."
          (plugins_of "metrics" conf.plugin)
          conf.metric_plugins
        ≡ ok conf'.metric_plugins
    pub check :
        set_plugins build_check_plugin "plugin.checks."
          (plugins_of "checks" conf.plugin)
          conf.check_plugins
        ≡ ok conf'.check_plugins
    pub metadata :
        set_plugins build_metadata_plugin "plugin.metadata."
          (plugins_of "metadata" conf.plugin)
          conf.metadata_plugins
        ≡ ok conf'.metadata_plugins

  pub set_each_plugins_lem :
      (conf conf' : Config Re) → set_each_plugins compile conf ≡ ok conf' → PluginsSet conf conf'
  unfolding set_each_plugins
  set_each_plugins_lem conf conf' h = ground arith

  with_roles-PluginsSet :
      (b : Bool) (roles : List String) (d conf' : Config Re)
      → set_each_plugins compile (with_roles b roles d) ≡ ok conf'
      → (conf'.plugin ≡ [])
        × (set_plugins
              (build_metric_plugin compile)
              "plugin.metrics."
              (plugins_of "metrics" d.plugin)
              d.metric_plugins
            ≡ ok conf'.metric_plugins)
        × (conf'.roles ≡ (if b then d.roles else roles))
  with_roles-PluginsSet true roles d conf' h =
      let s = set_each_plugins_lem d conf' h in (s.plugin, s.metric, s.roles)
  with_roles-PluginsSet false roles d conf' h =
      let s = set_each_plugins_lem (record d { roles = roles }) conf' h in
      (s.plugin, s.metric, s.roles)

module _ {Re : Type 0} (l : Loader Re) where
  pub load_config_lem :
      (file : String) (c : Config Re)
      → load_config l file ≡ ok c
      → (d : Config Re) × (load_config_file l file ≡ ok d) × (c ≡ set_defaults l d)
  unfolding load_config
  load_config_lem file c h =
      let (d, e, f) = >>=-eq-ok (load_config_file l file) (λ conf. ok (set_defaults l conf)) h in
      (d, e, ground arith)

  include_file-PluginsSet :
      (file : String) (conf conf' d : Config Re) (b : Bool)
      → l.decode file (record conf { roles = [] }) ≡ some (d, b)
      → include_files l (file ∷ []) conf ≡ ok conf'
      → set_each_plugins l.compile (with_roles b conf.roles d) ≡ ok conf'
  unfolding include_files
  include_file-PluginsSet file conf conf' d b e h = ground arith

  -- Including one file that declares a metric plugin: the plugin is built from its entry, in place of
  -- any other plugin of that name, and the roles are those of the file if it defines "roles", else
  -- those from before.
  pub include_file_declared :
      (file n : String) (conf conf' d : Config Re) (b : Bool) (p : PluginConfig)
      → l.decode file (record conf { roles = [] }) ≡ some (d, b)
      → include_files l (file ∷ []) conf ≡ ok conf'
      → IsMap (plugins_of "metrics" d.plugin)
      → lookup n (plugins_of "metrics" d.plugin) ≡ some p
      → (conf'.roles ≡ (if b then d.roles else conf.roles))
        × (q : MetricPlugin Re) × (build_metric_plugin l.compile p ≡ ok q)
        × (lookup n conf'.metric_plugins ≡ some q)
  include_file_declared file n conf conf' d b p e h w there =
      let s =
        with_roles-PluginsSet l.compile b conf.roles d conf'
          (include_file-PluginsSet file conf conf' d b e h) in
      let (q, built, found) =
        set_plugins-lookup (build_metric_plugin l.compile) "plugin.metrics." n p
          (plugins_of "metrics" d.plugin) d.metric_plugins conf'.metric_plugins w s.1 there in
      (s.2, q, built, found)

  -- Including one file: a name that it does not declare keeps its metric plugin, and no declaration of
  -- a plugin is left unread.
  pub include_file_other :
      (file n : String) (conf conf' d : Config Re) (b : Bool)
      → l.decode file (record conf { roles = [] }) ≡ some (d, b)
      → include_files l (file ∷ []) conf ≡ ok conf'
      → lookup n (plugins_of "metrics" d.plugin) ≡ none
      → (lookup n conf'.metric_plugins ≡ lookup n d.metric_plugins) × (conf'.plugin ≡ [])
  include_file_other file n conf conf' d b e h other =
      let s =
        with_roles-PluginsSet l.compile b conf.roles d conf'
          (include_file-PluginsSet file conf conf' d b e h) in
      (
        set_plugins-other (build_metric_plugin l.compile) "plugin.metrics." n
            (plugins_of "metrics" d.plugin) d.metric_plugins conf'.metric_plugins s.1 other,
        s.0,
      )
