-- ===== src/Config/Plugins.antt =====
-- How the plugins of a configuration are built (config/config.go): `buildMetricPlugin`,
-- `buildCheckPlugin`, `buildMetadataPlugin` and `setEachPlugins`. `compile` is the library's
-- `regexp.Compile`.
use mackerel_agent.Prelude.{
  String, ℕ, append, Bool, ◌&&◌, Option, none, some, [], ◌∷◌, Dict, lookup, insert, rune_count,
  take_runes, ltb, if◌then◌else◌, Result, ok, err, ◌>>=◌,
}
use mackerel_agent.Prelude.Int.{ℤ, pos, ltb_ℤ}
use mackerel_agent.Config.{
  Command, PluginConfig, MetricPlugin, CheckPlugin, MetadataPlugin, Config, ConfigError,
  bad_command, bad_pattern, wrapped,
}
use mackerel_agent.Config.Commands.{parse_command}

-- A plugin must have a command.
abbrev pub need_command : Option Command → Result ConfigError Command
need_command none = err bad_command
need_command (some cmd) = ok cmd

-- (pconf *PluginConfig) buildMetadataPlugin
unfoldable pub build_metadata_plugin : PluginConfig → Result ConfigError MetadataPlugin
build_metadata_plugin pconf = do
  parsed ← parse_command pconf.command
  cmd ← need_command parsed
  ok (record { command = cmd; execution_interval = pconf.execution_interval })

abbrev pub memo_limit : ℕ
memo_limit = 250

-- The loop over the runes of a memo that is too long.
unfoldable pub cut_memo : String → String
cut_memo memo = if ltb memo_limit (rune_count memo) then take_runes memo_limit memo else memo

-- `*plugin.MaxCheckAttempts = 1`, where `prevent_alert_auto_close` does not go with the value.
unfoldable pub cap_attempts : Bool → Option ℤ → Option ℤ
cap_attempts prevent none = none
cap_attempts prevent (some n) = if ltb_ℤ (pos 1) n && prevent then some (pos 1) else some n

-- (pconf *PluginConfig) buildCheckPlugin
unfoldable pub build_check_plugin : PluginConfig → Result ConfigError CheckPlugin
unfolding cut_memo cap_attempts
build_check_plugin pconf = do
  parsed ← parse_command pconf.command
  cmd ← need_command parsed
  action ← parse_command pconf.action
  ok (record {
    command = cmd;
    custom_identifier = pconf.custom_identifier;
    notification_interval = pconf.notification_interval;
    check_interval = pconf.check_interval;
    max_check_attempts = cap_attempts pconf.prevent_alert_auto_close pconf.max_check_attempts;
    prevent_alert_auto_close = pconf.prevent_alert_auto_close;
    action = action;
    memo = cut_memo pconf.memo;
  })

-- for name, pconf := range pconfs { m[name], err = build(pconf) }
unfoldable pub set_plugins :
    {P Q : Type 0}
    → (P → Result ConfigError Q)
    → String
    → Dict P
    → Dict Q
    → Result ConfigError (Dict Q)
set_plugins build kind [] m = ok m
set_plugins build kind ((name, pconf) ∷ pconfs) m = elim (build pconf) [
  | err e ↦ err (wrapped (append kind name) e)
  | ok q ↦ set_plugins build kind pconfs (insert name q m)
]

-- pconfs, ok := conf.Plugin[kind], with no entries where it is missing
unfoldable pub plugins_of : {P : Type 0} → String → Dict (Dict P) → Dict P
plugins_of kind plugin = elim (lookup kind plugin) [ none ↦ [] | some pconfs ↦ pconfs ]

module _ {Re : Type 0} (compile : String → Option Re) where
  abbrev pub compile_pattern : Option String → Result ConfigError (Option Re)
  compile_pattern none = ok none
  compile_pattern (some p) = elim (compile p) [ none ↦ err bad_pattern | some re ↦ ok (some re) ]

  -- (pconf *PluginConfig) buildMetricPlugin
  unfoldable pub build_metric_plugin : PluginConfig → Result ConfigError (MetricPlugin Re)
  build_metric_plugin pconf = do
    parsed ← parse_command pconf.command
    cmd ← need_command parsed
    include_pattern ← compile_pattern pconf.include_pattern
    exclude_pattern ← compile_pattern pconf.exclude_pattern
    ok (record {
      command = cmd;
      custom_identifier = pconf.custom_identifier;
      include_pattern = include_pattern;
      exclude_pattern = exclude_pattern;
    })

  -- (conf *Config) setEachPlugins
  unfoldable pub set_each_plugins : Config Re → Result ConfigError (Config Re)
  set_each_plugins conf = do
    metric ←
        set_plugins build_metric_plugin "plugin.metrics." (plugins_of "metrics" conf.plugin)
          conf.metric_plugins
    check ←
        set_plugins build_check_plugin "plugin.checks." (plugins_of "checks" conf.plugin)
          conf.check_plugins
    metadata ←
        set_plugins build_metadata_plugin "plugin.metadata." (plugins_of "metadata" conf.plugin)
          conf.metadata_plugins
    ok (record conf {
      plugin = [];
      metric_plugins = metric;
      check_plugins = check;
      metadata_plugins = metadata;
    })
