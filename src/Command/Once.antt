-- ===== src/Command/Once.antt =====
-- The generators of the agent on Linux (command/command_linux.go, command/command.go), and what
-- `RunOnce` prints: the payload of `runOncePayload`. `Re` is the type of a compiled regular expression.
use mackerel_agent.Prelude.{
  String, ℕ, Bool, Option, none, some, List, [], ◌∷◌, ◌++◌, map, Dict, if◌then◌else◌,
}
use mackerel_agent.Config.{Config, MetricPlugin, CheckPlugin}
use mackerel_agent.Checks.{Checker}
use mackerel_agent.Metadata.{Generator}
use mackerel_agent.Command.Metadata.{metadata_generators}
use mackerel_agent.Command.App.{AgentMeta, Machine, CreateHostParam, collect_host_param}
use mackerel_agent.Agent.{Job, MetricsResult, collect_metrics, collect_graph_defs}
use mackerel_agent.Agent.Watch.{second}

-- The generators of metrics, with their intervals in nanoseconds.
pub data MetricsGenerator (Re : Type 0) : Type 0 where
  loadavg : MetricsGenerator Re
  cpu_usage : ℕ → MetricsGenerator Re
  memory : MetricsGenerator Re
  interface_metrics : ℕ → MetricsGenerator Re
  disk : ℕ → Bool → MetricsGenerator Re
  filesystem : Option Re → Bool → MetricsGenerator Re

pub data PluginGenerator (Re : Type 0) : Type 0 where
  plugin_generator : MetricPlugin Re → PluginGenerator Re
  agent_generator : PluginGenerator Re

-- createCheckers, in the order of a `range`.
unfoldable pub create_checkers : Dict CheckPlugin → List Checker
create_checkers [] = []
create_checkers ((name, plugin) ∷ plugins) =
    record { name = name; config = plugin } ∷ create_checkers plugins

-- agent.Agent
pub record Agent (Re J : Type 0) : Type 0 where
  pub metrics : List (MetricsGenerator Re)
  pub plugins : List (PluginGenerator Re)
  pub checkers : List Checker
  pub metadata : List (Generator J)

module _ {Re : Type 0} where
  -- metricsGenerators of Linux, with the variable metricsInterval.
  unfoldable pub metrics_generators : ℕ → Config Re → List (MetricsGenerator Re)
  metrics_generators metrics_interval conf =
      loadavg
      ∷ cpu_usage metrics_interval
      ∷ memory
      ∷ interface_metrics metrics_interval
      ∷ disk metrics_interval conf.filesystems.use_mountpoint
      ∷ filesystem conf.filesystems.ignore conf.filesystems.use_mountpoint
      ∷ []

  -- The loop of pluginGenerators, in the order of a `range`.
  unfoldable pub each_plugin_generator : Dict (MetricPlugin Re) → List (PluginGenerator Re)
  each_plugin_generator [] = []
  each_plugin_generator ((name, plugin) ∷ plugins) =
      plugin_generator plugin ∷ each_plugin_generator plugins

  -- pluginGenerators
  unfoldable pub plugin_generators : Config Re → List (PluginGenerator Re)
  unfolding each_plugin_generator
  plugin_generators conf =
      each_plugin_generator conf.metric_plugins
      ++ (if conf.diagnostic then agent_generator ∷ [] else [])

  -- `join` is filepath.Join, and `work_dir` what pluginutil.PluginWorkDir returns.
  module _ {J : Type 0} (join : String → String → String) (work_dir : String) where
    -- NewAgent
    unfoldable pub new_agent : ℕ → Config Re → Agent Re J
    unfolding metrics_generators plugin_generators create_checkers metadata_generators
    new_agent metrics_interval conf = record {
      metrics = metrics_generators metrics_interval conf;
      plugins = plugin_generators conf;
      checkers = create_checkers conf.check_plugins;
      metadata = metadata_generators join work_dir conf.metadata_plugins;
    }

    -- runOncePayload: the graph definitions, the parameters of the host and the metrics, unless there
    -- is an error, and metricsInterval after it. `prepares` is what a plugin prepares, `runs` how the
    -- generators of the agent end, and in which order.
    unfoldable pub run_once_payload :
        {F G : Type 0}
        → Config Re
        → AgentMeta
        → Machine
        → (PluginGenerator Re → Option (List G))
        → (Agent Re J → List (Job F))
        → ℕ
        → ℕ
        → Option (List G × CreateHostParam × MetricsResult F) × ℕ
    unfolding collect_host_param new_agent collect_graph_defs collect_metrics
    run_once_payload conf ameta machine prepares runs now orig_interval =
        elim (collect_host_param conf ameta machine) [
          | none ↦ (none, orig_interval)
          | some host_param ↦
              let ag = new_agent second conf in
              (
                some (
                  collect_graph_defs (map prepares ag.plugins),
                  host_param,
                  collect_metrics now (runs ag),
                ),
                orig_interval,
              )
        ]
