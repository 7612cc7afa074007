-- ===== src/Agent.antt =====
-- The package agent: generators run side by side, and their values are merged in the order in
-- which they arrive (agent/generator.go, agent/agent.go).
pub mod Collect
pub mod Watch
use mackerel_agent.Prelude.{
  String, ℕ, Option, none, some, is_empty, if◌then◌else◌, List, [], ◌∷◌, ◌++◌, map,
}
use mackerel_agent.Metrics.{Values, ValuesCustomIdentifier, merge_values_custom_identifiers}

-- How a call of `g.Generate()` ends: with values, an error, or a panic that is recovered.
pub data Generated (F : Type 0) : Type 0 where
  generated : Values F → Generated F
  failed : Generated F
  panicked : Generated F

-- A generator that has run. Only a plugin generator has a custom identifier.
pub record Job (F : Type 0) : Type 0 where
  pub result : Generated F
  pub plugin : Option (Option String)

abbrev pub job_identifier : Option (Option String) → Option String
job_identifier none = none
job_identifier (some custom_identifier) = custom_identifier

module _ {F : Type 0} where
  -- What the goroutine of a generator sends to `processed`, if anything.
  unfoldable pub processed : Job F → List (ValuesCustomIdentifier F)
  processed j = elim j.result [
    | generated values ↦
        record { values = values; custom_identifier = job_identifier j.plugin } ∷ []
    | failed ↦ []
    | panicked ↦ []
  ]

  unfoldable pub merge_arrivals :
      List (ValuesCustomIdentifier F)
      → List (ValuesCustomIdentifier F)
      → List (ValuesCustomIdentifier F)
  merge_arrivals all_values [] = all_values
  merge_arrivals all_values (values ∷ rest) =
      merge_arrivals (merge_values_custom_identifiers all_values values) rest

  -- The values that are sent when the jobs end in the order of the list.
  unfoldable pub arrivals : List (Job F) → List (ValuesCustomIdentifier F)
  unfolding processed
  arrivals [] = []
  arrivals (j ∷ js) = processed j ++ arrivals js

  -- generateValues, for jobs that end in the order of the list.
  unfoldable pub generate_values : List (Job F) → List (ValuesCustomIdentifier F)
  unfolding merge_arrivals arrivals
  generate_values jobs = merge_arrivals [] (arrivals jobs)

pub record MetricsResult (F : Type 0) : Type 0 where
  pub created : ℕ
  pub values : List (ValuesCustomIdentifier F)

-- CollectMetrics: `jobs` are those of the metrics generators and of the plugin generators, in the
-- order in which they end.
unfoldable pub collect_metrics : {F : Type 0} → ℕ → List (Job F) → MetricsResult F
unfolding generate_values
collect_metrics collected_time jobs = record {
  created = collected_time;
  values = generate_values jobs;
}

-- CollectGraphDefsOfPlugins: of each plugin generator, the graph definitions it prepares, if any.
-- An error is logged, and what came with it is kept.
unfoldable pub collect_graph_defs {ℓ} : {G : Type ℓ} → List (Option (List G)) → List G
collect_graph_defs [] = []
collect_graph_defs (none ∷ rest) = collect_graph_defs rest
collect_graph_defs (some p ∷ rest) = p ++ collect_graph_defs rest

-- InitPluginGenerators: the payloads that it asks the API to create, if any.
unfoldable pub init_plugin_generators {ℓ} : {G : Type ℓ} → List (Option (List G)) → Option (List G)
unfolding collect_graph_defs
init_plugin_generators prepared =
    let payloads = collect_graph_defs prepared in if is_empty payloads then none else some payloads
