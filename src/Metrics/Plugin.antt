-- ===== src/Metrics/Plugin.antt =====
-- The generator of a metric plugin (metrics/plugin.go): what its output is taken for, and the graphs
-- that it defines. `F` is the type of a float64, `Re` that of a compiled regular expression.
pub mod Parsed
pub mod Meta
use mackerel_agent.Prelude.{
  String, ℕ, append, Bool, true, false, not, ◌&&◌, ◌||◌, Option, none, some, List, [], ◌∷◌, map,
  Dict, insert, lookup, is_nil, split, fields, if◌then◌else◌, str_eq,
}
use mackerel_agent.Config.{MetricPlugin}
use mackerel_agent.Metrics.{Values}

-- strconv.ParseFloat, which fails on a text that is no float, and MatchString.
pub record Parser (F Re : Type 0) : Type 0 where
  pub parse_float : String → Option F
  pub matches : Re → String → Bool

module _ {F Re : Type 0} (parser : Parser F Re) where
  abbrev included : Option Re → String → Bool
  included none key = true
  included (some re) key = parser.matches re key

  abbrev excluded : Option Re → String → Bool
  excluded none key = false
  excluded (some re) key = parser.matches re key

  -- Whether the patterns of the configuration let a key through.
  unfoldable pub wanted : MetricPlugin Re → String → Bool
  wanted conf key = included conf.include_pattern key && not (excluded conf.exclude_pattern key)

  -- The key and the value of a line with its fields, if the line counts.
  unfoldable pub parse_items : MetricPlugin Re → List String → Option (String × F)
  unfolding wanted
  parse_items conf (key ∷ value ∷ time ∷ rest) =
      if wanted conf key
      then elim (parser.parse_float value) [ none ↦ none | some v ↦ some (key, v) ]
      else none
  parse_items conf _ = none

  -- The loop of collectValues over the lines.
  unfoldable pub collect_lines : MetricPlugin Re → Values F → List String → Values F
  unfolding parse_items
  collect_lines conf results [] = results
  collect_lines conf results (line ∷ lines) = elim (parse_items conf (fields line)) [
    | none ↦ collect_lines conf results lines
    | some (key, value) ↦ collect_lines conf (insert (append "custom." key) value results) lines
  ]

  -- collectValues, on what the command writes to its standard output, unless the command fails.
  unfoldable pub collect_values : MetricPlugin Re → Option String → Option (Values F)
  unfolding collect_lines
  collect_values conf none = none
  collect_values conf (some stdout) = some (collect_lines conf [] (split b'\n' stdout))

pub record CustomGraphMetricDef : Type 0 where
  pub name : String
  pub label : String
  pub stacked : Bool

pub record CustomGraphDef : Type 0 where
  pub label : String
  pub unit : String
  pub metrics : List CustomGraphMetricDef

-- `pluginMeta`
abbrev pub PluginMeta : Type 0
PluginMeta = Dict CustomGraphDef

-- mkr.GraphDefsMetric and mkr.GraphDefsParam
pub record GraphDefsMetric : Type 0 where
  pub name : String
  pub display_name : String
  pub is_stacked : Bool

pub record GraphDefsParam : Type 0 where
  pub name : String
  pub display_name : String
  pub unit : String
  pub metrics : List GraphDefsMetric

unfoldable pub graph_defs_metric : String → CustomGraphMetricDef → GraphDefsMetric
graph_defs_metric key metric = record {
  name = append "custom." (append key (append "." metric.name));
  display_name = metric.label;
  is_stacked = metric.stacked;
}

unfoldable pub graph_defs_param : String → CustomGraphDef → GraphDefsParam
unfolding graph_defs_metric
graph_defs_param key graph = record {
  name = append "custom." key;
  display_name = graph.label;
  unit = if is_nil graph.unit then "float" else graph.unit;
  metrics = map (graph_defs_metric key) graph.metrics;
}

-- makeGraphDefsParam, for a `range` that visits the graphs in the order of the list.
unfoldable pub make_graph_defs_param : Option PluginMeta → List GraphDefsParam
unfolding graph_defs_param
make_graph_defs_param none = []
make_graph_defs_param (some meta) = map (λ e. graph_defs_param e.0 e.1) meta

-- The `range` over the fields of the header line after its keyword.
unfoldable pub plugin_meta_header : Dict String → List String → Dict String
plugin_meta_header header [] = header
plugin_meta_header header (field ∷ rest) = elim (split b'=' field) [
  | [] ↦ plugin_meta_header header rest
  | key ∷ values ↦ elim values [
    | [] ↦ plugin_meta_header (insert key "" header) rest
    | value ∷ more ↦ plugin_meta_header (insert key value header) rest
  ]
]

-- Whether loadPluginMeta takes the schema version of a header, by the fields after its keyword.
unfoldable pub supported_version : List String → Bool
unfolding plugin_meta_header
supported_version header_fields = elim (lookup "version" (plugin_meta_header [] header_fields)) [
  | none ↦ true
  | some version ↦ str_eq version "1"
]
