-- ===== src/Metrics/Plugin/Meta.antt =====
-- What a metric plugin tells of its graphs (metrics/plugin.go): `loadPluginMeta` and `PrepareGraphDefs`.
use mackerel_agent.Prelude.{
  String, ◌≡◌, true, not, Option, none, some, List, [], ◌∷◌, ◌==◌, cut_at, fields, Result, ok, err,
  ◌>>=◌, if◌then◌else◌, arith, inl, inr, Option-cases, Bool-cases,
}
use mackerel_agent.Prelude.Regex.{
  Regex, one, many, group, word_end, sequence, exactly, match_front, group_text, blank_char,
}
use mackerel_agent.Metrics.Plugin.{
  PluginMeta, GraphDefsParam, make_graph_defs_param, supported_version,
}

-- pluginMetaHeadlineReg
abbrev pub plugin_meta_headline_reg : Regex
plugin_meta_headline_reg = sequence (
    exactly "#"
    ∷ many (one blank_char)
    ∷ exactly "mackerel-agent-plugin"
    ∷ word_end
    ∷ group 1 (many (one (λ c. not (c == b'\n'))))
    ∷ [])

pub data PluginMetaError : Type 0 where
  not_run no_first_line bad_first_line unsupported_version bad_configuration : PluginMetaError

-- The fields of the header after its keyword.
unfoldable pub header_fields : String → Option (List String)
unfolding match_front
header_fields header_line = elim (match_front plugin_meta_headline_reg header_line) [
  | none ↦ none
  | some groups ↦ some (fields (group_text 1 groups))
]

-- loadPluginMeta, on what the command prints unless it fails. `decode` is the JSON decoder, on what
-- follows the first line.
unfoldable pub load_plugin_meta :
    (String → Option PluginMeta) → Option String → Result PluginMetaError PluginMeta
unfolding header_fields supported_version
load_plugin_meta decode none = err not_run
load_plugin_meta decode (some stdout) = elim (cut_at b'\n' stdout) [
  | none ↦ err no_first_line
  | some (header_line, rest) ↦ elim (header_fields header_line) [
    | none ↦ err bad_first_line
    | some header ↦
        if supported_version header
        then elim (decode rest) [ none ↦ err bad_configuration | some meta ↦ ok meta ]
        else err unsupported_version
  ]
]

-- PrepareGraphDefs
unfoldable pub prepare_graph_defs :
    (String → Option PluginMeta) → Option String → Result PluginMetaError (List GraphDefsParam)
unfolding load_plugin_meta make_graph_defs_param
prepare_graph_defs decode printed =
    load_plugin_meta decode printed >>= λ meta. ok (make_graph_defs_param (some meta))

-- Where graph definitions are prepared, the command has printed a first line with the keyword, and
-- with the schema version 1 or none, and they are made of what the lines after it are decoded to.
pub prepare_graph_defs_lem :
    (decode : String → Option PluginMeta) (stdout : String) (payload : List GraphDefsParam)
    → prepare_graph_defs decode (some stdout) ≡ ok payload
    → (header_line : String) × (rest : String) × (header : List String) × (meta : PluginMeta)
      × (cut_at b'\n' stdout ≡ some (header_line, rest))
      × (header_fields header_line ≡ some header)
      × (supported_version header ≡ true)
      × (decode rest ≡ some meta)
      × (payload ≡ make_graph_defs_param (some meta))
unfolding prepare_graph_defs load_plugin_meta
prepare_graph_defs_lem decode stdout payload h = elim (Option-cases (cut_at b'\n' stdout)) [
  | inl c ↦ ground arith
  | inr (p, c) ↦ elim (Option-cases (header_fields p.0)) [
    | inl f ↦ ground arith
    | inr (header, f) ↦ elim (Bool-cases (supported_version header)) [
      | inr v ↦ ground arith
      | inl v ↦ elim (Option-cases (decode p.1)) [
        | inl d ↦ ground arith
        | inr (meta, d) ↦ (p.0, p.1, header, meta, c, f, v, d, ground arith)
      ]
    ]
  ]
]
