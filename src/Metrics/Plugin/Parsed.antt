-- ===== src/Metrics/Plugin/Parsed.antt =====
-- What the output of a metric plugin is taken for (metrics/plugin.go).
use mackerel_agent.Prelude.{
  str_eq-append_left, String, append, false, Option, none, some, List, [], ◌∷◌, insert, lookup,
  lookup-insert, lookup-nil, split, fields, cut_prefix, cut_prefix-append, if◌then◌else◌, str_eq,
  eq_iff, or_else, ◌≡◌, refl, arith, inl, inr, Option-cases,
}
use mackerel_agent.Config.{MetricPlugin}
use mackerel_agent.Metrics.{Values}
use mackerel_agent.Metrics.Plugin.{Parser, parse_items, collect_lines, collect_values}

custom-prefix : (k : String) → cut_prefix "custom." (append "custom." k) ≡ some k
custom-prefix k = cut_prefix-append "custom." k

custom-other :
    (k n : String) → cut_prefix "custom." n ≡ none → str_eq (append "custom." k) n ≡ false
custom-other k n h = ground (arith, eq_iff (append "custom." k) n, custom-prefix k)

module _ {F Re : Type 0} (parser : Parser F Re) (conf : MetricPlugin Re) where
  -- The value of the last line for a key that counts.
  abbrev pub last_value : String → List String → Option F
  last_value key [] = none
  last_value key (line ∷ lines) =
      or_else (last_value key lines) (elim (parse_items parser conf (fields line)) [
        | none ↦ none
        | some (k, v) ↦ if str_eq k key then some v else none
      ])

  collect_lines-lookup :
      (key : String) (lines : List String) (results : Values F)
      → lookup (append "custom." key) (collect_lines parser conf results lines)
        ≡ or_else (last_value key lines) (lookup (append "custom." key) results)
  unfolding collect_lines
  collect_lines-lookup key [] results = refl
  collect_lines-lookup key (line ∷ lines) results =
      elim (Option-cases (parse_items parser conf (fields line))) [
        | inl n ↦ ground (arith, collect_lines-lookup key lines results)
        | inr ((k, v), e) ↦ ground (
          arith,
          collect_lines-lookup key lines (insert (append "custom." k) v results),
          lookup-insert (append "custom." k) (append "custom." key) v results,
          str_eq-append_left "custom." k key,
        )
      ]

  collect_lines-other :
      (n : String) (lines : List String) (results : Values F)
      → cut_prefix "custom." n ≡ none
      → lookup n results ≡ none
      → lookup n (collect_lines parser conf results lines) ≡ none
  unfolding collect_lines
  collect_lines-other n [] results h l = l
  collect_lines-other n (line ∷ lines) results h l =
      elim (Option-cases (parse_items parser conf (fields line))) [
        | inl e ↦ ground (arith, collect_lines-other n lines results h l)
        | inr ((k, v), e) ↦
            let other = collect_lines-other n lines (insert (append "custom." k) v results) h in
            ground (arith, lookup-insert (append "custom." k) n v results, custom-other k n h)
      ]

  -- A metric of the plugin has the value of the last line for its key that the patterns let through
  -- and whose value is a number, under the key after "custom."; a name without "custom." has none.
  pub collect_values_lem :
      (stdout key n : String) (results : Values F)
      → cut_prefix "custom." n ≡ none
      → collect_values parser conf (some stdout) ≡ some results
      → (lookup (append "custom." key) results ≡ last_value key (split b'\n' stdout))
        × (lookup n results ≡ none)
  unfolding collect_values
  collect_values_lem stdout key n results h c = ground (
    arith,
    collect_lines-lookup key (split b'\n' stdout) [],
    collect_lines-other n (split b'\n' stdout) [] h,
    lookup-nil {V = F} n,
    lookup-nil {V = F} (append "custom." key),
  )
