-- ===== src/Metrics/Bsd.antt =====
-- The generators of host metrics of FreeBSD, NetBSD and Darwin that read the output of a command:
-- here the CPU (metrics/freebsd/cpuusage.go, metrics/darwin/cpuusage.go), by iostat. `F` is the type
-- of a float64.
pub mod Top
use mackerel_agent.Prelude.{
  String, ℕ, suc, append, Bool, true, false, ◌&&◌, ◌||◌, Option, none, some, List, [], ◌∷◌, Dict,
  lookup, insert, is_nil, is_empty, rune_count, has_char, str_eq, code, ◌==◌, ltb, length,
  get_elem?, fields, split, leb, ◌≡◌, arith, print, print_decimal, trim_space, if◌then◌else◌,
}
use mackerel_agent.Metrics.{Values}
use mackerel_agent.Util.Filesystem.{span, is_digit}
use mackerel_agent.Util.Filesystem.Printed.{starts, span-none, span-print, first-print}

-- strconv.ParseFloat, and value * unit.
pub record Float (F : Type 0) : Type 0 where
  pub parse_float : String → Option F
  pub times : F → ℕ → F

-- iostatFieldToMetricName
abbrev pub bsd_usage_names : List String
bsd_usage_names = "user" ∷ "nice" ∷ "system" ∷ "interrupt" ∷ "idle" ∷ []

abbrev pub darwin_usage_names : List String
darwin_usage_names = "user" ∷ "system" ∷ "idle" ∷ []

abbrev is_skipped : Option ℕ → ℕ → Bool
is_skipped none i = false
is_skipped (some j) i = i == j

-- The loop of parseIostatOutput from the last line on: the fields of the last line that has enough.
unfoldable pub last_usage : List String → List String
last_usage [] = []
last_usage (line ∷ lines) =
    let later = last_usage lines in
    if is_empty later
    then (if ltb (length (fields line)) (length darwin_usage_names) then [] else fields line)
    else later

module _ {F : Type 0} (float : Float F) where
  -- The loop of Generate over iostatFieldToMetricName, from the index `i` on, but for the index
  -- `skipped`. `none` is an error.
  unfoldable pub usage_values :
      Option ℕ → ℕ → List String → List String → Values F → Option (Values F)
  usage_values skipped i [] values cpu_usage = some cpu_usage
  usage_values skipped i (n ∷ names) [] cpu_usage = none
  usage_values skipped i (n ∷ names) (value ∷ values) cpu_usage = elim (is_skipped skipped i) [
    | true ↦ usage_values skipped (suc i) names values cpu_usage
    | false ↦ elim (float.parse_float value) [
      | none ↦ none
      | some v ↦
          usage_values skipped (suc i) names values
            (insert (append "cpu." (append n ".percentage")) v cpu_usage)
    ]
  ]

  -- Generate of FreeBSD, on what iostat prints unless it fails: the fourth of five lines.
  unfoldable pub generate_bsd_cpu_usage : Option String → Option (Values F)
  unfolding usage_values
  generate_bsd_cpu_usage none = none
  generate_bsd_cpu_usage (some iostat) =
      let lines = split b'\n' iostat in
      if length lines == 5
      then elim (get_elem? lines 3) [
        | none ↦ none
        | some line ↦
            if ltb (length (fields line)) (length bsd_usage_names)
            then none
            else usage_values (some 3) 0 bsd_usage_names (fields line) []
      ]
      else none

  -- parseIostatOutput of Darwin
  unfoldable pub parse_iostat_output : String → Option (Values F)
  unfolding usage_values last_usage
  parse_iostat_output output =
      let usage = last_usage (split b'\n' output) in
      if is_empty usage then none else usage_values none 0 darwin_usage_names usage []
