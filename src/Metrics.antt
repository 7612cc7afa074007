-- ===== src/Metrics.antt =====
-- The package metrics: metric values and how those of several generators are merged
-- (metrics/metrics.go). `F` is the type of a float64.
pub mod Merge
pub mod Plugin
pub mod Interface
pub mod Disk
pub mod Linux
pub mod Bsd
use mackerel_agent.Prelude.{
  String, Dict, insert_all, Bool, true, false, Option, none, some, List, [], ◌∷◌, str_eq,
  if◌then◌else◌,
}

abbrev pub Values : Type 0 → Type 0
Values F = Dict F

-- merge(v1, v2): the values of `v2` are written over those of `v1`.
unfoldable pub merge : {F : Type 0} → Values F → Values F → Values F
merge v1 v2 = insert_all v1 v2

-- A `*string` is nil, or compared by what it points to.
pub record ValuesCustomIdentifier (F : Type 0) : Type 0 where
  pub values : Values F
  pub custom_identifier : Option String

unfoldable pub same_identifier : Option String → Option String → Bool
same_identifier none none = true
same_identifier (some a) (some b) = str_eq a b
same_identifier none (some b) = false
same_identifier (some a) none = false

unfoldable pub merge_values_custom_identifiers :
    {F : Type 0}
    → List (ValuesCustomIdentifier F)
    → ValuesCustomIdentifier F
    → List (ValuesCustomIdentifier F)
unfolding same_identifier merge
merge_values_custom_identifiers [] new_value = new_value ∷ []
merge_values_custom_identifiers (value ∷ values) new_value =
    if same_identifier value.custom_identifier new_value.custom_identifier
    then record value { values = merge value.values new_value.values } ∷ values
    else value ∷ merge_values_custom_identifiers values new_value
