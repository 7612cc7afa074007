-- ===== src/Command/Enqueue.antt =====
-- `enqueueLoop` of command/command.go: the values of a result of the agent as the API takes them.
-- `F` is the type of a float64.
pub mod Sent
use mackerel_agent.Prelude.{
  String, ℕ, Bool, true, false, ◌||◌, Option, none, some, List, [], ◌∷◌, ◌++◌, Dict, lookup,
  if◌then◌else◌,
}
use mackerel_agent.Metrics.{Values, ValuesCustomIdentifier}
use mackerel_agent.Agent.{MetricsResult}

-- mkr.HostMetricValue
pub record HostMetricValue (F : Type 0) : Type 0 where
  pub host_id : String
  pub name : String
  pub time : ℕ
  pub value : F

-- math.IsNaN and math.IsInf, of either sign.
pub record Float (F : Type 0) : Type 0 where
  pub is_nan : F → Bool
  pub is_inf : F → Bool

-- The host of a custom identifier, or the agent's own host. `hosts` is `CustomIdentifierHosts`, with
-- the ids of the hosts.
unfoldable pub host_of : String → Dict String → Option String → Option String
host_of own hosts none = some own
host_of own hosts (some custom_identifier) = lookup custom_identifier hosts

module _ {F : Type 0} (float : Float F) where
  -- The values of one host, for a `range` that visits them in the order of the list.
  unfoldable pub valid_values : String → ℕ → Values F → List (HostMetricValue F)
  valid_values host_id created [] = []
  valid_values host_id created ((name, value) ∷ values) =
      let rest = valid_values host_id created values in
      if float.is_nan value || float.is_inf value
      then rest
      else record { host_id = host_id; name = name; time = created; value = value } ∷ rest

  unfoldable pub creating_values :
      String → Dict String → ℕ → List (ValuesCustomIdentifier F) → List (HostMetricValue F)
  unfolding host_of valid_values
  creating_values own hosts created [] = []
  creating_values own hosts created (values ∷ rest) =
      elim (host_of own hosts values.custom_identifier) [
        | none ↦ creating_values own hosts created rest
        | some host_id ↦
            valid_values host_id created values.values ++ creating_values own hosts created rest
      ]

  -- What enqueueLoop sends to `postQueue` for a result.
  unfoldable pub enqueue_result : String → Dict String → MetricsResult F → List (HostMetricValue F)
  unfolding creating_values
  enqueue_result own hosts result = creating_values own hosts result.created result.values
