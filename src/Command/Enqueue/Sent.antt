-- ===== src/Command/Enqueue/Sent.antt =====
-- Which values `enqueueLoop` of command/command.go sends.
use mackerel_agent.Prelude.{
  String, ℕ, ◌+◌, Bool, not, ◌||◌, Option, none, some, lookup, IsMap, eq_iff, str_eq, List, [], ◌∷◌,
  Dict, total, total-append, if◌then◌else◌, ◌≡◌, refl, arith, inl, inr, Option-cases,
}
use mackerel_agent.Metrics.{Values, ValuesCustomIdentifier}
use mackerel_agent.Agent.{MetricsResult}
use mackerel_agent.Command.Enqueue.{
  HostMetricValue, Float, host_of, valid_values, creating_values, enqueue_result,
}

module _ {F : Type 0} (float : Float F) where
  abbrev pub valid : F → Bool
  valid v = not (float.is_nan v || float.is_inf v)

  -- A weight of what a host is to get, over all metrics of a result.
  abbrev pub metric_total : (HostMetricValue F → ℕ) → String → ℕ → Values F → ℕ
  metric_total w host created [] = 0
  metric_total w host created ((name, v) ∷ vs) =
      (if valid v then w (record { host_id = host; name = name; time = created; value = v }) else 0)
      + metric_total w host created vs

  -- The same for a custom identifier: over all entries of the map of hosts that are its own.
  abbrev pub entries_total : (HostMetricValue F → ℕ) → String → Dict String → ℕ → Values F → ℕ
  entries_total w c [] created vs = 0
  entries_total w c ((d, host) ∷ hosts) created vs =
      (if str_eq d c then metric_total w host created vs else 0)
      + entries_total w c hosts created vs

  -- The values with no identifier are the agent's own host's.
  abbrev pub identified_total :
      (HostMetricValue F → ℕ) → String → Dict String → ℕ → Option String → Values F → ℕ
  identified_total w own hosts created none vs = metric_total w own created vs
  identified_total w own hosts created (some c) vs = entries_total w c hosts created vs

  abbrev pub known_total :
      (HostMetricValue F → ℕ) → String → Dict String → ℕ → List (ValuesCustomIdentifier F) → ℕ
  known_total w own hosts created [] = 0
  known_total w own hosts created (v ∷ vs) =
      identified_total w own hosts created v.custom_identifier v.values
      + known_total w own hosts created vs

  entries_total-none :
      (w : HostMetricValue F → ℕ) (c : String) (hosts : Dict String) (created : ℕ) (vs : Values F)
      → lookup c hosts ≡ none
      → entries_total w c hosts created vs ≡ 0
  unfolding lookup
  entries_total-none w c [] created vs h = refl
  entries_total-none w c ((d, host) ∷ hosts) created vs h =
      ground (arith, entries_total-none w c hosts created vs)

  -- In a map an identifier has one entry.
  entries_total-some :
      (w : HostMetricValue F → ℕ) (c host : String) (hosts : Dict String) (created : ℕ)
      (vs : Values F)
      → IsMap hosts
      → lookup c hosts ≡ some host
      → entries_total w c hosts created vs ≡ metric_total w host created vs
  unfolding lookup
  entries_total-some w c host [] created vs m h = ground arith
  entries_total-some w c host ((d, other) ∷ hosts) created vs m h = ground (
    arith,
    entries_total-some w c host hosts created vs m.1,
    entries_total-none w c hosts created vs,
    eq_iff d c,
  )

  valid_values-total :
      (w : HostMetricValue F → ℕ) (host : String) (created : ℕ) (vs : Values F)
      → total w (valid_values float host created vs) ≡ metric_total w host created vs
  unfolding valid_values
  valid_values-total w host created [] = refl
  valid_values-total w host created ((n, v) ∷ vs) =
      ground (arith, valid_values-total w host created vs)

  identified_total-none :
      (w : HostMetricValue F → ℕ) (own : String) (hosts : Dict String) (created : ℕ)
      (c : Option String) (vs : Values F)
      → host_of own hosts c ≡ none
      → identified_total w own hosts created c vs ≡ 0
  unfolding host_of
  identified_total-none w own hosts created none vs h = ground arith
  identified_total-none w own hosts created (some c) vs h =
      entries_total-none w c hosts created vs h

  identified_total-some :
      (w : HostMetricValue F → ℕ) (own host : String) (hosts : Dict String) (created : ℕ)
      (c : Option String) (vs : Values F)
      → IsMap hosts
      → host_of own hosts c ≡ some host
      → identified_total w own hosts created c vs ≡ metric_total w host created vs
  unfolding host_of
  identified_total-some w own host hosts created none vs m h = ground arith
  identified_total-some w own host hosts created (some c) vs m h =
      entries_total-some w c host hosts created vs m h

  creating_values-total :
      (w : HostMetricValue F → ℕ) (own : String) (hosts : Dict String) (created : ℕ)
      (vs : List (ValuesCustomIdentifier F))
      → IsMap hosts
      → total w (creating_values float own hosts created vs) ≡ known_total w own hosts created vs
  unfolding creating_values
  creating_values-total w own hosts created [] m = refl
  creating_values-total w own hosts created (v ∷ vs) m =
      elim (Option-cases (host_of own hosts v.custom_identifier)) [
        | inl n ↦ ground (
          arith,
          creating_values-total w own hosts created vs,
          identified_total-none w own hosts created v.custom_identifier v.values,
        )
        | inr (host, e) ↦ ground (
          arith,
          creating_values-total w own hosts created vs,
          identified_total-some w own host hosts created v.custom_identifier v.values m,
          valid_values-total w host created v.values,
          total-append w (valid_values float host created v.values)
              (creating_values float own hosts created vs),
        )
      ]

  -- Every value of a result that is neither NaN nor infinite is sent exactly once, with the time of
  -- the result: with the agent's own host if it has no custom identifier, and else with the host that
  -- the map has for the identifier. Where the map has none, and for any other value, nothing is sent.
  -- (The equation is between the sums of any weight.)
  pub enqueue_result_lem :
      (w : HostMetricValue F → ℕ) (own : String) (hosts : Dict String) (result : MetricsResult F)
      → IsMap hosts
      → total w (enqueue_result float own hosts result)
        ≡ known_total w own hosts result.created result.values
  unfolding enqueue_result
  enqueue_result_lem w own hosts result m =
      creating_values-total w own hosts result.created result.values m
