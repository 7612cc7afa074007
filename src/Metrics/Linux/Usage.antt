-- ===== src/Metrics/Linux/Usage.antt =====
-- What the generators of host metrics report (metrics/linux/cpuusage.go, metrics/agent.go).
use mackerel_agent.Prelude.{
  String, ℕ, ◌+◌, ◌-◌, ◌^◌, ◌≤◌, ◌<◌, ◌≡◌, refl, List, [], ◌∷◌, ◌++◌, map, arith,
}
use mackerel_agent.Metrics.Interface.{sub_uint64}
use mackerel_agent.Metrics.Plugin.{GraphDefsParam}
use mackerel_agent.Metrics.Linux.{
  CpuFloat, CpuStats, user_growth, MemStats, agent_values, agent_graph_defs,
}

-- The growth of the time of users without their guests does not wrap around: where the counters
-- count the guests among the users and the difference has not shrunk, it is what the difference has
-- grown by.
pub user_growth_lem :
    {F : Type 0} (float : CpuFloat F) (current previous : CpuStats)
    → current.user < 2 ^ 64
    → previous.guest ≤ previous.user
    → current.guest ≤ current.user
    → previous.user - previous.guest ≤ current.user - current.guest
    → user_growth float current previous + (previous.user - previous.guest)
      ≡ current.user - current.guest
unfolding user_growth sub_uint64
user_growth_lem float current previous fits p c grows = omega arith

abbrev metric_names : List GraphDefsParam → List String
metric_names [] = []
metric_names (graph ∷ graphs) = map (λ m. m.name) graph.metrics ++ metric_names graphs

-- The values that the agent reports of itself are, in order, those that its graph definitions define.
pub agent_values-graph_defs :
    {F : Type 0} (of_number : ℕ → F) (mem_stats : MemStats) (goroutines : ℕ)
    → map (λ e. e.0) (agent_values of_number mem_stats goroutines) ≡ metric_names agent_graph_defs
unfolding agent_values agent_graph_defs
agent_values-graph_defs of_number mem_stats goroutines = refl
