-- ===== src/Metrics/Linux.antt =====
-- The generators of host metrics: CPU (metrics/linux/cpuusage.go), memory (metrics/linux/memory.go),
-- filesystems (metrics/filesystem.go) and the agent itself (metrics/agent.go). `F` is the type of a
-- float64. The packages that read the statistics are not part of the repository.
pub mod Usage
use mackerel_agent.Prelude.{
  String, ℕ, ◌+◌, ◌%◌, ◌^◌, append, Bool, true, false, ◌&&◌, Option, none, some, List, [], ◌∷◌,
  Dict, insert, insert_all, cut_prefix, leb, if◌then◌else◌, print_decimal,
}
use mackerel_agent.Metrics.{Values}
use mackerel_agent.Metrics.Interface.{sub_uint64, sanitize_metric_key}
use mackerel_agent.Util.Filesystem.{DfStat}
use mackerel_agent.Spec.{FilesystemSpec}
use mackerel_agent.Metrics.Plugin.{
  CustomGraphMetricDef, CustomGraphDef, PluginMeta, GraphDefsParam, make_graph_defs_param,
}

-- cpu.Stats, all fields uint64 but the last two.
pub record CpuStats : Type 0 where
  pub user : ℕ
  pub nice : ℕ
  pub system : ℕ
  pub idle : ℕ
  pub iowait : ℕ
  pub irq : ℕ
  pub softirq : ℕ
  pub steal : ℕ
  pub guest : ℕ
  pub total : ℕ
  pub cpu_count : ℕ
  pub stat_count : ℕ

-- float64(x) of a number, and x * cpuCount * 100.0 / totalDiff.
pub record CpuFloat (F : Type 0) : Type 0 where
  pub of_number : ℕ → F
  pub percentage : F → F → F → F

module _ {F : Type 0} (float : CpuFloat F) (current previous : CpuStats) where
  -- float64(d) * cpuCount * 100.0 / totalDiff
  unfoldable pub usage : ℕ → F
  unfolding sub_uint64
  usage d =
      float.percentage (float.of_number d) (float.of_number current.cpu_count)
        (float.of_number (sub_uint64 current.total previous.total))

  -- The increase of a counter is reported where the kernel has it.
  unfoldable pub add_usage : ℕ → String → (CpuStats → ℕ) → Values F → Values F
  unfolding usage sub_uint64
  add_usage needed name counter ret =
      if leb needed current.stat_count
      then insert name (usage (sub_uint64 (counter current) (counter previous))) ret
      else ret

  -- Since the time of a user counts that of its guests, the guests are taken off.
  unfoldable pub user_growth : ℕ
  unfolding sub_uint64
  user_growth =
      sub_uint64 (sub_uint64 current.user current.guest) (sub_uint64 previous.user previous.guest)

  -- (g *CPUUsageGenerator) Generate, after both collections.
  unfoldable pub cpu_values : Values F
  unfolding add_usage user_growth usage sub_uint64
  cpu_values =
      add_usage 9 "cpu.guest.percentage" (λ s. s.guest)
        (add_usage 8 "cpu.steal.percentage" (λ s. s.steal)
          (add_usage 7 "cpu.softirq.percentage" (λ s. s.softirq)
            (add_usage 6 "cpu.irq.percentage" (λ s. s.irq)
              (add_usage 5 "cpu.iowait.percentage" (λ s. s.iowait)
                (insert "cpu.idle.percentage" (usage (sub_uint64 current.idle previous.idle)) (
                  insert "cpu.system.percentage" (usage (sub_uint64 current.system previous.system))
                    (insert "cpu.nice.percentage" (usage (sub_uint64 current.nice previous.nice))
                      (insert "cpu.user.percentage" (usage user_growth) []))))))))

-- (g *CPUUsageGenerator) Generate, by what the two collections return.
unfoldable pub generate_cpu_usage :
    {F : Type 0} → CpuFloat F → Option CpuStats → Option CpuStats → Option (Values F)
unfolding cpu_values
generate_cpu_usage float (some previous) (some current) = some (cpu_values float current previous)
generate_cpu_usage float _ _ = none

-- memory.Stats, as far as it is read.
pub record MemoryStats : Type 0 where
  pub mem_total : ℕ
  pub mem_used : ℕ
  pub swap_total : ℕ
  pub swap_cached : ℕ
  pub swap_free : ℕ
  pub mem_available_enabled : Bool
  pub available : ℕ
  pub buffers : ℕ
  pub cached : ℕ
  pub free : ℕ

-- (g *MemoryGenerator) Generate
unfoldable pub generate_memory : {F : Type 0} → (ℕ → F) → Option MemoryStats → Option (Values F)
generate_memory of_uint64 none = none
generate_memory of_uint64 (some mem) =
    let ret =
      ("memory.total", of_uint64 mem.mem_total)
      ∷ ("memory.used", of_uint64 mem.mem_used)
      ∷ ("memory.swap_total", of_uint64 mem.swap_total)
      ∷ ("memory.swap_cached", of_uint64 mem.swap_cached)
      ∷ ("memory.swap_free", of_uint64 mem.swap_free)
      ∷ [] in
    some (
      if mem.mem_available_enabled
      then insert "memory.mem_available" (of_uint64 mem.available) ret
      else insert "memory.free" (of_uint64 mem.free) (
          insert "memory.cached" (of_uint64 mem.cached)
            (insert "memory.buffers" (of_uint64 mem.buffers) ret)))

-- metrics.FilesystemGenerator, where `ignored` is the test of its pattern, if it has one.
pub record FilesystemGenerator : Type 0 where
  pub ignored : Option (String → Bool)
  pub use_mountpoint : Bool

abbrev is_ignored : Option (String → Bool) → String → Bool
is_ignored none name = false
is_ignored (some test) name = test name

-- The two values of a filesystem on a device, in bytes: `of_kilobytes n` is float64(n) * 1024.
unfoldable pub add_filesystem :
    {F : Type 0} → (ℕ → F) → FilesystemGenerator → DfStat → Values F → Values F
unfolding sanitize_metric_key
add_filesystem of_kilobytes g dfs ret =
    if is_ignored g.ignored dfs.name then ret else elim (cut_prefix "/dev/" dfs.name) [
      | none ↦ ret
      | some device ↦
          let metric_name =
            sanitize_metric_key (if g.use_mountpoint then dfs.mounted else device) in
          insert (append "filesystem." (append metric_name ".used")) (of_kilobytes dfs.used) (
            insert (append "filesystem." (append metric_name ".size"))
              (of_kilobytes ((dfs.used + dfs.available) % 2 ^ 64)) ret)
    ]

-- (g *FilesystemGenerator) Generate
unfoldable pub filesystem_values :
    {F : Type 0} → (ℕ → F) → FilesystemGenerator → Values F → List DfStat → Values F
unfolding add_filesystem
filesystem_values of_kilobytes g ret [] = ret
filesystem_values of_kilobytes g ret (dfs ∷ filesystems) =
    filesystem_values of_kilobytes g (add_filesystem of_kilobytes g dfs ret) filesystems

-- (g *FilesystemGenerator) Generate of spec/filesystem.go
unfoldable pub filesystem_specs : Dict FilesystemSpec → List DfStat → Dict FilesystemSpec
filesystem_specs ret [] = ret
filesystem_specs ret (v ∷ filesystems) =
    filesystem_specs
      (insert v.name
        (record {
          kb_size = v.blocks;
          kb_used = v.used;
          kb_available = v.available;
          percent_used = append (print_decimal v.capacity) "%";
          mount = v.mounted;
        })
        ret)
      filesystems

-- runtime.MemStats, as far as it is read.
pub record MemStats : Type 0 where
  pub alloc : ℕ
  pub sys : ℕ
  pub heap_alloc : ℕ
  pub heap_sys : ℕ

-- (g *AgentGenerator) Generate
unfoldable pub agent_values : {F : Type 0} → (ℕ → F) → MemStats → ℕ → Values F
agent_values of_number mem_stats goroutines =
    ("custom.agent.memory.alloc", of_number mem_stats.alloc)
    ∷ ("custom.agent.memory.sys", of_number mem_stats.sys)
    ∷ ("custom.agent.memory.heapAlloc", of_number mem_stats.heap_alloc)
    ∷ ("custom.agent.memory.heapSys", of_number mem_stats.heap_sys)
    ∷ ("custom.agent.runtime.goroutine_num", of_number goroutines)
    ∷ []

abbrev unstacked : String → String → CustomGraphMetricDef
unstacked name label = record { name = name; label = label; stacked = false }

-- The meta of (g *AgentGenerator) PrepareGraphDefs
unfoldable pub agent_meta : PluginMeta
agent_meta =
    (
      "agent.memory",
      record {
        label = "Agent Memory";
        unit = "bytes";
        metrics =
            unstacked "alloc" "Alloc"
            ∷ unstacked "sys" "Sys"
            ∷ unstacked "heapAlloc" "Heap Alloc"
            ∷ unstacked "heapSys" "Heap Sys"
            ∷ [];
      },
    )
    ∷ (
      "agent.runtime",
      record {
        label = "Agent Runtime";
        unit = "integer";
        metrics = unstacked "goroutine_num" "Goroutine Num" ∷ [];
      },
    )
    ∷ []

-- (g *AgentGenerator) PrepareGraphDefs
unfoldable pub agent_graph_defs : List GraphDefsParam
unfolding agent_meta make_graph_defs_param
agent_graph_defs = make_graph_defs_param (some agent_meta)
