-- ===== src/Spec/Cpu.antt =====
-- The generator of the CPU spec (spec/linux/cpu.go): /proc/cpuinfo line by line.
pub mod Processors
use mackerel_agent.Prelude.{
  String, ℕ, Bool, true, false, ◌||◌, Option, none, some, List, [], ◌∷◌, ◌++◌, Dict, insert, is_nil,
  code, ◌==◌, str_eq, cut_at, trim_space, scan_lines, is_empty, if◌then◌else◌,
}
use Prim.Native.String

-- strings.Replace(key, " ", "_", -1)
unfoldable pub underscored : String → String
underscored String.[] = String.[]
underscored (String.◌∷◌ c s) = String.◌∷◌ (if code c == b' ' then "_" else c) (underscored s)

unfoldable pub is_plain_detail : String → Bool
is_plain_detail key =
    str_eq key "vendor_id"
    || str_eq key "model"
    || str_eq key "stepping"
    || str_eq key "physical id"
    || str_eq key "core id"
    || str_eq key "model name"
    || str_eq key "cache size"

-- The cases of the switch that write to the current processor, and the name that they write.
unfoldable pub detail_name : String → Option String
unfolding is_plain_detail underscored
detail_name key =
    if is_plain_detail key
    then some (underscored key)
    else if str_eq key "cpu family"
    then some "family"
    else if str_eq key "cpu cores"
    then some "cores"
    else if str_eq key "cpu MHz"
    then some "mhz"
    else none

-- `cur` is the last of the results, and nil before the first; `earlier` are the others.
pub record CpuScan : Type 0 where
  pub earlier : List (Dict String)
  pub cur : Option (Dict String)
  pub model_name : String

unfoldable pub results_of : CpuScan → List (Dict String)
results_of scan = elim scan.cur [ none ↦ scan.earlier | some cur ↦ scan.earlier ++ cur ∷ [] ]

unfoldable pub named : String → Dict String
named model_name = if is_nil model_name then [] else insert "model_name" model_name []

-- `cur[name] = val`, which panics while `cur` is nil.
unfoldable pub set_detail : String → String → CpuScan → Option CpuScan
set_detail name val scan = elim scan.cur [
  | none ↦ none
  | some cur ↦ some (record scan { cur = some (insert name val cur) })
]

-- The switch of generate. `none` is a panic.
unfoldable pub on_cpu_key : String → String → CpuScan → Option CpuScan
unfolding detail_name set_detail results_of named
on_cpu_key key val scan =
    if str_eq key "processor"
    then some (record scan { earlier = results_of scan; cur = some (named scan.model_name) })
    else if str_eq key "Processor" || str_eq key "system type"
    then some (record scan { model_name = val })
    else elim (detail_name key) [ none ↦ some scan | some name ↦ set_detail name val scan ]

unfoldable pub on_cpu_line : String → CpuScan → Option CpuScan
unfolding on_cpu_key
on_cpu_line line scan = elim (cut_at b':' line) [
  | none ↦ some scan
  | some (key, val) ↦ on_cpu_key (trim_space key) (trim_space val) scan
]

unfoldable pub scan_cpu : List String → CpuScan → Option CpuScan
unfolding on_cpu_line
scan_cpu [] scan = some scan
scan_cpu (line ∷ lines) scan = elim (on_cpu_line line scan) [
  | none ↦ none
  | some next ↦ scan_cpu lines next
]

abbrev pub start_scan : CpuScan
start_scan = record { earlier = []; cur = none; model_name = "" }

-- Old kernels have no line of the key `processor`.
unfoldable pub finish_cpu : CpuScan → List (Dict String)
unfolding results_of named
finish_cpu scan =
    if is_empty (results_of scan)
    then (if is_nil scan.model_name then [] else named scan.model_name ∷ [])
    else results_of scan

-- generate, on the content of /proc/cpuinfo.
unfoldable pub generate_cpu : String → Option (List (Dict String))
unfolding scan_cpu finish_cpu
generate_cpu content = elim (scan_cpu (scan_lines content) start_scan) [
  | none ↦ none
  | some scan ↦ some (finish_cpu scan)
]
