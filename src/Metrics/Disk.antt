-- ===== src/Metrics/Disk.antt =====
-- The generator of disk metrics (metrics/linux/disk.go): /proc/diskstats line by line, and the growth
-- of its counters. `F` is the type of a float64.
pub mod Rates
use mackerel_agent.Prelude.{
  String, ℕ, append, Bool, true, false, not, ◌&&◌, ◌||◌, Option, none, some, List, [], ◌∷◌, Dict,
  insert, insert_all, lookup, is_some, is_nil, cut_prefix, str_eq, fields, length, drop, leb, ltb,
  code, ◌==◌, if◌then◌else◌,
}
use mackerel_agent.Metrics.{Values}
use mackerel_agent.Util.Filesystem.{DfStat}
use mackerel_agent.Metrics.Interface.{sanitize_metric_key}

abbrev pub disk_metrics_names : List String
disk_metrics_names =
    "reads" ∷ "readsMerged" ∷ "sectorsRead" ∷ "readTime" ∷ "writes" ∷ "writesMerged"
    ∷ "sectorsWritten" ∷ "writeTime" ∷ "ioInProgress" ∷ "ioTime" ∷ "ioTimeWeighted" ∷ []

-- strconv.ParseFloat, the test against 0, and (currValue - value) / g.Interval.Seconds().
pub record Float (F : Type 0) : Type 0 where
  pub parse_float : String → Option F
  pub is_zero : F → Bool
  pub rate : F → F → F

module _ {F : Type 0} (float : Float F) where
  -- The loop over diskMetricsNames: `deviceResult`, and `hasNonZeroValue`. It stops at the first value
  -- that is not a number.
  unfoldable pub device_values :
      String → List String → List String → Values F × Bool → Values F × Bool
  device_values label (name ∷ names) (value ∷ values) (result, non_zero) =
      elim (float.parse_float value) [
        | none ↦ (result, non_zero)
        | some v ↦ device_values label names values (
          insert (append "disk." (append label (append "." name))) v result,
          non_zero || not (float.is_zero v),
        )
      ]
  device_values label _ _ (result, non_zero) = (result, non_zero)

  abbrev pub label_of : Dict String → String → String → String
  label_of mapping device label = elim (lookup device mapping) [
    | none ↦ label
    | some mountpoint ↦ sanitize_metric_key mountpoint
  ]

  -- A line with its device and its values, which are enough.
  unfoldable pub add_device : Dict String → String → List String → Values F → Values F
  unfolding device_values
  add_device mapping device values results =
      let label = sanitize_metric_key device in
      let (result, non_zero) =
        device_values (label_of mapping device label) disk_metrics_names values ([], false) in
      if is_some (cut_prefix "dm-" label)
      then results
      else if non_zero
      then insert_all results result
      else results

  -- What a line does: it is skipped, it ends the loop, or it adds values.
  unfoldable pub parse_line : Dict String → List String → Values F → Option (Values F)
  unfolding add_device
  parse_line mapping (major ∷ minor ∷ device ∷ values) results =
      if ltb (length values) (length disk_metrics_names)
      then none
      else some (add_device mapping device values results)
  parse_line mapping _ results = some results

  -- The loop of parseDiskStats over the lines that the scanner finds.
  unfoldable pub parse_lines : Dict String → List String → Values F → Values F
  unfolding parse_line
  parse_lines mapping [] results = results
  parse_lines mapping (line ∷ lines) results = elim (parse_line mapping (fields line) results) [
    | none ↦ results
    | some results' ↦ parse_lines mapping lines results'
  ]

  -- parseDiskStats
  unfoldable pub parse_disk_stats : Dict String → List String → Values F
  unfolding parse_lines
  parse_disk_stats mapping lines = parse_lines mapping lines []

-- .+\.(reads|writes)$, for a text in which the pattern begins at the front.
unfoldable pub ends_posted : Bool → String → Bool
ends_posted some_before String.[] = false
ends_posted some_before (String.◌∷◌ c s) =
    let rest = ends_posted true s in
    some_before && code c == b'.' && (str_eq s "reads" || str_eq s "writes")
    || not (code c == b'\n') && rest

-- postDiskMetricsRegexp
unfoldable pub is_posted : String → Bool
unfolding ends_posted
is_posted name = elim (cut_prefix "disk." name) [
  | none ↦ false
  | some rest ↦ ends_posted false rest
]

module _ {F : Type 0} (float : Float F) where
  -- The loop of Generate over the earlier values.
  unfoldable pub add_rates : Values F → Values F → Values F → Values F
  unfolding is_posted
  add_rates curr ret [] = ret
  add_rates curr ret ((name, value) ∷ prev) = elim (lookup name curr) [
    | none ↦ add_rates curr ret prev
    | some now ↦
        let posted =
          add_rates curr (insert (append name ".delta") (float.rate now value) ret) prev in
        let left_out = add_rates curr ret prev in if is_posted name then posted else left_out
  ]

  -- (g *DiskGenerator) Generate, by the lines before and after the interval with their mappings from
  -- devices to mountpoints, unless /proc/diskstats cannot be read.
  unfoldable pub generate_disk :
      Option (Dict String × List String) → Option (Dict String × List String) → Option (Values F)
  unfolding parse_disk_stats add_rates
  generate_disk none after = none
  generate_disk (some before) none = none
  generate_disk (some (m, before)) (some (n, after)) =
      some (add_rates (parse_disk_stats float n after) [] (parse_disk_stats float m before))

-- getDeviceNameMapping
unfoldable pub device_name_mapping : List DfStat → Dict String
device_name_mapping [] = []
device_name_mapping (dfs ∷ filesystems) =
    let rest = device_name_mapping filesystems in
    elim (cut_prefix "/dev/" dfs.name) [ none ↦ rest | some device ↦ (device, dfs.mounted) ∷ rest ]

-- collectDiskstatValues, up to the parser: the mapping and the lines of /proc/diskstats, unless it
-- cannot be read.
unfoldable pub read_disk_stats :
    Bool → List DfStat → Option (List String) → Option (Dict String × List String)
unfolding device_name_mapping
read_disk_stats use_mountpoint filesystems none = none
read_disk_stats use_mountpoint filesystems (some lines) =
    some (if use_mountpoint then device_name_mapping filesystems else [], lines)
