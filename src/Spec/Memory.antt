-- ===== src/Spec/Memory.antt =====
-- The generator of the memory spec (spec/linux/memory.go): /proc/meminfo line by line.
use mackerel_agent.Prelude.{
  String, ◌≡◌, refl, Option, none, some, List, [], ◌∷◌, Dict, lookup, insert, lookup-insert,
  or_else, str_eq, fields, join, scan_lines, arith, inl, inr, Option-cases, if◌then◌else◌,
}

abbrev pub mem_items : Dict String
mem_items =
    ("MemTotal:", "total")
    ∷ ("MemFree:", "free")
    ∷ ("Buffers:", "buffers")
    ∷ ("Cached:", "cached")
    ∷ ("Active:", "active")
    ∷ ("Inactive:", "inactive")
    ∷ ("HighTotal:", "high_total")
    ∷ ("HighFree:", "high_free")
    ∷ ("LowTotal:", "low_total")
    ∷ ("LowFree:", "low_free")
    ∷ ("Dirty:", "dirty")
    ∷ ("Writeback:", "writeback")
    ∷ ("AnonPages:", "anon_pages")
    ∷ ("Mapped:", "mapped")
    ∷ ("Slab:", "slab")
    ∷ ("SReclaimable:", "slab_reclaimable")
    ∷ ("SUnreclaim:", "slab_unreclaim")
    ∷ ("PageTables:", "page_tables")
    ∷ ("NFS_Unstable:", "nfs_unstable")
    ∷ ("Bounce:", "bounce")
    ∷ ("CommitLimit:", "commit_limit")
    ∷ ("Committed_AS:", "committed_as")
    ∷ ("VmallocTotal:", "vmalloc_total")
    ∷ ("VmallocUsed:", "vmalloc_used")
    ∷ ("VmallocChunk:", "vmalloc_chunk")
    ∷ ("SwapCached:", "swap_cached")
    ∷ ("SwapTotal:", "swap_total")
    ∷ ("SwapFree:", "swap_free")
    ∷ []

-- What the fields of a line stand for: `MemTotal:  3916792 kB` for `total` and `3916792kB`.
unfoldable pub mem_item : List String → Option (String × String)
mem_item [] = none
mem_item (name ∷ []) = none
mem_item (name ∷ value ∷ rest) = elim (lookup name mem_items) [
  | none ↦ none
  | some key ↦ some (key, join (value ∷ rest))
]

-- The loop of generateMemorySpec
unfoldable pub add_mem_lines : Dict String → List String → Dict String
unfolding mem_item
add_mem_lines result [] = result
add_mem_lines result (line ∷ lines) = elim (mem_item (fields line)) [
  | none ↦ add_mem_lines result lines
  | some (key, value) ↦ add_mem_lines (insert key value result) lines
]

-- generateMemorySpec, on the content of /proc/meminfo.
unfoldable pub generate_memory_spec : String → Dict String
unfolding add_mem_lines
generate_memory_spec content = add_mem_lines [] (scan_lines content)

abbrev value_under : String → Option (String × String) → Option String
value_under key none = none
value_under key (some (other, value)) = if str_eq other key then some value else none

-- The value of the last line that stands for a key.
abbrev pub last_value : String → List String → Option String
last_value key [] = none
last_value key (line ∷ lines) =
    or_else (last_value key lines) (value_under key (mem_item (fields line)))

lookup-add_mem_lines :
    (key : String) (result : Dict String) (lines : List String)
    → lookup key (add_mem_lines result lines) ≡ or_else (last_value key lines) (lookup key result)
unfolding add_mem_lines
lookup-add_mem_lines key result [] = refl
lookup-add_mem_lines key result (line ∷ lines) = elim (Option-cases (mem_item (fields line))) [
  | inl e ↦ ground (arith, lookup-add_mem_lines key result lines)
  | inr (p, e) ↦ ground (
    arith,
    lookup-add_mem_lines key (insert p.0 p.1 result) lines,
    lookup-insert p.0 key p.1 result,
  )
]

-- The memory spec has under each key what the last line that stands for it says, and nothing else.
pub lookup-generate_memory_spec :
    (content key : String)
    → lookup key (generate_memory_spec content) ≡ last_value key (scan_lines content)
unfolding generate_memory_spec lookup
lookup-generate_memory_spec content key =
    ground (arith, lookup-add_mem_lines key [] (scan_lines content))
