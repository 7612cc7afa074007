-- ===== src/Spec/Cpu/Processors.antt =====
-- How many processors /proc/cpuinfo is read to have, and when reading it panics (spec/linux/cpu.go).
use mackerel_agent.Prelude.{
  String, ℕ, ◌+◌, ◌<◌, ◌≡◌, ◌↔◌, Bool, true, false, not, ◌&&◌, ◌||◌, none, some, List, [], ◌∷◌,
  Dict, is_some, str_eq, cut_at, trim_space, scan_lines, length, length-append, arith, inl, inr,
  Option-cases, Bool-cases, if◌then◌else◌,
}
use mackerel_agent.Spec.Cpu.{
  detail_name, CpuScan, start_scan, results_of, set_detail, on_cpu_key, on_cpu_line, scan_cpu,
  finish_cpu, generate_cpu,
}

-- A test of the key of a line, which is false where the line has no key.
abbrev key_test : (String → Bool) → String → Bool
key_test test line = elim (cut_at b':' line) [
  | none ↦ false
  | some (key, val) ↦ test (trim_space key)
]

abbrev processor_key : String → Bool
processor_key key = str_eq key "processor"

abbrev detail_key : String → Bool
detail_key key =
    not (str_eq key "processor")
    && not (str_eq key "Processor" || str_eq key "system type")
    && is_some (detail_name key)

-- A line `processor: ...`, and a line that describes the processor before it.
abbrev is_processor : String → Bool
is_processor = key_test processor_key

abbrev is_detail : String → Bool
is_detail = key_test detail_key

abbrev one_if : Bool → ℕ
one_if b = if b then 1 else 0

unfoldable pub processors : List String → ℕ
processors [] = 0
processors (line ∷ lines) = one_if (is_processor line) + processors lines

-- There is a line that describes a processor, and no line `processor: ...` before it.
unfoldable pub detail_first : List String → Bool
detail_first [] = false
detail_first (line ∷ lines) =
    let later = detail_first lines in if is_processor line then false else is_detail line || later

length-results_of :
    (scan : CpuScan) → length (results_of scan) ≡ length scan.earlier + one_if (is_some scan.cur)
unfolding results_of
length-results_of scan = elim (Option-cases scan.cur) [
  | inl e ↦ ground arith
  | inr (cur, e) ↦ ground (arith, length-append scan.earlier (cur ∷ []))
]

length-set_detail :
    (name val : String) (scan scan' : CpuScan)
    → set_detail name val scan ≡ some scan'
    → length (results_of scan') ≡ length (results_of scan)
unfolding set_detail
length-set_detail name val scan scan' h = elim (Option-cases scan.cur) [
  | inl e ↦ ground arith
  | inr (cur, e) ↦ ground (arith, length-results_of scan, length-results_of scan')
]

length-on_cpu_key :
    (key val : String) (scan scan' : CpuScan)
    → on_cpu_key key val scan ≡ some scan'
    → length (results_of scan') ≡ one_if (processor_key key) + length (results_of scan)
unfolding on_cpu_key
length-on_cpu_key key val scan scan' h = elim (Bool-cases (str_eq key "processor")) [
  | inl e ↦ ground (arith, length-results_of scan')
  | inr e ↦ elim (Bool-cases (str_eq key "Processor" || str_eq key "system type")) [
    | inl m ↦ ground (arith, length-results_of scan, length-results_of scan')
    | inr m ↦ elim (Option-cases (detail_name key)) [
      | inl d ↦ ground arith
      | inr (name, d) ↦ ground (arith, length-set_detail name val scan scan')
    ]
  ]
]

is_some-set_detail :
    (name val : String) (scan : CpuScan) → is_some (set_detail name val scan) ≡ is_some scan.cur
unfolding set_detail
is_some-set_detail name val scan = ground arith

cur-set_detail :
    (name val : String) (scan scan' : CpuScan)
    → set_detail name val scan ≡ some scan'
    → is_some scan'.cur ≡ is_some scan.cur
unfolding set_detail
cur-set_detail name val scan scan' h = ground arith

-- A key is written to nil just where it describes a processor and there is none.
is_some-on_cpu_key :
    (key val : String) (scan : CpuScan)
    → is_some (on_cpu_key key val scan) ≡ (is_some scan.cur || not (detail_key key))
unfolding on_cpu_key
is_some-on_cpu_key key val scan = elim (Bool-cases (str_eq key "processor")) [
  | inl e ↦ ground arith
  | inr e ↦ elim (Bool-cases (str_eq key "Processor" || str_eq key "system type")) [
    | inl m ↦ ground arith
    | inr m ↦ elim (Option-cases (detail_name key)) [
      | inl d ↦ ground arith
      | inr (name, d) ↦ ground (arith, is_some-set_detail name val scan)
    ]
  ]
]

is_some-cur :
    (key val : String) (scan scan' : CpuScan)
    → on_cpu_key key val scan ≡ some scan'
    → is_some scan'.cur ≡ (processor_key key || is_some scan.cur)
unfolding on_cpu_key
is_some-cur key val scan scan' h = elim (Bool-cases (str_eq key "processor")) [
  | inl e ↦ ground arith
  | inr e ↦ elim (Bool-cases (str_eq key "Processor" || str_eq key "system type")) [
    | inl m ↦ ground arith
    | inr m ↦ elim (Option-cases (detail_name key)) [
      | inl d ↦ ground arith
      | inr (name, d) ↦ ground (arith, cur-set_detail name val scan scan')
    ]
  ]
]

module _ (line : String) (scan : CpuScan) where
  is_some-on_cpu_line : is_some (on_cpu_line line scan) ≡ (is_some scan.cur || not (is_detail line))
  unfolding on_cpu_line
  is_some-on_cpu_line = elim (Option-cases (cut_at b':' line)) [
    | inl e ↦ ground arith
    | inr (p, e) ↦ ground (arith, is_some-on_cpu_key (trim_space p.0) (trim_space p.1) scan)
  ]

  module _ (scan' : CpuScan) (h : on_cpu_line line scan ≡ some scan') where
    is_some-cur_line : is_some scan'.cur ≡ (is_processor line || is_some scan.cur)
    unfolding on_cpu_line
    is_some-cur_line = elim (Option-cases (cut_at b':' line)) [
      | inl e ↦ ground arith
      | inr (p, e) ↦ ground (arith, is_some-cur (trim_space p.0) (trim_space p.1) scan scan')
    ]

    length-on_cpu_line :
        length (results_of scan') ≡ one_if (is_processor line) + length (results_of scan)
    unfolding on_cpu_line
    length-on_cpu_line = elim (Option-cases (cut_at b':' line)) [
      | inl e ↦ ground arith
      | inr (p, e) ↦ ground (arith, length-on_cpu_key (trim_space p.0) (trim_space p.1) scan scan')
    ]

is_some-scan_cpu :
    (lines : List String) (scan : CpuScan)
    → is_some (scan_cpu lines scan) ≡ (is_some scan.cur || not (detail_first lines))
unfolding scan_cpu detail_first
is_some-scan_cpu [] scan = ground arith
is_some-scan_cpu (line ∷ lines) scan = elim (Option-cases (on_cpu_line line scan)) [
  | inl e ↦ ground (arith, is_some-on_cpu_line line scan)
  | inr (next, e) ↦ ground (
    arith,
    is_some-on_cpu_line line scan,
    is_some-cur_line line scan next e,
    is_some-scan_cpu lines next,
  )
]

length-scan_cpu :
    (lines : List String) (scan scan' : CpuScan)
    → scan_cpu lines scan ≡ some scan'
    → length (results_of scan') ≡ processors lines + length (results_of scan)
unfolding scan_cpu processors
length-scan_cpu [] scan scan' h = ground arith
length-scan_cpu (line ∷ lines) scan scan' h = elim (Option-cases (on_cpu_line line scan)) [
  | inl e ↦ ground arith
  | inr (next, e) ↦
      ground (arith, length-on_cpu_line line scan next e, length-scan_cpu lines next scan')
]

-- Reading /proc/cpuinfo panics just where a line that describes a processor comes before the first
-- line of the key `processor`, or stands in a file that has none.
pub generate_cpu-detail_first :
    (content : String) → (generate_cpu content ≡ none) ↔ (detail_first (scan_lines content) ≡ true)
unfolding generate_cpu
generate_cpu-detail_first content =
    let p = is_some-scan_cpu (scan_lines content) start_scan in ground (arith, p)

-- Where it does not panic and the file has lines of the key `processor`, the spec has as many
-- processors as there are such lines.
pub generate_cpu-processors :
    (content : String) (cpus : List (Dict String))
    → generate_cpu content ≡ some cpus
    → 0 < processors (scan_lines content)
    → length cpus ≡ processors (scan_lines content)
unfolding generate_cpu finish_cpu
generate_cpu-processors content cpus h n =
    elim (Option-cases (scan_cpu (scan_lines content) start_scan)) [
      | inl e ↦ ground arith
      | inr (scan, e) ↦ ground (
        arith,
        length-scan_cpu (scan_lines content) start_scan scan e,
        length-results_of start_scan,
      )
    ]
