-- ===== src/Metrics/Bsd/Top.antt =====
-- The memory of FreeBSD (metrics/freebsd/memory.go) and of NetBSD (metrics/netbsd/memory.go), by top
-- and sysctl.
use mackerel_agent.Prelude.{
  String, ℕ, suc, Bool, true, false, ◌&&◌, ◌||◌, Option, none, some, List, [], ◌∷◌, Dict, lookup,
  insert, is_nil, rune_count, has_char, str_eq, code, ◌==◌, ltb, length, get_elem?, fields, split,
  leb, ◌≡◌, arith, print, print_decimal, trim_space, if◌then◌else◌,
}
use mackerel_agent.Metrics.{Values}
use mackerel_agent.Util.Filesystem.{span, is_digit}
use mackerel_agent.Util.Filesystem.Printed.{starts, span-none, span-print, first-print}
use mackerel_agent.Metrics.Bsd.{Float}

-- k[0 : len(k)-1] where k ends in a comma.
unfoldable pub without_comma : String → String
without_comma String.[] = String.[]
without_comma (String.◌∷◌ c s) =
    let rest = without_comma s in
    if is_nil s && code c == b',' then String.[] else String.◌∷◌ c rest

-- The groups of `^(\d+)(.?)$`, of a field.
unfoldable pub number_and_unit : String → Option (String × String)
unfolding span is_digit
number_and_unit s =
    let (number, unit) = span is_digit s in
    if is_nil number || ltb 1 (rune_count unit) || has_char b'\n' unit
    then none
    else some (number, unit)

abbrev pub unit_size : String → ℕ
unit_size unit =
    if str_eq unit "G"
    then 1073741824
    else if str_eq unit "M"
    then 1048576
    else if str_eq unit "K"
    then 1024
    else 1

-- `ret`, and whether `errRet` is set.
pub record TopScan (F : Type 0) : Type 0 where
  pub ret : Values F
  pub has_failed : Bool

module _ {F : Type 0} (float : Float F) where
  -- getValue: it panics (`none`) where the pattern does not match, since `match` is nil, and fails
  -- where the number cannot be read.
  unfoldable pub get_value : String → Option (Option F)
  unfolding number_and_unit
  get_value str_value = elim (number_and_unit str_value) [
    | none ↦ none
    | some (number, unit) ↦ elim (float.parse_float number) [
      | none ↦ some none
      | some value ↦ some (some (float.times value (unit_size unit)))
    ]
  ]

  abbrev set_named : Dict String → String → F → TopScan F → TopScan F
  set_named names k v scan = elim (lookup (without_comma k) names) [
    | none ↦ scan
    | some name ↦ record scan { ret = insert name v scan.ret }
  ]

  -- The loop over the fields of the line of the memory, a value and its name at a time. It panics
  -- where a value has no name.
  unfoldable pub on_memory : Dict String → List String → TopScan F → Option (TopScan F)
  unfolding get_value
  on_memory names [] scan = some scan
  on_memory names (value ∷ []) scan = elim (get_value value) [
    | none ↦ none
    | some none ↦ some (record scan { has_failed = true })
    | some (some v) ↦ none
  ]
  on_memory names (value ∷ k ∷ rest) scan = elim (get_value value) [
    | none ↦ none
    | some none ↦ on_memory names rest (record scan { has_failed = true })
    | some (some v) ↦ on_memory names rest (set_named names k v scan)
  ]

  -- One value of the line of the swap.
  unfoldable pub on_swap : String → List String → ℕ → TopScan F → Option (TopScan F)
  unfolding get_value
  on_swap name columns i scan = elim (get_elem? columns i) [
    | none ↦ none
    | some column ↦ elim (get_value column) [
      | none ↦ none
      | some none ↦ some (record scan { has_failed = true })
      | some (some v) ↦ some (record scan { ret = insert name v scan.ret })
    ]
  ]

  -- One line of top, where `title` begins the line of the memory.
  unfoldable pub on_top_line : String → Dict String → List String → TopScan F → Option (TopScan F)
  unfolding on_memory on_swap
  on_top_line title names [] scan = some scan
  on_top_line title names (key ∷ rest) scan =
      if str_eq key title
      then on_memory names rest scan
      else if str_eq key "Swap:"
      then elim (on_swap "memory.swap_total" (key ∷ rest) 1 scan) [
        | none ↦ none
        | some scan' ↦
            on_swap "memory.swap_free" (key ∷ rest) (if length (key ∷ rest) == 5 then 3 else 5)
              scan'
      ]
      else some scan

  unfoldable pub scan_top : String → Dict String → List String → TopScan F → Option (TopScan F)
  unfolding on_top_line
  scan_top title names [] scan = some scan
  scan_top title names (line ∷ lines) scan = elim (on_top_line title names (fields line) scan) [
    | none ↦ none
    | some scan' ↦ scan_top title names lines scan'
  ]

  -- getTotalMem, on what sysctl prints unless it fails.
  unfoldable pub get_total_mem : Option String → Option F
  get_total_mem none = none
  get_total_mem (some output) = float.parse_float (trim_space output)

  -- Generate: whether top has failed, what it has printed, and what sysctl prints. `none` is a panic,
  -- `some none` an error.
  unfoldable pub generate_top_memory :
      String → Dict String → Bool → String → Option String → Option (Option (Values F))
  unfolding scan_top get_total_mem
  generate_top_memory title names top_failed out physmem =
      elim (scan_top title names (split b'\n' out) (record { ret = []; has_failed = top_failed })) [
        | none ↦ none
        | some scan ↦ elim (get_total_mem physmem) [
          | none ↦ some none
          | some total ↦
              some (if scan.has_failed then none else some (insert "memory.total" total scan.ret))
        ]
      ]

-- The names of the columns of FreeBSD and of NetBSD, with those of the metrics.
abbrev pub freebsd_memory_names : Dict String
freebsd_memory_names =
    ("Cache", "memory.cached") ∷ ("Buf", "memory.buffers") ∷ ("Free", "memory.free") ∷ []

abbrev pub netbsd_memory_names : Dict String
netbsd_memory_names =
    ("Act", "memory.act")
    ∷ ("Wired", "memory.wired")
    ∷ ("Exec", "memory.exec")
    ∷ ("File", "memory.file")
    ∷ ("Free", "memory.free")
    ∷ []

unfoldable pub generate_freebsd_memory :
    {F : Type 0} → Float F → Bool → String → Option String → Option (Option (Values F))
unfolding generate_top_memory
generate_freebsd_memory float = generate_top_memory float "Mem:" freebsd_memory_names

unfoldable pub generate_netbsd_memory :
    {F : Type 0} → Float F → Bool → String → Option String → Option (Option (Values F))
unfolding generate_top_memory
generate_netbsd_memory float = generate_top_memory float "Memory:" netbsd_memory_names

-- A number that is printed before a unit of one character, or before none, is read with its unit,
-- where the unit is no digit and no newline.
pub number_and_unit-print :
    (n : ℕ) (unit : String)
    → starts is_digit unit ≡ false
    → leb (rune_count unit) 1 ≡ true
    → has_char b'\n' unit ≡ false
    → number_and_unit (print (suc n) n unit) ≡ some (print_decimal n, unit)
unfolding number_and_unit print_decimal
number_and_unit-print n unit d u l = ground (
  arith,
  span-print (suc n) n unit "" unit (omega arith) (span-none is_digit unit d),
  first-print (suc n) n "",
)
