-- ===== src/Metrics/Interface.antt =====
-- The generator of the metrics of network interfaces (metrics/interface.go), and the names that
-- metrics get (util/sanitize.go). A counter is a uint64; `F` is the type of a float64.
pub mod Deltas
use mackerel_agent.Prelude.{
  String, ℕ, ◌+◌, ◌-◌, ◌*◌, ◌%◌, ◌^◌, append, Bool, true, false, not, ◌&&◌, ◌||◌, Option, none,
  some, List, [], ◌∷◌, Dict, insert, lookup, is_some, cut_prefix, trim_prefix, str_eq, code, ◌==◌,
  leb, if◌then◌else◌,
}
use Prim.Native.String
use mackerel_agent.Metrics.{Values}

-- [A-Za-z0-9_-]
unfoldable pub is_key : ℕ → Bool
is_key c =
    leb b'A' c && leb c b'Z'
    || leb b'a' c && leb c b'z'
    || leb b'0' c && leb c b'9'
    || c == b'_'
    || c == b'-'

-- SanitizeMetricKey
unfoldable pub sanitize_metric_key : String → String
unfolding is_key
sanitize_metric_key String.[] = String.[]
sanitize_metric_key (String.◌∷◌ c s) =
    let rest = sanitize_metric_key s in
    if is_key (code c) then String.◌∷◌ c rest else String.◌∷◌ "_" rest

-- network.Stats
pub record Network : Type 0 where
  pub name : String
  pub rx_bytes : ℕ
  pub tx_bytes : ℕ

-- float64(x), and float64(x) / g.Interval.Seconds(), for a uint64.
pub record Float (F : Type 0) : Type 0 where
  pub of_uint64 : ℕ → F
  pub per_second : F → F

-- The `range` of collectInterfacesValues.
unfoldable pub add_networks : Dict ℕ → List Network → Dict ℕ
unfolding sanitize_metric_key
add_networks results [] = results
add_networks results (n ∷ ns) =
    let name = sanitize_metric_key n.name in
    if is_some (cut_prefix "veth" name)
    then add_networks results ns
    else add_networks
        (insert (append "interface." (append name ".txBytes")) n.tx_bytes
          (insert (append "interface." (append name ".rxBytes")) n.rx_bytes results))
        ns

-- collectInterfacesValues, unless the statistics cannot be read.
unfoldable pub collect_interfaces_values : Option (List Network) → Option (Dict ℕ)
unfolding add_networks
collect_interfaces_values none = none
collect_interfaces_values (some networks) = some (add_networks [] networks)

-- a - b on uint64
unfoldable pub sub_uint64 : ℕ → ℕ → ℕ
sub_uint64 a b = (a + 2 ^ 64 - b) % 2 ^ 64

module _ {F : Type 0} (float : Float F) where
  -- The loop of Generate over the earlier values.
  unfoldable pub add_deltas : Dict ℕ → Values F → Dict ℕ → Values F
  unfolding sub_uint64
  add_deltas curr ret [] = ret
  add_deltas curr ret ((name, prev) ∷ rest) = elim (lookup name curr) [
    | none ↦ add_deltas curr ret rest
    | some now ↦
        let with_delta =
          add_deltas curr
            (insert (append name ".delta")
              (float.per_second (float.of_uint64 (sub_uint64 now prev))) ret)
            rest in
        let without = add_deltas curr ret rest in if leb prev now then with_delta else without
  ]

  -- (g *InterfaceGenerator) Generate, by the statistics before and after the interval.
  unfoldable pub generate_interface :
      Option (List Network) → Option (List Network) → Option (Values F)
  unfolding collect_interfaces_values add_deltas
  generate_interface before after = elim (collect_interfaces_values before) [
    | none ↦ none
    | some prev ↦ elim (collect_interfaces_values after) [
      | none ↦ none
      | some curr ↦ some (add_deltas curr [] prev)
    ]
  ]
