-- ===== src/Metrics/Disk/Rates.antt =====
-- Which counters of disks are sent (metrics/linux/disk.go).
use mackerel_agent.Prelude.{
  str_eq-append_right, String, append, Bool, true, false, Option, none, some, [], ◌∷◌, insert,
  lookup, lookup-insert, IsMap, eq_iff, or_else, ◌≡◌, arith, inl, inr, Option-cases,
}
use mackerel_agent.Metrics.{Values}
use mackerel_agent.Metrics.Disk.{Float, is_posted, add_rates}

module _ {F : Type 0} (float : Float F) where
  -- The rate of a counter that is sent, if it was there before and after.
  abbrev pub rate_of : Bool → Option F → Option F → Option F
  rate_of false prev now = none
  rate_of true none now = none
  rate_of true (some prev) none = none
  rate_of true (some prev) (some now) = some (float.rate now prev)

  -- Of the counters that were read before and after the interval, exactly those of reads and writes
  -- are sent, each with its rate.
  pub add_rates_lem :
      (name : String) (curr prev ret : Values F)
      → IsMap prev
      → lookup (append name ".delta") (add_rates float curr ret prev)
        ≡ or_else
            (rate_of (is_posted name) (lookup name prev) (lookup name curr))
            (lookup (append name ".delta") ret)
  unfolding add_rates lookup
  add_rates_lem name curr [] ret m = ground arith
  add_rates_lem name curr ((j, v) ∷ prev) ret m = elim (Option-cases (lookup j curr)) [
    | inl n ↦ ground (arith, add_rates_lem name curr prev ret m.1, eq_iff j name)
    | inr (now, e) ↦
        let put = insert (append j ".delta") (float.rate now v) ret in
        ground (
          arith,
          add_rates_lem name curr prev put m.1,
          add_rates_lem name curr prev ret m.1,
          eq_iff j name,
          str_eq-append_right j name ".delta",
          lookup-insert (append j ".delta") (append name ".delta") (float.rate now v) ret,
        )
  ]
