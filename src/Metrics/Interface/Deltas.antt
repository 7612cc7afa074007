-- ===== src/Metrics/Interface/Deltas.antt =====
-- What metrics/interface.go sends for the counters of an interface.
use mackerel_agent.Prelude.{
  str_eq-append_right, String, ℕ, ◌-◌, ◌^◌, ◌≤◌, ◌<◌, append, Bool, true, ◌&&◌, Option, none, some,
  [], ◌∷◌, Dict, insert, lookup, lookup-insert, IsMap, leb, eq_iff, code, if◌then◌else◌, ◌≡◌, refl,
  arith, inl, inr, Option-cases, Bool-cases, or_else, All,
}
use mackerel_agent.Metrics.{Values}
use mackerel_agent.Metrics.Interface.{is_key, sanitize_metric_key, Float, sub_uint64, add_deltas}

abbrev pub all_keys : String → Bool
all_keys String.[] = true
all_keys (String.◌∷◌ c s) = is_key (code c) && all_keys s

-- A sanitized name holds only letters, digits, underscores and hyphens, and a name that holds only
-- those is left as it is.
pub sanitize_metric_key_lem :
    (s : String)
    → (all_keys (sanitize_metric_key s) ≡ true)
      × (sanitize_metric_key (sanitize_metric_key s) ≡ sanitize_metric_key s)
unfolding sanitize_metric_key
sanitize_metric_key_lem String.[] = (refl, refl)
sanitize_metric_key_lem (String.◌∷◌ c s) =
    let (keys, twice) = sanitize_metric_key_lem s in
    elim (Bool-cases (is_key (code c))) [
      | inl k ↦ (ground arith, ground arith)
      | inr k ↦ (ground arith, ground arith)
    ]

sub_uint64_fits : (a b : ℕ) → a < 2 ^ 64 → b ≤ a → sub_uint64 a b ≡ a - b
unfolding sub_uint64
sub_uint64_fits a b h l = omega arith

module _ {F : Type 0} (float : Float F) where
  -- The value that a counter gets: none if it was not there before and after, or went back.
  abbrev pub delta : Option ℕ → Option ℕ → Option F
  delta none now = none
  delta (some prev) none = none
  delta (some prev) (some now) =
      if leb prev now then some (float.per_second (float.of_uint64 (now - prev))) else none

  abbrev pub AllFit : Dict ℕ → Type 0
  AllFit m = All (λ e. e.1 < 2 ^ 64) m

  lookup-AllFit : (k : String) (v : ℕ) (m : Dict ℕ) → AllFit m → lookup k m ≡ some v → v < 2 ^ 64
  unfolding lookup
  lookup-AllFit k v [] a h = ground arith
  lookup-AllFit k v ((j, w) ∷ m) a h = ground (arith, lookup-AllFit k v m a.1)

  -- For counters of 64 bits: the metric of a counter is its growth per second if it was read before
  -- and after the interval and has not gone back, and otherwise there is none; the difference of
  -- the unsigned numbers never wraps around.
  pub add_deltas_lem :
      (name : String) (curr prev : Dict ℕ) (ret : Values F)
      → AllFit curr
      → IsMap prev
      → lookup (append name ".delta") (add_deltas float curr ret prev)
        ≡ or_else (delta (lookup name prev) (lookup name curr)) (lookup (append name ".delta") ret)
  unfolding add_deltas lookup
  add_deltas_lem name curr [] ret a m = refl
  add_deltas_lem name curr ((j, v) ∷ prev) ret a m = elim (Option-cases (lookup j curr)) [
    | inl n ↦ ground (arith, add_deltas_lem name curr prev ret a m.1, eq_iff j name)
    | inr (now, e) ↦
        let put =
          insert (append j ".delta") (float.per_second (float.of_uint64 (sub_uint64 now v))) ret in
        ground (
          arith,
          add_deltas_lem name curr prev put a m.1,
          add_deltas_lem name curr prev ret a m.1,
          eq_iff j name,
          str_eq-append_right j name ".delta",
          sub_uint64_fits now v (lookup-AllFit j now curr a e),
          lookup-insert (append j ".delta") (append name ".delta")
              (float.per_second (float.of_uint64 (sub_uint64 now v))) ret,
        )
  ]
