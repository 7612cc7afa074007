-- ===== src/Metrics/Merge.antt =====
-- What merging the values of generators keeps (metrics/metrics.go): one entry for each custom
-- identifier, and for each metric the value that came last.
use mackerel_agent.Prelude.{
  String, IsMap, lookup, lookup-insert_all, IsMap-insert_all, or_else, ◌≡◌, refl, true, false,
  Option, none, some, List, [], ◌∷◌, eq_iff, arith, All, if◌then◌else◌,
}
use mackerel_agent.Metrics.{
  ValuesCustomIdentifier, same_identifier, merge_values_custom_identifiers,
}

same_identifier_sym : (a b : Option String) → same_identifier a b ≡ same_identifier b a
unfolding same_identifier
same_identifier_sym none none = refl
same_identifier_sym none (some b) = refl
same_identifier_sym (some a) none = refl
same_identifier_sym (some a) (some b) = ground (arith, eq_iff a b, eq_iff b a)

pub same_identifier_trans :
    (a b c : Option String) → same_identifier a b ≡ true → same_identifier a c ≡ same_identifier b c
unfolding same_identifier
same_identifier_trans none none c h = refl
same_identifier_trans none (some b) c h = cc
same_identifier_trans (some a) none c h = cc
same_identifier_trans (some a) (some b) none h = refl
same_identifier_trans (some a) (some b) (some c) h =
    ground (arith, eq_iff a b, eq_iff a c, eq_iff b c)

module _ {F : Type 0} where
  -- No two entries have the same custom identifier, and each holds a map.
  abbrev pub IsIndexed : List (ValuesCustomIdentifier F) → Type 0
  IsIndexed [] = Unit
  IsIndexed (v ∷ vs) =
      IsMap v.values
      × All (λ u. same_identifier v.custom_identifier u.custom_identifier ≡ false) vs
      × IsIndexed vs

  -- The value of a metric of the host with the given custom identifier.
  unfoldable pub lookup_metric : Option String → String → List (ValuesCustomIdentifier F) → Option F
  lookup_metric c k [] = none
  lookup_metric c k (v ∷ vs) =
      if same_identifier v.custom_identifier c then lookup k v.values else lookup_metric c k vs

  apart-merge :
      (c : Option String) (vs : List (ValuesCustomIdentifier F)) (n : ValuesCustomIdentifier F)
      → same_identifier c n.custom_identifier ≡ false
      → All (λ u. same_identifier c u.custom_identifier ≡ false) vs
      → All
          (λ u. same_identifier c u.custom_identifier ≡ false)
          (merge_values_custom_identifiers vs n)
  unfolding merge_values_custom_identifiers
  apart-merge c [] n h all = (h, tt)
  apart-merge c (v ∷ vs) n h all = ground (arith, apart-merge c vs n h all.1)

  -- Merging keeps one entry for each custom identifier.
  pub merge-IsIndexed :
      (vs : List (ValuesCustomIdentifier F)) (n : ValuesCustomIdentifier F)
      → IsIndexed vs
      → IsMap n.values
      → IsIndexed (merge_values_custom_identifiers vs n)
  unfolding merge_values_custom_identifiers
  merge-IsIndexed [] n h m = (m, tt, tt)
  merge-IsIndexed (v ∷ vs) n h m = ground (
    arith,
    apart-merge v.custom_identifier vs n,
    merge-IsIndexed vs n h.2 m,
    IsMap-insert_all v.values n.values h.0,
  )

  -- After a merge a metric has its new value if there is one for its host, else the value it had.
  pub lookup_metric-merge :
      (c : Option String) (k : String) (vs : List (ValuesCustomIdentifier F))
      (n : ValuesCustomIdentifier F)
      → IsMap n.values
      → lookup_metric c k (merge_values_custom_identifiers vs n) ≡ (
          if same_identifier n.custom_identifier c
          then or_else (lookup k n.values) (lookup_metric c k vs)
          else lookup_metric c k vs)
  unfolding merge_values_custom_identifiers lookup_metric
  lookup_metric-merge c k [] n m = ground arith
  lookup_metric-merge c k (v ∷ vs) n m = ground (
    arith,
    lookup_metric-merge c k vs n m,
    lookup-insert_all k v.values n.values m,
    same_identifier_trans v.custom_identifier n.custom_identifier c,
    same_identifier_trans n.custom_identifier c v.custom_identifier,
    same_identifier_sym v.custom_identifier n.custom_identifier,
    same_identifier_sym v.custom_identifier c,
  )
