-- ===== src/Agent/Collect.antt =====
-- The collected values do not depend on the order in which the generators end (agent/generator.go).
use mathlib.Core.List.{Permᴰ}
use mathlib.Core.List.Permᴰ
use mackerel_agent.Prelude.{
  ℕ, ◌≤◌, String, IsMap, lookup, or_else, ◌≡◌, refl, ap, ◌∙◌, Option, none, some, List, [], ◌∷◌,
  ◌++◌, arith, All, total, if◌then◌else◌,
}
use mackerel_agent.Metrics.{
  ValuesCustomIdentifier, merge_values_custom_identifiers, same_identifier,
}
use mackerel_agent.Metrics.Merge.{lookup_metric, lookup_metric-merge, IsIndexed, merge-IsIndexed}
use mackerel_agent.Agent.{
  Generated, generated, failed, panicked, processed, Job, merge_arrivals, generate_values, arrivals,
}

module _ {F : Type 0} where
  abbrev pub HoldMaps : List (ValuesCustomIdentifier F) → Type 0
  HoldMaps vs = All (λ v. IsMap v.values) vs

  merge_arrivals-IsIndexed :
      (all_values vs : List (ValuesCustomIdentifier F))
      → IsIndexed all_values
      → HoldMaps vs
      → IsIndexed (merge_arrivals all_values vs)
  unfolding merge_arrivals
  merge_arrivals-IsIndexed all_values [] h m = h
  merge_arrivals-IsIndexed all_values (v ∷ vs) h m =
      merge_arrivals-IsIndexed (merge_values_custom_identifiers all_values v) vs
        (merge-IsIndexed all_values v h m.0) m.1

  module _ (c : Option String) (k : String) where
    -- The value that one arrival gives to the metric, if it does.
    abbrev pub provided : ValuesCustomIdentifier F → Option F
    provided v = if same_identifier v.custom_identifier c then lookup k v.values else none

    -- The value of the last arrival that gives one.
    unfoldable pub newest : List (ValuesCustomIdentifier F) → Option F
    newest [] = none
    newest (v ∷ vs) = or_else (newest vs) (provided v)

    abbrev pub one_if_provided : ValuesCustomIdentifier F → ℕ
    one_if_provided v = elim (provided v) [ none ↦ 0 | some x ↦ 1 ]

    -- How many arrivals give the metric a value.
    abbrev pub providers : List (ValuesCustomIdentifier F) → ℕ
    providers vs = total one_if_provided vs

    lookup-merge_arrivals :
        (all_values vs : List (ValuesCustomIdentifier F))
        → HoldMaps vs
        → lookup_metric c k (merge_arrivals all_values vs)
          ≡ or_else (newest vs) (lookup_metric c k all_values)
    unfolding merge_arrivals newest
    lookup-merge_arrivals all_values [] m = refl
    lookup-merge_arrivals all_values (v ∷ vs) m = ground (
      arith,
      lookup-merge_arrivals (merge_values_custom_identifiers all_values v) vs m.1,
      lookup_metric-merge c k all_values v m.0,
    )

    providers-perm :
        {vs us : List (ValuesCustomIdentifier F)} → Permᴰ vs us → providers vs ≡ providers us
    providers-perm Permᴰ.nil = refl
    providers-perm (Permᴰ.cons e p) = omega (arith, ap one_if_provided e, providers-perm p)
    providers-perm (Permᴰ.swap e f) = omega (arith, ap one_if_provided e, ap one_if_provided f)
    providers-perm (Permᴰ.trans p q) = providers-perm p ∙ providers-perm q

    newest-perm :
        {vs us : List (ValuesCustomIdentifier F)}
        → Permᴰ vs us
        → providers vs ≤ 1
        → newest vs ≡ newest us
    unfolding newest
    newest-perm Permᴰ.nil h = refl
    newest-perm (Permᴰ.cons {l₁ = vs} {l₂ = us} e p) h =
        cc (ap provided e, newest-perm p (omega arith))
    newest-perm (Permᴰ.swap e f) h = ground (arith, ap provided e, ap provided f)
    newest-perm (Permᴰ.trans p q) h =
        newest-perm p h ∙ newest-perm q (omega (arith, providers-perm p))

  processed-prepend :
      (r : Generated F) (p : Option (Option String)) {vs us : List (ValuesCustomIdentifier F)}
      → Permᴰ vs us
      → let j : Job F = record { result = r; plugin = p } in
        Permᴰ (processed j ++ vs) (processed j ++ us)
  unfolding processed
  processed-prepend (generated values) p q = Permᴰ.cons refl q
  processed-prepend failed p q = q
  processed-prepend panicked p q = q

  processed-swap :
      (r r' : Generated F) (p p' : Option (Option String)) (vs : List (ValuesCustomIdentifier F))
      → let j : Job F = record { result = r; plugin = p } in
        let j' : Job F = record { result = r'; plugin = p' } in
        Permᴰ (processed j ++ (processed j' ++ vs)) (processed j' ++ (processed j ++ vs))
  unfolding processed
  processed-swap (generated values) (generated values') p p' vs = Permᴰ.swap refl refl
  processed-swap (generated values) failed p p' vs = Permᴰ.refl _
  processed-swap (generated values) panicked p p' vs = Permᴰ.refl _
  processed-swap failed r' p p' vs = Permᴰ.refl _
  processed-swap panicked r' p p' vs = Permᴰ.refl _

  arrivals-perm : {js ks : List (Job F)} → Permᴰ js ks → Permᴰ (arrivals js) (arrivals ks)
  unfolding arrivals
  arrivals-perm Permᴰ.nil = Permᴰ.nil
  arrivals-perm (Permᴰ.cons {a = j} e p) =
      rw (← e) (processed-prepend j.result j.plugin (arrivals-perm p))
  arrivals-perm (Permᴰ.swap {a = i} {b = j} {l = js} e f) =
      rw (← e, ← f) (processed-swap i.result j.result i.plugin j.plugin (arrivals js))
  arrivals-perm (Permᴰ.trans p q) = Permᴰ.trans (arrivals-perm p) (arrivals-perm q)

  -- The collected values have one entry for each custom identifier.
  pub generate_values-IsIndexed :
      (jobs : List (Job F)) → HoldMaps (arrivals jobs) → IsIndexed (generate_values jobs)
  unfolding generate_values
  generate_values-IsIndexed jobs m = merge_arrivals-IsIndexed [] (arrivals jobs) tt m

  -- Each metric of each host has the value that arrived last for it.
  pub generate_values-newest :
      (c : Option String) (k : String) (jobs : List (Job F))
      → HoldMaps (arrivals jobs)
      → lookup_metric c k (generate_values jobs) ≡ newest c k (arrivals jobs)
  unfolding generate_values lookup_metric
  generate_values-newest c k jobs m = ground (arith, lookup-merge_arrivals c k [] (arrivals jobs) m)

  -- A metric that at most one generator gives has the same value in whichever order the generators
  -- end.
  pub generate_values-order :
      (c : Option String) (k : String) (jobs others : List (Job F))
      → Permᴰ jobs others
      → providers c k (arrivals jobs) ≤ 1
      → HoldMaps (arrivals jobs)
      → HoldMaps (arrivals others)
      → lookup_metric c k (generate_values jobs) ≡ lookup_metric c k (generate_values others)
  generate_values-order c k jobs others p one m n = cc (
    generate_values-newest c k jobs m,
    generate_values-newest c k others n,
    newest-perm c k (arrivals-perm p) one,
  )
