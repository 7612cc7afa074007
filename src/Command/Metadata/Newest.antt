-- ===== src/Command/Metadata/Newest.antt =====
-- Which results `runMetadataLoop` of command/metadata.go posts: of each namespace the newest.
use mackerel_agent.Prelude.{
  String, ◌≤◌, Option, none, some, List, [], ◌∷◌, Dict, lookup, ltb, str_eq, if◌then◌else◌, ◌≡◌,
  ◌⊎◌, ◌&&◌, Bool-cases, refl, arith, lookup-insert, lookup-nil, eq_iff, inl, inr,
}
use mathlib.Core.List.{Memᴰ}
use mackerel_agent.Command.Metadata.{MetadataResult, prefer_new, consume_results}

module _ {J : Type 0} where
  -- The newest of the results of a namespace, the first of those of the same time.
  abbrev pub newer : Option (MetadataResult J) → MetadataResult J → Option (MetadataResult J)
  newer none r = some r
  newer (some prev) r = if ltb prev.created_at r.created_at then some r else some prev

  abbrev pub newest :
      String → Option (MetadataResult J) → List (MetadataResult J) → Option (MetadataResult J)
  newest n best [] = best
  newest n best (r ∷ rs) = newest n (if str_eq r.namespace n then newer best r else best) rs

  lookup-prefer_new :
      (n : String) (results : Dict (MetadataResult J)) (r : MetadataResult J)
      → lookup n (prefer_new results r)
        ≡ (if str_eq r.namespace n then newer (lookup n results) r else lookup n results)
  unfolding prefer_new
  lookup-prefer_new n results r =
      ground (arith, lookup-insert r.namespace n r results, eq_iff r.namespace n)

  lookup-consume_results :
      (n : String) (rs : List (MetadataResult J)) (results : Dict (MetadataResult J))
      → lookup n (consume_results results rs) ≡ newest n (lookup n results) rs
  unfolding consume_results
  lookup-consume_results n [] results = refl
  lookup-consume_results n (r ∷ rs) results =
      ground
        (arith, lookup-consume_results n rs (prefer_new results r), lookup-prefer_new n results r)

  -- What an iteration makes of the best result so far.
  abbrev better : String → Option (MetadataResult J) → MetadataResult J → Option (MetadataResult J)
  better n best r = if str_eq r.namespace n then newer best r else best

  better-keeps :
      (n : String) (b r : MetadataResult J)
      → (c : MetadataResult J) × (better n (some b) r ≡ some c) × (b.created_at ≤ c.created_at)
  better-keeps n b r = elim (Bool-cases (str_eq r.namespace n && ltb b.created_at r.created_at)) [
    | inl t ↦ (r, ground arith, ground arith)
    | inr f ↦ (b, ground arith, omega arith)
  ]

  better-takes :
      (n : String) (best : Option (MetadataResult J)) (r : MetadataResult J)
      → r.namespace ≡ n
      → (c : MetadataResult J) × (better n best r ≡ some c) × (r.created_at ≤ c.created_at)
  better-takes n none r e = (r, ground (arith, eq_iff r.namespace n), omega arith)
  better-takes n (some b) r e = elim (Bool-cases (ltb b.created_at r.created_at)) [
    | inl t ↦ (r, ground (arith, eq_iff r.namespace n), omega arith)
    | inr f ↦ (b, ground (arith, eq_iff r.namespace n), ground arith)
  ]

  newest-grows :
      (n : String) (best : Option (MetadataResult J)) (b : MetadataResult J)
      (rs : List (MetadataResult J))
      → best ≡ some b
      → (r' : MetadataResult J) × (newest n best rs ≡ some r') × (b.created_at ≤ r'.created_at)
  newest-grows n best b [] e = (b, e, omega arith)
  newest-grows n best b (r ∷ rs) e =
      let (c, d, l) = better-keeps n b r in
      let (r', d', l') = newest-grows n (better n best r) c rs (cc) in (r', d', omega arith)

  newest-covers :
      (n : String) (best : Option (MetadataResult J)) (r : MetadataResult J)
      (rs : List (MetadataResult J))
      → Memᴰ r rs
      → r.namespace ≡ n
      → (r' : MetadataResult J) × (newest n best rs ≡ some r') × (r.created_at ≤ r'.created_at)
  newest-covers n best r [] h e = elim h [ ]
  newest-covers n best r (x ∷ rs) (Memᴰ.head h) e =
      let (c, d, l) = better-takes n best r e in
      let (r', d', l') = newest-grows n (better n best x) c rs (cc) in (r', d', omega arith)
  newest-covers n best r (x ∷ rs) (Memᴰ.tail h) e = newest-covers n (better n best x) r rs h e

  better-from :
      (n : String) (best : Option (MetadataResult J)) (r c : MetadataResult J)
      → better n best r ≡ some c
      → (best ≡ some c) ⊎ ((c ≡ r) × (c.namespace ≡ n))
  better-from n none r c e = ground (arith, eq_iff r.namespace n)
  better-from n (some b) r c e = ground (arith, eq_iff r.namespace n)

  newest-from :
      (n : String) (best : Option (MetadataResult J)) (r' : MetadataResult J)
      (rs : List (MetadataResult J))
      → newest n best rs ≡ some r'
      → (best ≡ some r') ⊎ (Memᴰ r' rs × (r'.namespace ≡ n))
  newest-from n best r' [] e = inl e
  newest-from n best r' (x ∷ rs) e = elim (newest-from n (better n best x) r' rs e) [
    | inr (h, d) ↦ inr (Memᴰ.tail h, d)
    | inl d ↦ elim (better-from n best x r' d) [
      | inl g ↦ inl g
      | inr (g, d') ↦ inr (Memᴰ.head g, d')
    ]
  ]

  -- For every result that waits, the round posts one result of its namespace: one of those that wait,
  -- and none of that namespace is newer.
  pub consume_results-newest :
      (rs : List (MetadataResult J)) (r : MetadataResult J)
      → Memᴰ r rs
      → (r' : MetadataResult J) × (lookup r.namespace (consume_results [] rs) ≡ some r')
        × Memᴰ r' rs
        × (r'.namespace ≡ r.namespace)
        × (r.created_at ≤ r'.created_at)
  consume_results-newest rs r h =
      let (r', e, l) = newest-covers r.namespace none r rs h refl in
      let eq = lookup-consume_results r.namespace rs [] in
      elim (newest-from r.namespace none r' rs e) [
        | inl g ↦ absurd (cc)
        | inr (m, d) ↦ (r', ground (arith, lookup-nil {V = MetadataResult J} r.namespace), m, d, l)
      ]
