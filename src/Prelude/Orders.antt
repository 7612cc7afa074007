-- ===== src/Prelude/Orders.antt =====
-- The orders in which a `range` may visit a map.
use mathlib.Core.List.{Permᴰ}
use mackerel_agent.Prelude.{
  String, ◌≡◌, refl, ◌∙◌, sym, List, ◌∷◌, Dict, lookup, IsMap, All, arith, eq_iff,
}

-- What is visited is what is there, each entry once.
abbrev pub IsOrder : {A : Type 0} → (List A → List A) → Type 0
IsOrder {A} visit = (xs : List A) → Permᴰ xs (visit xs)

pub All-perm {κ} :
    {A : Type 0} (P : A → Type κ) {xs ys : List A} → Permᴰ xs ys → All P xs → All P ys
All-perm P Permᴰ.nil h = tt
All-perm P (Permᴰ.cons e p) h = rw (← e) (h.0, All-perm P p h.1)
All-perm P (Permᴰ.swap e f) h = rw (← e, ← f) (h.1.0, (h.0, h.1.1))
All-perm P (Permᴰ.trans p q) h = All-perm P q (All-perm P p h)

module _ {V : Type 0} where
  cons-lookup :
      (c : String) (e : String × V) (m n : Dict V)
      → lookup c m ≡ lookup c n
      → lookup c (e ∷ m) ≡ lookup c (e ∷ n)
  unfolding lookup
  cons-lookup c (k, x) m n h = ground arith

  swap-lookup :
      (c : String) (d e : String × V) (m : Dict V)
      → IsMap (d ∷ e ∷ m)
      → lookup c (d ∷ e ∷ m) ≡ lookup c (e ∷ d ∷ m)
  unfolding lookup
  swap-lookup c (j, x) (k, y) m h =
      ground (arith, h.0, eq_iff j k, eq_iff k j, eq_iff j c, eq_iff k c)

  swap-IsMap : (d e : String × V) (m : Dict V) → IsMap (d ∷ e ∷ m) → IsMap (e ∷ d ∷ m)
  unfolding lookup
  swap-IsMap (j, x) (k, y) m h =
      (ground (arith, h.0, h.1.0, eq_iff j k, eq_iff k j), (ground (arith, h.0), h.1.1))

  -- A map in another order is a map, with the same entries.
  pub lookup-perm :
      {m n : Dict V} → Permᴰ m n → IsMap m → ((c : String) → lookup c m ≡ lookup c n) × IsMap n
  lookup-perm Permᴰ.nil h = (λ c. refl, tt)
  lookup-perm (Permᴰ.cons {a = (k, x)} {l₁ = m} {l₂ = n} e p) h =
      let (same, map) = lookup-perm p h.1 in
      rw (← e) (λ c. cons-lookup c (k, x) m n (same c), (sym (same k) ∙ h.0, map))
  lookup-perm (Permᴰ.swap {a = d} {b = g} {l = m} e f) h =
      rw (← e, ← f) (λ c. swap-lookup c d g m h, swap-IsMap d g m h)
  lookup-perm (Permᴰ.trans p q) h =
      let (same, map) = lookup-perm p h in
      let (same', map') = lookup-perm q map in (λ c. same c ∙ same' c, map')
