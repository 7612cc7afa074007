-- ===== src/Prelude/Maps.antt =====
-- Go's `map[string]V` as an association list. The order of the entries is the order in which a
-- `range` over the map visits them, which Go leaves open: a theorem for every list is one for
-- every order.
use Prim.Native.String.{String}
use mathlib.Core.Path.{◌≡◌, refl}
use mathlib.Core.Option.{Option, none, some}
use mathlib.Core.List.{List, [], ◌∷◌}
use native.Mathlib.Omega.{arith}
use text.Mathlib.Text.{◌==◌}
use text.Mathlib.TextEquality.{eq_iff}
use mackerel_agent.Prelude.Tests.{if◌then◌else◌}

abbrev pub Dict {ℓ} : Type ℓ → Type ℓ
Dict V = List (String × V)

module _ {ℓ} {V : Type ℓ} where
  -- v, ok := m[k]
  unfoldable pub lookup : String → Dict V → Option V
  lookup name [] = none
  lookup name ((key, value) ∷ rest) = if key == name then some value else lookup name rest

  -- m[k] = v
  unfoldable pub insert : String → V → Dict V → Dict V
  insert name new [] = (name, new) ∷ []
  insert name new ((key, value) ∷ rest) =
      let below = insert name new rest in
      if key == name then (name, new) ∷ rest else (key, value) ∷ below

  -- delete(m, k)
  unfoldable pub erase : String → Dict V → Dict V
  erase k [] = []
  erase k ((j, w) ∷ m) = let rest = erase k m in if j == k then rest else (j, w) ∷ rest

  pub lookup-nil : (k : String) → lookup k [] ≡ none
  unfolding lookup
  lookup-nil k = refl

  pub lookup-cons :
      (k j : String) (v : V) (m : Dict V)
      → lookup k ((j, v) ∷ m) ≡ (if j == k then some v else lookup k m)
  unfolding lookup
  lookup-cons k j v m = refl

  pub lookup-insert :
      (name other : String) (new : V) (m : Dict V)
      → lookup other (insert name new m) ≡ (if name == other then some new else lookup other m)
  unfolding insert lookup
  lookup-insert name other new [] = refl
  lookup-insert name other new ((key, value) ∷ rest) = ground (
    arith,
    lookup-insert name other new rest,
    eq_iff key name,
    eq_iff key other,
    eq_iff name other,
  )

  pub lookup-erase :
      (k j : String) (m : Dict V) → lookup j (erase k m) ≡ (if k == j then none else lookup j m)
  unfolding lookup erase
  lookup-erase k j [] = ground arith
  lookup-erase k j ((i, w) ∷ m) =
      ground (arith, eq_iff k j, eq_iff i k, eq_iff i j, lookup-erase k j m)

-- The first of two results that is there.
abbrev pub or_else {ℓ} : {A : Type ℓ} → Option A → Option A → Option A
or_else none b = b
or_else (some a) b = some a

module _ {ℓ} {V : Type ℓ} where
  -- Each key has one entry, as in a Go map.
  abbrev pub IsMap : Dict V → Type ℓ
  IsMap [] = Unit
  IsMap ((k, v) ∷ m) = (lookup k m ≡ none) × IsMap m

  pub IsMap-insert : (k : String) (v : V) (m : Dict V) → IsMap m → IsMap (insert k v m)
  unfolding insert lookup
  IsMap-insert k v [] h = (refl, tt)
  IsMap-insert k v ((j, w) ∷ m) h =
      ground (arith, eq_iff j k, eq_iff k j, lookup-insert k j v m, IsMap-insert k v m h.1)

  -- for k, v := range new { m[k] = v }
  unfoldable pub insert_all : Dict V → Dict V → Dict V
  insert_all m [] = m
  insert_all m ((k, v) ∷ new) = insert_all (insert k v m) new

  pub lookup-insert_all :
      (j : String) (m new : Dict V)
      → IsMap new
      → lookup j (insert_all m new) ≡ or_else (lookup j new) (lookup j m)
  unfolding insert_all lookup
  lookup-insert_all j m [] h = refl
  lookup-insert_all j m ((k, v) ∷ new) h =
      ground (arith, lookup-insert_all j (insert k v m) new h.1, lookup-insert k j v m, eq_iff k j)

  pub IsMap-insert_all : (m new : Dict V) → IsMap m → IsMap (insert_all m new)
  unfolding insert_all
  IsMap-insert_all m [] h = h
  IsMap-insert_all m ((k, v) ∷ new) h = IsMap-insert_all (insert k v m) new (IsMap-insert k v m h)

  lookup-erase-none : (k j : String) (m : Dict V) → lookup j m ≡ none → lookup j (erase k m) ≡ none
  lookup-erase-none k j m h = ground (arith, lookup-erase k j m)

  pub IsMap-erase : (k : String) (m : Dict V) → IsMap m → IsMap (erase k m)
  unfolding erase
  IsMap-erase k [] h = tt
  IsMap-erase k ((j, w) ∷ m) h = ground (arith, lookup-erase-none k j m h.0, IsMap-erase k m h.1)
