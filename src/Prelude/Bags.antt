-- ===== src/Prelude/Bags.antt =====
-- Collections without an order: lists, up to the order of their items.
use Prim.Native.Nat.{ℕ, ◌+◌}
use mathlib.Core.Path.{◌≡◌}
use mathlib.Core.List.{List, ◌++◌}
use mathlib.Core.Quot
use mathlib.Core.Quot.{Quot, Quot-set}
use native.Mathlib.Nat.{ℕ_set}
use native.Mathlib.Omega.{arith}
use mackerel_agent.Prelude.Lists.{total, total-append}

-- Two lists agree on the sum of every weight, so they hold the same items, as often.
abbrev pub SameItems {ℓ} : {A : Type ℓ} → List A → List A → Type ℓ
SameItems {A = A} xs ys = (w : A → ℕ) → total w xs ≡ total w ys

abbrev pub Bag {ℓ} : Type ℓ → Type ℓ
Bag A = Quot (SameItems {A = A})

module _ {ℓ} {A : Type ℓ} where
  abbrev pub to_bag : List A → Bag A
  to_bag xs = Quot.mk xs

  pub to_bag-same : (xs ys : List A) → SameItems xs ys → to_bag xs ≡ to_bag ys
  to_bag-same xs ys h = Quot.sound h

  -- The items of a list, and those of a bag.
  unfoldable pub add_items : List A → Bag A → Bag A
  add_items xs =
      Quot.lift Quot-set (λ ys. Quot.mk (xs ++ ys))
        (λ ys zs h.
          Quot.sound (λ w. omega (arith, h w, total-append w xs ys, total-append w xs zs)))

  -- The sum of a weight over a bag.
  unfoldable pub bag_total : (A → ℕ) → Bag A → ℕ
  bag_total w = Quot.lift ℕ_set (total w) (λ xs ys h. h w)

  pub bag_total-add_items :
      (w : A → ℕ) (xs : List A) (b : Bag A)
      → bag_total w (add_items xs b) ≡ total w xs + bag_total w b
  unfolding add_items bag_total
  bag_total-add_items w xs = Quot.ind (λ b. ℕ_set _ _) (λ ys. total-append w xs ys)
