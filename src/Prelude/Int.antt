-- ===== src/Prelude/Int.antt =====
-- Signed integers over the native numbers, and the wrap-around of an int64.
use Prim.Native.Nat.{ℕ, suc, ◌+◌, ◌-◌, ◌*◌, ◌%◌, ◌≤◌, ◌<◌}
use mathlib.Core.Path.{◌≡◌}
use mathlib.Core.Bool.{Bool}
use native.Mathlib.Omega.{arith}
use mackerel_agent.Prelude.Tests.{ltb, leb, if◌then◌else◌}

-- `negsuc n` is -(n + 1).
pub data ℤ : Type 0 where
  pos : ℕ → ℤ
  negsuc : ℕ → ℤ

abbrev pub pos_part : ℤ → ℕ
pos_part (pos n) = n
pos_part (negsuc n) = 0

abbrev pub neg_part : ℤ → ℕ
neg_part (pos n) = 0
neg_part (negsuc n) = suc n

abbrev pub ltb_ℤ : ℤ → ℤ → Bool
ltb_ℤ a b = ltb (pos_part a + neg_part b) (pos_part b + neg_part a)

abbrev pub ◌≤ℤ◌ : ℤ → ℤ → Type 0
a ≤ℤ b = pos_part a + neg_part b ≤ pos_part b + neg_part a

infix 50 ◌≤ℤ◌
-- The integer of the 64-bit pattern `m`.
abbrev pub of_bits : ℕ → ℤ
of_bits m = if ltb m 9223372036854775808 then pos m else negsuc (18446744073709551615 - m)

-- What an int64 holds after an operation whose exact result is the argument.
unfoldable pub wrap_int64 : ℤ → ℤ
wrap_int64 (pos n) = of_bits (n % 18446744073709551616)
wrap_int64 (negsuc n) = of_bits (18446744073709551615 - n % 18446744073709551616)

-- A product with a number.
abbrev pub scale : ℤ → ℕ → ℤ
scale (pos n) k = pos (n * k)
scale (negsuc n) k = if leb (suc n * k) 0 then pos 0 else negsuc (suc n * k - 1)

-- A value that an int64 can hold stays as it is.
pub wrap_int64-fits :
    (a : ℤ) → pos_part a < 9223372036854775808 → neg_part a ≤ 9223372036854775808 → wrap_int64 a ≡ a
unfolding wrap_int64
wrap_int64-fits (pos n) p q = ground arith
wrap_int64-fits (negsuc n) p q = ground arith
