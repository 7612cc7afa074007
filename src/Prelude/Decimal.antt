-- ===== src/Prelude/Decimal.antt =====
-- Numbers as decimal texts: fmt's verb %d for a number that is not negative.
use Prim.Native.Nat.{ℕ, zero, suc, ◌+◌, ◌/◌, ◌%◌, ◌≤◌, ◌<◌}
use Prim.Native.Char.{Char, code}
use Prim.Native.String.{String}
use mathlib.Core.Path.{◌≡◌, refl}
use mathlib.Core.Logic.{inl, inr}
use native.Mathlib.Omega.{arith}
use mackerel_agent.Prelude.Tests.{◌==◌, ltb, Bool-cases, if◌then◌else◌}

-- The digit of a number below ten.
unfoldable pub digit : ℕ → Char
digit zero = "0"
digit (suc zero) = "1"
digit (suc (suc zero)) = "2"
digit (suc (suc (suc zero))) = "3"
digit (suc (suc (suc (suc zero)))) = "4"
digit (suc (suc (suc (suc (suc zero))))) = "5"
digit (suc (suc (suc (suc (suc (suc zero)))))) = "6"
digit (suc (suc (suc (suc (suc (suc (suc zero))))))) = "7"
digit (suc (suc (suc (suc (suc (suc (suc (suc zero)))))))) = "8"
digit _ = "9"

-- The hexadecimal digit of a number below sixteen.
unfoldable pub hex_digit : ℕ → Char
unfolding digit
hex_digit n =
    if ltb n 10
    then digit n
    else if n == 10
    then "a"
    else if n == 11
    then "b"
    else if n == 12
    then "c"
    else if n == 13
    then "d"
    else if n == 14
    then "e"
    else "f"

-- The digits of `n` before a text, by at most as many divisions as the first argument says.
unfoldable pub print : ℕ → ℕ → String → String
unfolding digit
print zero n s = s
print (suc k) n s =
    let more = print k (n / 10) (String.◌∷◌ (digit (n % 10)) s) in
    if ltb n 10 then String.◌∷◌ (digit n) s else more

-- fmt.Sprintf("%d", n)
unfoldable pub print_decimal : ℕ → String
unfolding print
print_decimal n = print (suc n) n ""

pub code-digit : (d : ℕ) → d < 10 → code (digit d) ≡ b'0' + d
unfolding digit
code-digit zero h = refl
code-digit (suc zero) h = refl
code-digit (suc (suc zero)) h = refl
code-digit (suc (suc (suc zero))) h = refl
code-digit (suc (suc (suc (suc zero)))) h = refl
code-digit (suc (suc (suc (suc (suc zero))))) h = refl
code-digit (suc (suc (suc (suc (suc (suc zero)))))) h = refl
code-digit (suc (suc (suc (suc (suc (suc (suc zero))))))) h = refl
code-digit (suc (suc (suc (suc (suc (suc (suc (suc zero)))))))) h = refl
code-digit (suc (suc (suc (suc (suc (suc (suc (suc (suc zero))))))))) h = refl
code-digit (suc (suc (suc (suc (suc (suc (suc (suc (suc (suc n)))))))))) h = absurd (omega arith)

-- A printed number begins with a digit.
pub print-first :
    (k n : ℕ) (s : String)
    → n < k
    → (c : Char) × (rest : String) × (print k n s ≡ String.◌∷◌ c rest) × (b'0' ≤ code c)
unfolding print
print-first zero n s h = absurd (omega arith)
print-first (suc k) n s h = elim (Bool-cases (ltb n 10)) [
  | inl small ↦ (digit n, s, ground arith, ground (arith, code-digit n))
  | inr large ↦
      let (c, rest, e, l) = print-first k (n / 10) (String.◌∷◌ (digit (n % 10)) s) (ground arith) in
      (c, rest, ground arith, l)
]
