-- ===== src/Util/Filesystem/Printed.antt =====
-- The printed columns of a line of df, and how they are read again (util/filesystem.go).
use mackerel_agent.Prelude.{
  String, ℕ, zero, suc, ◌/◌, ◌%◌, ◌≤◌, ◌<◌, ◌≡◌, refl, Bool, true, false, ◌||◌, some, Char, code,
  ltb, arith, inl, inr, Bool-cases, ◌⊎◌, digit, print, code-digit,
}
use mackerel_agent.Util.Filesystem.{
  is_df_blank, is_digit, span, blanks, number, column, uint_digits, parse_uint,
}

-- A text after some spaces.
abbrev pub pad : ℕ → String → String
pad zero s = s
pad (suc n) s = String.◌∷◌ " " (pad n s)

-- The first character is none of those that a test takes.
abbrev pub starts : (ℕ → Bool) → String → Bool
starts test String.[] = false
starts test (String.◌∷◌ c s) = test (code c)

abbrev pub has_blank : String → Bool
has_blank String.[] = false
has_blank (String.◌∷◌ c s) = is_df_blank (code c) || has_blank s

pub span-none :
    (test : ℕ → Bool) (s : String) → starts test s ≡ false → span test s ≡ (String.[], s)
unfolding span
span-none test String.[] h = refl
span-none test (String.◌∷◌ c s) h = ground arith

pub span-pad :
    (n : ℕ) (s : String) → starts is_df_blank s ≡ false → span is_df_blank (pad n s) ≡ (pad n "", s)
unfolding span is_df_blank
span-pad zero s h = span-none is_df_blank s h
span-pad (suc n) s h = ground (arith, span-pad n s h)

pub blanks-pad :
    (n : ℕ) (s : String) → starts is_df_blank s ≡ false → blanks (pad (suc n) s) ≡ some s
unfolding blanks
blanks-pad n s h = ground (arith, span-pad (suc n) s h)

is_digit-digit : (d : ℕ) → d < 10 → is_digit (code (digit d)) ≡ true
unfolding is_digit
is_digit-digit d h = ground (arith, code-digit d h)

pub span-print :
    (k n : ℕ) (s front rest : String)
    → n < k
    → span is_digit s ≡ (front, rest)
    → span is_digit (print k n s) ≡ (print k n front, rest)
unfolding span print
span-print zero n s front rest h e = absurd (omega arith)
span-print (suc k) n s front rest h e = elim (Bool-cases (ltb n 10)) [
  | inl small ↦ ground (arith, is_digit-digit n)
  | inr large ↦ ground (
    arith,
    is_digit-digit (n % 10),
    span-print k (n / 10) (String.◌∷◌ (digit (n % 10)) s) (String.◌∷◌ (digit (n % 10)) front) rest,
  )
]

-- A printed number begins with a digit, and with another than 0 if it is not 0.
pub first-print :
    (k n : ℕ) (s : String)
    → n < k
    → (c : Char) × (rest : String) × (print k n s ≡ String.◌∷◌ c rest)
      × (is_digit (code c) ≡ true)
      × ((n ≡ 0) ⊎ (b'0' < code c))
unfolding print
first-print zero n s h = absurd (omega arith)
first-print (suc k) n s h = elim (Bool-cases (ltb n 10)) [
  | inl small ↦
      (digit n, s, ground arith, is_digit-digit n (ground arith), ground (arith, code-digit n))
  | inr large ↦
      let (c, rest, e, d, l) =
        first-print k (n / 10) (String.◌∷◌ (digit (n % 10)) s) (ground arith) in
      (c, rest, ground arith, d, ground arith)
]

uint_digits-print :
    (limit k n : ℕ) (s : String)
    → n < k
    → n ≤ limit
    → uint_digits 10 limit 0 (print k n s) ≡ uint_digits 10 limit n s
unfolding uint_digits print
uint_digits-print limit zero n s h l = absurd (omega arith)
uint_digits-print limit (suc k) n s h l = elim (Bool-cases (ltb n 10)) [
  | inl small ↦ ground (arith, code-digit n)
  | inr large ↦ ground (
    arith,
    code-digit (n % 10),
    uint_digits-print limit k (n / 10) (String.◌∷◌ (digit (n % 10)) s),
  )
]

pub parse_uint-print : (limit n : ℕ) → n ≤ limit → parse_uint limit (print (suc n) n "") ≡ n
unfolding parse_uint uint_digits print digit
parse_uint-print limit zero h = refl
parse_uint-print limit (suc n) h =
    let (c, rest, e, d, l) = first-print (suc (suc n)) (suc n) "" (omega arith) in
    let u = uint_digits-print limit (suc (suc n)) (suc n) "" (omega arith) h in
    elim l [ inl zero_n ↦ absurd (omega arith) | inr large ↦ ground (arith, e, u) ]

pub column-print :
    (w n : ℕ) (s : String)
    → starts is_digit s ≡ false
    → column (pad (suc w) (print (suc n) n s)) ≡ some (print (suc n) n "", s)
unfolding column number is_digit is_df_blank
column-print w n s h =
    let (c, rest, e, d, l) = first-print (suc n) n s (omega arith) in
    let (c', rest', e', d', l') = first-print (suc n) n "" (omega arith) in
    ground
      (arith, blanks-pad w (print (suc n) n s), span-none is_digit s h, span-print (suc n) n s "" s)
