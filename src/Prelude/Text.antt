-- ===== src/Prelude/Text.antt =====
-- Texts character by character. A Go string is taken as the text that it encodes.
use Prim.Native.Nat.{ℕ, zero, suc, ◌≤◌, min}
use Prim.Native.Char.{code}
use Prim.Native.String.{String, ◌++◌}
use mathlib.Core.Path.{◌≡◌, refl, ap}
use mathlib.Core.Bool.{Bool, true, false, ◌&&◌, ◌||◌}
use mathlib.Core.Option.{Option, none, some}
use native.Mathlib.Omega.{arith}
use text.Mathlib.Text.{◌==◌ as str_eq}
use text.Mathlib.TextEquality.{eq_iff}
use text.Mathlib.TextLemmas.{nil-append, cons-append, append_cancel_left, append_cancel_right}
use mackerel_agent.Prelude.Tests.{◌==◌, ==_iff, ==_iff, if◌then◌else◌}

abbrev pub is_nil : String → Bool
is_nil String.[] = true
is_nil (String.◌∷◌ c s) = false

-- utf8.RuneCountInString
abbrev pub rune_count : String → ℕ
rune_count String.[] = 0
rune_count (String.◌∷◌ c s) = suc (rune_count s)

-- The first `n` characters.
unfoldable pub take_runes : ℕ → String → String
take_runes zero s = String.[]
take_runes (suc n) String.[] = String.[]
take_runes (suc n) (String.◌∷◌ c s) = String.◌∷◌ c (take_runes n s)

-- strings.Contains(s, string(c)) for a character
unfoldable pub has_char : ℕ → String → Bool
has_char c String.[] = false
has_char c (String.◌∷◌ d s) = code d == c || has_char c s

-- strings.TrimLeft, strings.TrimRight and strings.Trim, by the test of the cut set
unfoldable pub trim_left : (ℕ → Bool) → String → String
trim_left cut String.[] = String.[]
trim_left cut (String.◌∷◌ c s) =
    let rest = trim_left cut s in if cut (code c) then rest else String.◌∷◌ c s

unfoldable pub trim_right : (ℕ → Bool) → String → String
trim_right cut String.[] = String.[]
trim_right cut (String.◌∷◌ c s) =
    let rest = trim_right cut s in
    if is_nil rest && cut (code c) then String.[] else String.◌∷◌ c rest

unfoldable pub trim : (ℕ → Bool) → String → String
unfolding trim_left trim_right
trim cut s = trim_right cut (trim_left cut s)

-- strings.HasPrefix(s, prefix), and what follows the prefix
unfoldable pub cut_prefix : String → String → Option String
cut_prefix String.[] s = some s
cut_prefix (String.◌∷◌ c p) String.[] = none
cut_prefix (String.◌∷◌ c p) (String.◌∷◌ d s) =
    let rest = cut_prefix p s in if code c == code d then rest else none

-- strings.TrimPrefix(s, prefix)
unfoldable pub trim_prefix : String → String → String
unfolding cut_prefix
trim_prefix s p = elim (cut_prefix p s) [ none ↦ s | some rest ↦ rest ]

pub rune_count-take_runes :
    (n : ℕ) (s : String) → rune_count (take_runes n s) ≡ min n (rune_count s)
unfolding take_runes
rune_count-take_runes zero s = omega arith
rune_count-take_runes (suc n) String.[] = omega arith
rune_count-take_runes (suc n) (String.◌∷◌ c s) = omega (arith, rune_count-take_runes n s)

pub take_runes_all : (n : ℕ) (s : String) → rune_count s ≤ n → take_runes n s ≡ s
unfolding take_runes
take_runes_all zero String.[] h = refl
take_runes_all zero (String.◌∷◌ c s) h = elim h [ ]
take_runes_all (suc n) String.[] h = refl
take_runes_all (suc n) (String.◌∷◌ c s) h =
    ap (λ r. String.◌∷◌ c r) (take_runes_all n s (omega arith))

pub cut_prefix-append : (p s : String) → cut_prefix p (p ++ s) ≡ some s
unfolding cut_prefix
cut_prefix-append String.[] s = ap (λ x. some x) (nil-append s)
cut_prefix-append (String.◌∷◌ c p) s =
    ground (arith, cons-append c p s, ==_iff (code c) (code c), cut_prefix-append p s)

-- Texts with the same end, or the same beginning, are compared by what differs.
pub str_eq-append_right : (a b suffix : String) → str_eq (a ++ suffix) (b ++ suffix) ≡ str_eq a b
str_eq-append_right a b suffix =
    ground (arith, eq_iff a b, eq_iff (a ++ suffix) (b ++ suffix), append_cancel_right a b suffix)

pub str_eq-append_left : (prefix a b : String) → str_eq (prefix ++ a) (prefix ++ b) ≡ str_eq a b
str_eq-append_left prefix a b =
    ground (arith, eq_iff a b, eq_iff (prefix ++ a) (prefix ++ b), append_cancel_left prefix a b)

-- strings.Contains(s, part)
unfoldable pub contains_text : String → String → Bool
unfolding cut_prefix
contains_text String.[] part = is_nil part
contains_text (String.◌∷◌ c s) part =
    let later = contains_text s part in
    elim (cut_prefix part (String.◌∷◌ c s)) [ none ↦ later | some rest ↦ true ]
