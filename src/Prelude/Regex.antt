-- ===== src/Prelude/Regex.antt =====
-- Regular expressions of Go's package regexp, as far as they are used: of the matches that begin
-- leftmost, the one that a search with backtracking finds first.
use Prim.Native.Nat.{ℕ, zero, suc, ◌-◌}
use Prim.Native.Char.{code}
use Prim.Native.String.{String}
use mathlib.Core.Bool.{Bool, ◌&&◌, ◌||◌}
use mathlib.Core.Option.{Option, none, some}
use mathlib.Core.List.{List, [], ◌∷◌, ◌++◌, map}
use mackerel_agent.Prelude.Tests.{◌==◌, leb, if◌then◌else◌}
use mackerel_agent.Prelude.Text.{rune_count, take_runes}

-- `one` is a class of characters, `many` takes as much as it can and `few` as little, `group i` is
-- captured under the number `i`, and `word_end` is \b after a character of a word.
pub data Regex : Type 0 where
  empty : Regex
  one : (ℕ → Bool) → Regex
  both : Regex → Regex → Regex
  either : Regex → Regex → Regex
  many : Regex → Regex
  few : Regex → Regex
  group : ℕ → Regex → Regex
  word_end : Regex

-- The groups of a match, and the text after it.
abbrev pub Way : Type 0
Way = List (ℕ × String) × String

abbrev in_order : (String → List Way) → List Way → List Way
in_order next [] = []
in_order next ((groups, rest) ∷ ways) =
    map (λ w. (groups ++ w.0, w.1)) (next rest) ++ in_order next ways

-- The ways that take at least one character of `s`.
abbrev moving : String → List Way → List Way
moving s [] = []
moving s ((groups, rest) ∷ ways) =
    let more = moving s ways in
    if rune_count rest == rune_count s then more else (groups, rest) ∷ more

-- The repetitions of a part, by at most as many rounds as the first argument says.
abbrev many_ways : ℕ → (String → List Way) → String → List Way
many_ways zero part s = ([], s) ∷ []
many_ways (suc n) part s = in_order (many_ways n part) (moving s (part s)) ++ ([], s) ∷ []

abbrev few_ways : ℕ → (String → List Way) → String → List Way
few_ways zero part s = ([], s) ∷ []
few_ways (suc n) part s = ([], s) ∷ in_order (few_ways n part) (moving s (part s))

abbrev one_way : (ℕ → Bool) → String → List Way
one_way test String.[] = []
one_way test (String.◌∷◌ c s) = if test (code c) then ([], s) ∷ [] else []

-- The text of `s` before its end `rest`.
abbrev before : String → String → String
before s rest = take_runes (rune_count s - rune_count rest) s

abbrev pub is_word_char : ℕ → Bool
is_word_char c =
    leb b'a' c && leb c b'z' || leb b'A' c && leb c b'Z' || leb b'0' c && leb c b'9' || c == b'_'

abbrev word_end_way : String → List Way
word_end_way String.[] = ([], String.[]) ∷ []
word_end_way (String.◌∷◌ c s) = if is_word_char (code c) then [] else ([], String.◌∷◌ c s) ∷ []

-- How an expression matches at the front of a text, in the order of the search.
unfoldable pub ways : Regex → String → List Way
unfolding take_runes
ways empty s = ([], s) ∷ []
ways (one test) s = one_way test s
ways (both r q) s = in_order (ways q) (ways r s)
ways (either r q) s = ways r s ++ ways q s
ways (many r) s = many_ways (rune_count s) (ways r) s
ways (few r) s = few_ways (rune_count s) (ways r) s
ways (group i r) s = map (λ w. ((i, before s w.1) ∷ w.0, w.1)) (ways r s)
ways word_end s = word_end_way s

abbrev head_groups : List Way → Option (List (ℕ × String))
head_groups [] = none
head_groups ((groups, rest) ∷ more) = some groups

-- FindStringSubmatch of an expression that begins with ^
unfoldable pub match_front : Regex → String → Option (List (ℕ × String))
unfolding ways
match_front r s = head_groups (ways r s)

-- FindStringSubmatch of an expression that does not
unfoldable pub find_match : Regex → String → Option (List (ℕ × String))
unfolding match_front
find_match r String.[] = match_front r String.[]
find_match r (String.◌∷◌ c s) =
    let later = find_match r s in
    elim (match_front r (String.◌∷◌ c s)) [ none ↦ later | some groups ↦ some groups ]

-- matches[i], which is empty where the group has taken no part in the match.
abbrev pub group_text : ℕ → List (ℕ × String) → String
group_text i [] = ""
group_text i ((j, text) ∷ groups) =
    let later = group_text i groups in if i == j then text else later

-- A text that is matched as it stands.
abbrev pub exactly : String → Regex
exactly String.[] = empty
exactly (String.◌∷◌ c s) = both (one (λ d. d == code c)) (exactly s)

-- r+ and r+?
abbrev pub some_more : Regex → Regex
some_more r = both r (many r)

abbrev pub some_few : Regex → Regex
some_few r = both r (few r)

-- r{1,n} for n from 1 on: at most n - 1 more.
abbrev pub up_to : ℕ → Regex → Regex
up_to zero r = empty
up_to (suc n) r = either (both r (up_to n r)) empty

-- The classes \s, \d and [a-f0-9]
abbrev pub blank_char : ℕ → Bool
blank_char c = c == 9 || c == 10 || c == 12 || c == 13 || c == 32

abbrev pub digit_char : ℕ → Bool
digit_char c = leb b'0' c && leb c b'9'

abbrev pub hex_char : ℕ → Bool
hex_char c = digit_char c || leb b'a' c && leb c b'f'

abbrev pub sequence : List Regex → Regex
sequence [] = empty
sequence (r ∷ rs) = both r (sequence rs)
