-- ===== src/Config/Environment.antt =====
-- The environment of a plugin's command (`ConvertToStrings` of config/config.go) against what a
-- process reads from it.
use Prim.Native.Char.{code}
use text.Mathlib.TextLemmas.{nil-append, cons-append}
use mackerel_agent.Prelude.{
  String, ℕ, append, Bool, true, false, Option, none, some, List, [], ◌∷◌, Dict, is_nil, has_char,
  trim, trim_left, trim_right, ◌==◌, map, ◌≡◌, refl, arith, if◌then◌else◌, Result, ok, err, ◌>>=◌,
  Bool-cases, inl, inr,
}
use mackerel_agent.Config.{ConfigError, bad_env}
use mackerel_agent.Config.Commands.{convert_to_strings}

-- The first key that has a "=" in it.
abbrev pub bad_key : Dict String → Option String
bad_key [] = none
bad_key ((k, v) ∷ env) = if has_char b'=' k then some k else bad_key env

abbrev pub trimmed : String → String
trimmed k = trim (λ c. c == b' ') k

-- The variables that are set: those with a key, without the spaces round it.
abbrev pub variables : Dict String → Dict String
variables [] = []
variables ((k, v) ∷ env) =
    if is_nil (trimmed k) then variables env else (trimmed k, v) ∷ variables env

-- How a process reads one entry of its environment: the key ends at the first "=".
abbrev pub read_variable : String → String × String
read_variable String.[] = ("", "")
read_variable (String.◌∷◌ c s) =
    if code c == b'=' then ("", s) else (String.◌∷◌ c (read_variable s).0, (read_variable s).1)

read_variable-append :
    (k v : String) → has_char b'=' k ≡ false → read_variable (append k (append "=" v)) ≡ (k, v)
unfolding has_char
read_variable-append String.[] v h = rw nil-append (rw cons-append (rw nil-append refl))
read_variable-append (String.◌∷◌ c k) v h =
    rw (cons-append c k (append "=" v)) (ground (arith, read_variable-append k v))

has_char-trim_left :
    (cut : ℕ → Bool) (s : String)
    → has_char b'=' s ≡ false
    → has_char b'=' (trim_left cut s) ≡ false
unfolding has_char trim_left
has_char-trim_left cut String.[] h = refl
has_char-trim_left cut (String.◌∷◌ c s) h = ground (arith, has_char-trim_left cut s)

has_char-trim_right :
    (cut : ℕ → Bool) (s : String)
    → has_char b'=' s ≡ false
    → has_char b'=' (trim_right cut s) ≡ false
unfolding has_char trim_right
has_char-trim_right cut String.[] h = refl
has_char-trim_right cut (String.◌∷◌ c s) h = ground (arith, has_char-trim_right cut s)

has_char-trimmed : (k : String) → has_char b'=' k ≡ false → has_char b'=' (trimmed k) ≡ false
unfolding trim
has_char-trimmed k h =
    has_char-trim_right (λ c. c == b' ') (trim_left (λ c. c == b' ') k)
      (has_char-trim_left (λ c. c == b' ') k h)

-- What a conversion should give: the error for the first bad key, or texts that read as the
-- variables.
abbrev pub AsExpected : Option String → Dict String → Result ConfigError (List String) → Type 0
AsExpected (some k) vars (err e) = e ≡ bad_env k
AsExpected (some k) vars (ok strings) = ⊥
AsExpected none vars (err e) = ⊥
AsExpected none vars (ok strings) = map read_variable strings ≡ vars

abbrev convert_rest :
    Bool → String → String → Result ConfigError (List String) → Result ConfigError (List String)
convert_rest skip key v r = do
  rest ← r
  if skip then ok rest else ok (append key (append "=" v) ∷ rest)

AsExpected-cons :
    (key v : String) (bad : Option String) (vars : Dict String)
    (r : Result ConfigError (List String))
    → has_char b'=' key ≡ false
    → AsExpected bad vars r
    → AsExpected bad
        (if is_nil key then vars else (key, v) ∷ vars)
        (convert_rest (is_nil key) key v r)
AsExpected-cons key v (some k) vars (err e) h a = a
AsExpected-cons key v (some k) vars (ok strings) h a = absurd a
AsExpected-cons key v none vars (err e) h a = absurd a
AsExpected-cons String.[] v none vars (ok strings) h a = a
AsExpected-cons (String.◌∷◌ c key) v none vars (ok strings) h a =
    cc (read_variable-append (String.◌∷◌ c key) v h)

bad_first :
    (k v : String) (env : Dict String)
    → has_char b'=' k ≡ true
    → AsExpected
        (bad_key ((k, v) ∷ env))
        (variables ((k, v) ∷ env))
        (convert_to_strings ((k, v) ∷ env))
unfolding convert_to_strings
bad_first k v env bad = ground arith

-- If a key has a "=" the conversion fails and names the first such key; otherwise a process that is
-- given the result reads exactly the variables of the configuration, in their order.
pub convert_to_strings_lem :
    (env : Dict String) → AsExpected (bad_key env) (variables env) (convert_to_strings env)
unfolding convert_to_strings
convert_to_strings_lem [] = refl
convert_to_strings_lem ((k, v) ∷ env) = elim (Bool-cases (has_char b'=' k)) [
  | inl bad ↦ bad_first k v env bad
  | inr good ↦ rw good (
      AsExpected-cons (trimmed k) v (bad_key env) (variables env) (convert_to_strings env)
        (has_char-trimmed k good) (convert_to_strings_lem env))
]
