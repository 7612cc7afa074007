-- ===== src/Config/Identifiers.antt =====
-- The list of custom identifiers of a configuration (`ListCustomIdentifiers` of config/config.go).
use mackerel_agent.Prelude.{
  String, Bool, false, ◌||◌, Option, none, some, List, [], ◌∷◌, ◌++◌, str_eq, eq_iff, ◌≡◌, refl,
  arith, Bool-cases, inl, inr,
}
use mackerel_agent.Config.{Config}
use mackerel_agent.Config.Load.{
  contains, add_identifiers, metric_identifiers, check_identifiers, list_custom_identifiers,
}

-- No text comes twice.
abbrev pub AreDistinct : List String → Type 0
AreDistinct [] = Unit
AreDistinct (x ∷ xs) = (contains xs x ≡ false) × AreDistinct xs

-- Some plugin of the list has the identifier.
abbrev pub names : List (Option String) → String → Bool
names [] c = false
names (none ∷ ps) c = names ps c
names (some d ∷ ps) c = str_eq d c || names ps c

contains-append :
    (xs : List String) (y c : String) → contains (xs ++ y ∷ []) c ≡ (contains xs c || str_eq y c)
unfolding contains
contains-append [] y c = ground arith
contains-append (x ∷ xs) y c = ground (arith, contains-append xs y c)

AreDistinct-append :
    (xs : List String) (y : String)
    → AreDistinct xs
    → contains xs y ≡ false
    → AreDistinct (xs ++ y ∷ [])
unfolding contains
AreDistinct-append [] y d n = (refl, tt)
AreDistinct-append (x ∷ xs) y d n =
    ground (arith, contains-append xs y x, AreDistinct-append xs y d.1, eq_iff x y, eq_iff y x)

add_identifiers-distinct :
    (ids : List String) (ps : List (Option String))
    → AreDistinct ids
    → AreDistinct (add_identifiers ids ps)
unfolding add_identifiers
add_identifiers-distinct ids [] d = d
add_identifiers-distinct ids (none ∷ ps) d = add_identifiers-distinct ids ps d
add_identifiers-distinct ids (some c ∷ ps) d = elim (Bool-cases (contains ids c)) [
  | inl old ↦ rw old (add_identifiers-distinct ids ps d)
  | inr new ↦ rw new (add_identifiers-distinct (ids ++ c ∷ []) ps (AreDistinct-append ids c d new))
]

contains-add_identifiers :
    (ids : List String) (ps : List (Option String)) (c : String)
    → contains (add_identifiers ids ps) c ≡ (contains ids c || names ps c)
unfolding add_identifiers
contains-add_identifiers ids [] c = ground arith
contains-add_identifiers ids (none ∷ ps) c = contains-add_identifiers ids ps c
contains-add_identifiers ids (some d ∷ ps) c = elim (Bool-cases (contains ids d)) [
  | inl old ↦ rw old (ground (arith, contains-add_identifiers ids ps c, eq_iff d c))
  | inr new ↦
      rw new
        (ground (arith, contains-add_identifiers (ids ++ d ∷ []) ps c, contains-append ids d c))
]

-- The list has no identifier twice, and has exactly the identifiers that a metric plugin or a check
-- plugin names, in whichever order the plugins are visited.
pub list_custom_identifiers_lem :
    {Re : Type 0} (conf : Config Re) (c : String)
    → AreDistinct (list_custom_identifiers conf)
      × (contains (list_custom_identifiers conf) c ≡ (
          names (metric_identifiers conf.metric_plugins) c
          || names (check_identifiers conf.check_plugins) c))
unfolding list_custom_identifiers
list_custom_identifiers_lem conf c =
    let ms = metric_identifiers conf.metric_plugins in
    let cs = check_identifiers conf.check_plugins in
    (
      add_identifiers-distinct (add_identifiers [] ms) cs (add_identifiers-distinct [] ms tt),
      ground (
        arith,
        contains-add_identifiers (add_identifiers [] ms) cs c,
        contains-add_identifiers [] ms c,
      ),
    )
