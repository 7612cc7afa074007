-- ===== src/Main/Roles.antt =====
-- What the regular expression for the full name of a role matches (main.go).
use mackerel_agent.Prelude.{
  String, ℕ, append, Bool, true, false, ◌&&◌, code, ◌==◌, ==_iff, ◌≡◌, refl, sym, ◌∙◌, ◌↔◌, arith,
  ap, Char, inl, inr, Bool-cases,
}
use text.Mathlib.TextEquality.{Char-path}
use text.Mathlib.TextLemmas.{nil-append, cons-append}
use mackerel_agent.Main.{
  is_alnum, is_word, is_blank, match_words, match_role, match_service, match_role_fullname,
}

-- A name: a letter or a digit, then any number of letters, digits, hyphens and underscores.
abbrev pub is_name : String → Bool
is_name String.[] = false
is_name (String.◌∷◌ c s) = is_alnum (code c) && match_words s

abbrev pub all_blank : String → Bool
all_blank String.[] = true
all_blank (String.◌∷◌ c s) = is_blank (code c) && all_blank s

alnum_not_blank : (c : ℕ) → is_alnum c ≡ true → is_blank c ≡ false
unfolding is_alnum is_blank
alnum_not_blank c h = ground arith

word_not_colon : (c : ℕ) → is_word c ≡ true → (c == b':') ≡ false
unfolding is_word is_alnum
word_not_colon c h = ground arith

match_role-name :
    (blank role : String)
    → all_blank blank ≡ true
    → is_name role ≡ true
    → match_role (append blank role) ≡ true
unfolding match_role
match_role-name String.[] String.[] b n = ground arith
match_role-name String.[] (String.◌∷◌ c s) b n =
    ground (arith, nil-append (String.◌∷◌ c s), alnum_not_blank (code c))
match_role-name (String.◌∷◌ c s) role b n =
    ground (arith, cons-append c s role, match_role-name s role)

match_service-names :
    (words rest : String)
    → match_words words ≡ true
    → match_role rest ≡ true
    → match_service (append words (append ":" rest)) ≡ true
unfolding match_service match_words
match_service-names String.[] rest w r =
    ground (arith, nil-append (append ":" rest), cons-append ":" String.[] rest, nil-append rest)
match_service-names (String.◌∷◌ c s) rest w r =
    ground (
      arith,
      cons-append c s (append ":" rest),
      word_not_colon (code c),
      match_service-names s rest,
    )

-- The blanks and the name that a match of the second part is made of.
record RolePieces (s : String) : Type 0 where
  pub blank : String
  pub role : String
  pub whole : s ≡ append blank role
  pub all : all_blank blank ≡ true
  pub named : is_name role ≡ true

role-pieces : (s : String) → match_role s ≡ true → RolePieces s
unfolding match_role
role-pieces String.[] h = absurd (ground arith)
role-pieces (String.◌∷◌ c s) h = elim (Bool-cases (is_blank (code c))) [
  | inl b ↦
      let p = role-pieces s (ground arith) in
      record {
        blank = String.◌∷◌ c p.blank;
        role = p.role;
        whole = ap (λ r. String.◌∷◌ c r) p.whole ∙ sym (cons-append c p.blank p.role);
        all = ground (arith, p.all);
        named = p.named;
      }
  | inr b ↦ record {
    blank = String.[];
    role = String.◌∷◌ c s;
    whole = sym (nil-append (String.◌∷◌ c s));
    all = refl;
    named = ground arith;
  }
]

record ServicePieces (s : String) : Type 0 where
  pub words : String
  pub rest : String
  pub whole : s ≡ append words (append ":" rest)
  pub all : match_words words ≡ true
  pub matched : match_role rest ≡ true

colon_cons : (c : Char) (s : String) → (code c == b':') ≡ true → String.◌∷◌ c s ≡ append ":" s
colon_cons c s h =
    let e : c ≡ ":" = Char-path c ":" ((==_iff (code c) b':').0 h) in
    ap (λ d. String.◌∷◌ d s) e
    ∙ ap (λ r. String.◌∷◌ ":" r) (sym (nil-append s))
    ∙ sym (cons-append ":" String.[] s)

cons_whole :
    (c : Char) (s words rest tail : String)
    → s ≡ append words (append ":" rest)
    → rest ≡ tail
    → String.◌∷◌ c s ≡ append (String.◌∷◌ c words) (append ":" tail)
cons_whole c s words rest tail h e =
    ap (λ r. String.◌∷◌ c r) (h ∙ ap (λ r. append words (append ":" r)) e)
    ∙ sym (cons-append c words (append ":" tail))

service-pieces : (s : String) → match_service s ≡ true → ServicePieces s
unfolding match_service match_words
service-pieces String.[] h = absurd (ground arith)
service-pieces (String.◌∷◌ c s) h = elim (Bool-cases (code c == b':')) [
  | inl b ↦ record {
    words = String.[];
    rest = s;
    whole = colon_cons c s b ∙ sym (nil-append (append ":" s));
    all = refl;
    matched = ground arith;
  }
  | inr b ↦
      let p = service-pieces s (ground arith) in
      record {
        words = String.◌∷◌ c p.words;
        rest = p.rest;
        whole = cons_whole c s p.words p.rest p.rest p.whole refl;
        all = ground (arith, p.all);
        matched = p.matched;
      }
]

-- A full name `s` and what it is made of.
pub record RoleFullname (s : String) : Type 0 where
  pub service : String
  pub blank : String
  pub role : String
  pub whole : s ≡ append service (append ":" (append blank role))
  pub all : all_blank blank ≡ true
  pub service_named : is_name service ≡ true
  pub role_named : is_name role ≡ true

match_role_fullname-names :
    (service blank role : String)
    → is_name service ≡ true
    → all_blank blank ≡ true
    → is_name role ≡ true
    → match_role_fullname (append service (append ":" (append blank role))) ≡ true
unfolding match_role_fullname
match_role_fullname-names String.[] blank role a b c = absurd (ground arith)
match_role_fullname-names (String.◌∷◌ c s) blank role a b n = ground (
  arith,
  cons-append c s (append ":" (append blank role)),
  match_service-names s (append blank role),
  match_role-name blank role,
)

RoleFullname-pieces : (s : String) → match_role_fullname s ≡ true → RoleFullname s
unfolding match_role_fullname
RoleFullname-pieces String.[] h = absurd (ground arith)
RoleFullname-pieces (String.◌∷◌ c s) h =
    let p = service-pieces s (ground arith) in
    let q = role-pieces p.rest p.matched in
    record {
      service = String.◌∷◌ c p.words;
      blank = q.blank;
      role = q.role;
      whole = cons_whole c s p.words p.rest (append q.blank q.role) p.whole q.whole;
      all = q.all;
      service_named = ground (arith, p.all);
      role_named = q.named;
    }

-- The regular expression matches the texts that are the name of a service, a colon, any number of
-- blanks and the name of a role, and no others.
pub match_role_fullname_iff : (s : String) → (match_role_fullname s ≡ true) ↔ RoleFullname s
match_role_fullname_iff s = (
  RoleFullname-pieces s,
  λ r.
      ap match_role_fullname r.whole
      ∙ match_role_fullname-names r.service r.blank r.role r.service_named r.all r.role_named,
)
