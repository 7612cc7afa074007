-- ===== src/Spec/Interface/Kept.antt =====
-- The interfaces that are reported (spec/linux/interface.go), whatever the command has printed.
use mackerel_agent.Prelude.{
  String, ℕ, ◌≡◌, ◌≢◌, Bool, true, false, Option, none, some, List, [], ◌∷◌, lookup, insert, IsMap,
  IsMap-insert, All, arith, eq_iff, inl, inr, Option-cases, Bool-cases,
}
use mackerel_agent.Spec.Interface.{
  Interface, Interfaces, get_or_new, set_mac_address, append_ipv4_address, append_ipv6_address,
  is_left_out, kept,
}
use mackerel_agent.Spec.Interface.Ip.{
  when_matched, add_matches, each_line, by_ip_command, by_ifconfig_command,
}
use mackerel_agent.Spec.Interface.Outside.{IsOutside, kept-IsOutside, IsTreated, kept-IsTreated}

-- Each interface stands once, under its own name.
abbrev IsNamed : Interfaces → Type 0
IsNamed = All (λ e. e.1.name ≡ e.0)

abbrev pub IsSound : Interfaces → Type 0
IsSound ifs = IsMap ifs × IsNamed ifs

IsNamed-insert :
    (name : String) (iface : Interface) (ifs : Interfaces)
    → iface.name ≡ name
    → IsNamed ifs
    → IsNamed (insert name iface ifs)
unfolding insert
IsNamed-insert name iface [] e h = (e, tt)
IsNamed-insert name iface ((key, old) ∷ ifs) e h =
    ground (arith, IsNamed-insert name iface ifs e h.1)

IsSound-insert :
    (name : String) (iface : Interface) (ifs : Interfaces)
    → iface.name ≡ name
    → IsSound ifs
    → IsSound (insert name iface ifs)
IsSound-insert name iface ifs e h =
    (IsMap-insert name iface ifs h.0, IsNamed-insert name iface ifs e h.1)

name-lookup :
    (name : String) (iface : Interface) (ifs : Interfaces)
    → IsNamed ifs
    → lookup name ifs ≡ some iface
    → iface.name ≡ name
unfolding lookup
name-lookup name iface [] h e = cc
name-lookup name iface ((key, old) ∷ ifs) h e =
    ground (arith, eq_iff key name, name-lookup name iface ifs h.1)

name-get_or_new :
    (name : String) (ifs : Interfaces) → IsNamed ifs → (get_or_new name ifs).name ≡ name
unfolding get_or_new
name-get_or_new name ifs h = elim (Option-cases (lookup name ifs)) [
  | inl e ↦ ground arith
  | inr (iface, e) ↦ ground (arith, name-lookup name iface ifs h e)
]

-- A change of the interfaces that keeps them sound.
abbrev pub KeepsSound : (Interfaces → Interfaces) → Type 0
KeepsSound change = (ifs : Interfaces) → IsSound ifs → IsSound (change ifs)

module _ (name addr : String) where
  set_mac_address-KeepsSound : KeepsSound (set_mac_address name addr)
  unfolding set_mac_address
  set_mac_address-KeepsSound ifs h = IsSound-insert name _ ifs (name-get_or_new name ifs h.1) h

  append_ipv4_address-KeepsSound : KeepsSound (append_ipv4_address name addr)
  unfolding append_ipv4_address
  append_ipv4_address-KeepsSound ifs h = IsSound-insert name _ ifs (name-get_or_new name ifs h.1) h

  append_ipv6_address-KeepsSound : KeepsSound (append_ipv6_address name addr)
  unfolding append_ipv6_address
  append_ipv6_address-KeepsSound ifs h = IsSound-insert name _ ifs (name-get_or_new name ifs h.1) h

when_matched-KeepsSound :
    (groups : Option (List (ℕ × String))) (i : ℕ) (change : String → Interfaces → Interfaces)
    → ((addr : String) → KeepsSound (change addr))
    → KeepsSound (when_matched groups i change)
when_matched-KeepsSound none i change k ifs h = h
when_matched-KeepsSound (some groups) i change k ifs h = k _ ifs h

pub each_line-IsSound :
    (round : String → String × Interfaces → String × Interfaces)
    → ((line : String) (state : String × Interfaces)
        → IsSound state.1
        → IsSound (round line state).1)
    → (lines : List String) (state : String × Interfaces) → IsSound state.1
    → IsSound (each_line round lines state)
each_line-IsSound round k [] (name, ifs) h = h
each_line-IsSound round k (line ∷ lines) state h =
    each_line-IsSound round k lines (round line state) (k line state h)

pub add_matches-KeepsSound :
    (name : String) (i : ℕ) (mac v4 v6 : Option (List (ℕ × String)))
    → KeepsSound (add_matches name i mac v4 v6)
unfolding add_matches
add_matches-KeepsSound name i mac v4 v6 ifs h =
    let step1 = when_matched mac i (set_mac_address name) ifs in
    let step2 = when_matched v4 1 (append_ipv4_address name) step1 in
    when_matched-KeepsSound v6 1 (append_ipv6_address name) (append_ipv6_address-KeepsSound name)
      step2
      (when_matched-KeepsSound v4 1 (append_ipv4_address name) (append_ipv4_address-KeepsSound name)
        step1
        (when_matched-KeepsSound mac i (set_mac_address name) (set_mac_address-KeepsSound name) ifs
          h))

-- No two interfaces of a list have one name.
abbrev pub HaveOwnNames : List Interface → Type 0
HaveOwnNames [] = Unit
HaveOwnNames (iface ∷ ifaces) = All (λ other. other.name ≢ iface.name) ifaces × HaveOwnNames ifaces

kept-other_names :
    (parse_ip : String → Option Bool) (name : String) (ifs : Interfaces)
    → IsNamed ifs
    → lookup name ifs ≡ none
    → All (λ other. other.name ≢ name) (kept parse_ip ifs)
unfolding kept lookup
kept-other_names parse_ip name [] h n = tt
kept-other_names parse_ip name ((key, iface) ∷ ifs) h n =
    let other : iface.name ≢ name = λ e. ground (arith, eq_iff key name) in
    ground (arith, eq_iff key name, kept-other_names parse_ip name ifs h.1, other)

pub kept-HaveOwnNames :
    (parse_ip : String → Option Bool) (ifs : Interfaces)
    → IsSound ifs
    → HaveOwnNames (kept parse_ip ifs)
unfolding kept
kept-HaveOwnNames parse_ip [] h = tt
kept-HaveOwnNames parse_ip ((key, iface) ∷ ifs) h =
    let rest = kept-HaveOwnNames parse_ip ifs (h.0.1, h.1.1) in
    let others = kept-other_names parse_ip iface.name ifs h.1.1 (rw h.1.0 h.0.0) in
    elim (Bool-cases (is_left_out parse_ip iface)) [
      | inl out ↦ ground (arith, rest)
      | inr reported ↦ rw reported (others, rest)
    ]

pub kept_lem :
    (parse_ip : String → Option Bool) (ifs : Interfaces)
    → IsSound ifs
    → All (IsOutside parse_ip) (kept parse_ip ifs)
      × HaveOwnNames (kept parse_ip ifs)
      × All (IsTreated parse_ip (kept parse_ip ifs)) ifs
kept_lem parse_ip ifs h =
    (kept-IsOutside parse_ip ifs, kept-HaveOwnNames parse_ip ifs h, kept-IsTreated parse_ip ifs)

pub some-kept : (xs ys : List Interface) → some xs ≡ some ys → ys ≡ xs
some-kept xs ys e = cc

-- What the command that is there has told of.
abbrev pub found : Bool → Option String → Option String → Interfaces
found true (some out) ifconfig = by_ip_command out
found false ip_addr (some out) = by_ifconfig_command out
found _ _ _ = []
