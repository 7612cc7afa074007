-- ===== src/Spec/Interface/Outside.antt =====
-- Which interfaces Generate of spec/linux/interface.go leaves out, and what it does with the others.
use mackerel_agent.Prelude.{
  String, ◌≡◌, Bool, true, false, Option, some, List, [], ◌∷◌, All, arith, refl, ◌⊎◌, ◌↔◌, ◌&&◌,
  ◌++◌, is_empty, inl, inr, Option-cases, Bool-cases,
}
use mackerel_agent.Spec.Interface.{
  Interface, Interfaces, is_left_out, is_loopback, all_loopback, kept,
}

-- One of some addresses is an IP address that is not a loopback address.
abbrev pub HasOutside : (String → Option Bool) → List String → Type 0
HasOutside parse_ip [] = ⊥
HasOutside parse_ip (addr ∷ addrs) = (parse_ip addr ≡ some false) ⊎ HasOutside parse_ip addrs

abbrev pub IsOutside : (String → Option Bool) → Interface → Type 0
IsOutside parse_ip iface = HasOutside parse_ip (iface.ipv4_addresses ++ iface.ipv6_addresses)

all_loopback_iff :
    (parse_ip : String → Option Bool) (addrs : List String)
    → (all_loopback parse_ip addrs ≡ false) ↔ HasOutside parse_ip addrs
unfolding all_loopback
all_loopback_iff parse_ip [] = ground arith
all_loopback_iff parse_ip (addr ∷ addrs) =
    let rest = all_loopback_iff parse_ip addrs in
    elim (Option-cases (parse_ip addr)) [
      | inl e ↦ (
        λ h. inr (rest.0 (ground arith)),
        λ h. elim h [ inl o ↦ ground arith | inr o ↦ ground (arith, rest.1 o) ],
      )
      | inr (true, e) ↦ (
        λ h. inr (rest.0 (ground arith)),
        λ h. elim h [ inl o ↦ ground arith | inr o ↦ ground (arith, rest.1 o) ],
      )
      | inr (false, e) ↦ (λ h. inl e, λ h. ground arith)
    ]

is_empty-append : (xs ys : List String) → is_empty (xs ++ ys) ≡ (is_empty xs && is_empty ys)
is_empty-append [] ys = refl
is_empty-append (x ∷ xs) ys = refl

outside-is_empty :
    (parse_ip : String → Option Bool) (addrs : List String)
    → HasOutside parse_ip addrs
    → is_empty addrs ≡ false
outside-is_empty parse_ip [] h = absurd h
outside-is_empty parse_ip (addr ∷ addrs) h = refl

is_left_out_iff :
    (parse_ip : String → Option Bool) (iface : Interface)
    → (is_left_out parse_ip iface ≡ false) ↔ IsOutside parse_ip iface
unfolding is_left_out is_loopback
is_left_out_iff parse_ip iface =
    let addrs = iface.ipv4_addresses ++ iface.ipv6_addresses in
    let p = all_loopback_iff parse_ip addrs in
    let q = is_empty-append iface.ipv4_addresses iface.ipv6_addresses in
    (λ h. p.0 (ground (arith, q)), λ h. ground (arith, q, p.1 h, outside-is_empty parse_ip addrs h))

pub kept-IsOutside :
    (parse_ip : String → Option Bool) (ifs : Interfaces)
    → All (IsOutside parse_ip) (kept parse_ip ifs)
unfolding kept
kept-IsOutside parse_ip [] = tt
kept-IsOutside parse_ip ((key, iface) ∷ ifs) = elim (Bool-cases (is_left_out parse_ip iface)) [
  | inl out ↦ rw out (kept-IsOutside parse_ip ifs)
  | inr reported ↦
      rw reported ((is_left_out_iff parse_ip iface).0 reported, kept-IsOutside parse_ip ifs)
]

abbrev pub IsAmong : Interface → List Interface → Type 0
IsAmong iface [] = ⊥
IsAmong iface (other ∷ ifaces) = (other ≡ iface) ⊎ IsAmong iface ifaces

-- An interface is reported unless it has no address that is not a loopback address.
abbrev pub IsTreated : (String → Option Bool) → List Interface → String × Interface → Type 0
IsTreated parse_ip ifaces e = IsAmong e.1 ifaces ⊎ ¬ (IsOutside parse_ip e.1)

IsTreated-more :
    (parse_ip : String → Option Bool) (iface : Interface) (ifaces : List Interface)
    (ifs : Interfaces)
    → All (IsTreated parse_ip ifaces) ifs
    → All (IsTreated parse_ip (iface ∷ ifaces)) ifs
IsTreated-more parse_ip iface ifaces [] h = tt
IsTreated-more parse_ip iface ifaces (e ∷ ifs) h = (
  elim h.0 [ inl among ↦ inl (inr among) | inr n ↦ inr n ],
  IsTreated-more parse_ip iface ifaces ifs h.1,
)

kept-left_out :
    (parse_ip : String → Option Bool) (key : String) (iface : Interface) (ifs : Interfaces)
    → is_left_out parse_ip iface ≡ true
    → kept parse_ip ((key, iface) ∷ ifs) ≡ kept parse_ip ifs
unfolding kept
kept-left_out parse_ip key iface ifs h = ground arith

kept-reported :
    (parse_ip : String → Option Bool) (key : String) (iface : Interface) (ifs : Interfaces)
    → is_left_out parse_ip iface ≡ false
    → kept parse_ip ((key, iface) ∷ ifs) ≡ iface ∷ kept parse_ip ifs
unfolding kept
kept-reported parse_ip key iface ifs h = ground arith

IsTreated-same :
    (parse_ip : String → Option Bool) (xs ys : List Interface) (ifs : Interfaces)
    → xs ≡ ys
    → All (IsTreated parse_ip ys) ifs
    → All (IsTreated parse_ip xs) ifs
IsTreated-same parse_ip xs ys ifs e h = rw e h

pub kept-IsTreated :
    (parse_ip : String → Option Bool) (ifs : Interfaces)
    → All (IsTreated parse_ip (kept parse_ip ifs)) ifs
kept-IsTreated parse_ip [] = tt
kept-IsTreated parse_ip ((key, iface) ∷ ifs) =
    let rest = kept-IsTreated parse_ip ifs in
    let here = (key, iface) ∷ ifs in
    elim (Bool-cases (is_left_out parse_ip iface)) [
      | inl out ↦
          IsTreated-same parse_ip (kept parse_ip here) (kept parse_ip ifs) here
            (kept-left_out parse_ip key iface ifs out)
            (inr (λ o. ground (arith, (is_left_out_iff parse_ip iface).1 o)), rest)
      | inr reported ↦
          IsTreated-same parse_ip (kept parse_ip here) (iface ∷ kept parse_ip ifs) here
            (kept-reported parse_ip key iface ifs reported)
            (inl (inl refl), IsTreated-more parse_ip iface (kept parse_ip ifs) ifs rest)
    ]
