-- ===== src/Spec/Interface.antt =====
-- The network interfaces of the host: spec/net_interface.go, and the generator for Linux
-- (spec/linux/interface.go), which reads the output of `ip addr` or of `ifconfig -a`.
pub mod Ip
pub mod Outside
pub mod Kept
use mackerel_agent.Prelude.{
  String, ℕ, Bool, true, false, not, ◌&&◌, ◌||◌, Option, none, some, List, [], ◌∷◌, ◌++◌, Dict,
  lookup, insert, is_empty, if◌then◌else◌,
}

-- mkr.Interface
pub record Interface : Type 0 where
  pub name : String
  pub mac_address : String
  pub ipv4_addresses : List String
  pub ipv6_addresses : List String

-- The loop of IsLoopback, where `parse_ip` is net.ParseIP and tells of an address whether it is a
-- loopback address.
unfoldable pub all_loopback : (String → Option Bool) → List String → Bool
all_loopback parse_ip [] = true
all_loopback parse_ip (addr ∷ addrs) =
    let rest = all_loopback parse_ip addrs in
    elim (parse_ip addr) [ none ↦ rest | some loopback ↦ if loopback then rest else false ]

-- IsLoopback
unfoldable pub is_loopback : (String → Option Bool) → Interface → Bool
unfolding all_loopback
is_loopback parse_ip iface =
    if is_empty (iface.ipv4_addresses ++ iface.ipv6_addresses)
    then false
    else all_loopback parse_ip (iface.ipv4_addresses ++ iface.ipv6_addresses)

abbrev pub Interfaces : Type 0
Interfaces = Dict Interface

unfoldable pub get_or_new : String → Interfaces → Interface
get_or_new name ifs = elim (lookup name ifs) [
  | some iface ↦ iface
  | none ↦ record { name = name; mac_address = ""; ipv4_addresses = []; ipv6_addresses = [] }
]

-- SetMacAddress
unfoldable pub set_mac_address : String → String → Interfaces → Interfaces
unfolding get_or_new
set_mac_address name addr ifs =
    insert name (record (get_or_new name ifs) { mac_address = addr }) ifs

-- AppendIPv4Address
unfoldable pub append_ipv4_address : String → String → Interfaces → Interfaces
unfolding get_or_new
append_ipv4_address name addr ifs =
    let iface = get_or_new name ifs in
    insert name (record iface { ipv4_addresses = iface.ipv4_addresses ++ addr ∷ [] }) ifs

-- AppendIPv6Address
unfoldable pub append_ipv6_address : String → String → Interfaces → Interfaces
unfolding get_or_new
append_ipv6_address name addr ifs =
    let iface = get_or_new name ifs in
    insert name (record iface { ipv6_addresses = iface.ipv6_addresses ++ addr ∷ [] }) ifs

-- The interfaces that Generate leaves out: loopback, and those with no address.
unfoldable pub is_left_out : (String → Option Bool) → Interface → Bool
unfolding is_loopback
is_left_out parse_ip iface =
    is_loopback parse_ip iface || is_empty iface.ipv4_addresses && is_empty iface.ipv6_addresses

-- The loop of Generate over the interfaces.
unfoldable pub kept : (String → Option Bool) → Interfaces → List Interface
unfolding is_left_out
kept parse_ip [] = []
kept parse_ip ((name, iface) ∷ ifs) =
    let rest = kept parse_ip ifs in if is_left_out parse_ip iface then rest else iface ∷ rest
