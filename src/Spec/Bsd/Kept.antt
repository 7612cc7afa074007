-- ===== src/Spec/Bsd/Kept.antt =====
-- The interfaces that are reported on Darwin (spec/darwin/interface.go), and the kernel's name.
use mackerel_agent.Prelude.{
  String, ◌≡◌, Option, some, List, [], All, arith, Dict, lookup, lookup-insert, Bool, if◌then◌else◌,
  scan_lines, str_eq,
}
use mackerel_agent.Prelude.Regex.{match_front}
use mackerel_agent.Spec.Interface.{Interface, Interfaces, kept}
use mackerel_agent.Spec.Interface.Ip.{name_after}
use mackerel_agent.Spec.Interface.Kept.{
  IsSound, each_line-IsSound, add_matches-KeepsSound, HaveOwnNames, kept_lem, some-kept,
}
use mackerel_agent.Spec.Interface.Outside.{IsOutside, IsTreated}
use mackerel_agent.Spec.Bsd.{
  darwin_name_reg, darwin_mac_reg, darwin_ipv4_reg, darwin_ipv6_reg, on_darwin_line,
  darwin_interfaces, generate_darwin_interfaces, name_as_os,
}

on_darwin_line-IsSound :
    (line : String) (state : String × Interfaces)
    → IsSound state.1
    → IsSound (on_darwin_line line state).1
unfolding on_darwin_line
on_darwin_line-IsSound line (name, ifs) h =
    add_matches-KeepsSound (name_after (match_front darwin_name_reg line) 1 name) 1
      (match_front darwin_mac_reg line) (match_front darwin_ipv4_reg line)
      (match_front darwin_ipv6_reg line) ifs h

darwin_interfaces-IsSound : (out : String) → IsSound (darwin_interfaces out)
unfolding darwin_interfaces
darwin_interfaces-IsSound out =
    each_line-IsSound on_darwin_line on_darwin_line-IsSound (scan_lines out) ("", []) (tt, tt)

-- Whatever `ifconfig -a` has printed: an interface that is reported has an IP address that is not a
-- loopback address, no two have one name, and each interface of the output is reported, unless it has
-- no such address.
pub generate_darwin_interfaces-kept :
    (parse_ip : String → Option Bool) (out : String) (ifaces : List Interface)
    → generate_darwin_interfaces parse_ip (some out) ≡ some ifaces
    → All (IsOutside parse_ip) ifaces
      × HaveOwnNames ifaces
      × All (IsTreated parse_ip ifaces) (darwin_interfaces out)
unfolding generate_darwin_interfaces
generate_darwin_interfaces-kept parse_ip out ifaces e =
    rw (some-kept (kept parse_ip (darwin_interfaces out)) ifaces e)
      (kept_lem parse_ip (darwin_interfaces out) (darwin_interfaces-IsSound out))

-- The name of the kernel is that of the system, and no other field of the spec is changed.
pub lookup-name_as_os :
    (results : Dict String) (os field : String)
    → lookup "os" results ≡ some os
    → lookup field (name_as_os results)
      ≡ (if str_eq "name" field then some os else lookup field results)
unfolding name_as_os
lookup-name_as_os results os field h = ground (arith, lookup-insert "name" field os results)
