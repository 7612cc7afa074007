-- ===== src/Tests/Spec.antt =====
-- The host specs on concrete inputs (spec/).
use mackerel_agent.Prelude.{
  Bool, Dict, ◌≡◌, refl, true, false, some, none, List, [], ◌∷◌, map, insert, split, lookup,
  scan_lines, ◌↔◌, ℕ, zero, suc, String, Option, trim_space, cut_prefix, cut_at, str_eq,
}
use mackerel_agent.Spec.Interface.{Interface}
use mackerel_agent.Spec.Interface.Ip.{by_ip_command, by_ifconfig_command}
use mackerel_agent.Spec.Cpu.{generate_cpu, detail_name}
use mackerel_agent.Spec.Cpu.Processors.{detail_first, generate_cpu-detail_first}
use mackerel_agent.Spec.Cloud.{
  Answer, no_answer, status, suggest_custom_identifier, ec2_generator, azure_vm_generator,
}
use mackerel_agent.Spec.Cloud.Ec2.{is_ec2_uuid}
use mackerel_agent.Spec.Cloud.Suggested.{Suggests, suggest_custom_identifier_lem}
use mackerel_agent.Tests.Host.{retrier}

by_ip :
    by_ip_command
      "2: eth0@if9: <BROADCAST> mtu 1500\n    link/ether 12:34:56:78:9a:bc brd ff:ff\n    inet 10.0.4.7/24 brd 10.0.5.255 scope global eth0\n    inet6 fe80::44b3/64 scope link\n"
    ≡ (
      "eth0",
      record {
        name = "eth0";
        mac_address = "12:34:56:78:9a:bc";
        ipv4_addresses = "10.0.4.7" ∷ [];
        ipv6_addresses = "fe80::44b3" ∷ [];
      },
    )
      ∷ []
unfolding by_ip_command split insert lookup
by_ip = refl

by_ifconfig :
    by_ifconfig_command
      "eth0      Link encap:Ethernet  HWaddr 00:16:3e:4f:f3:41  \n          inet addr:10.0.4.7  Bcast:10.0.5.255\n          inet6 addr: fe80::216/64 Scope:Link\n"
    ≡ (
      "eth0",
      record {
        name = "eth0";
        mac_address = "00:16:3e:4f:f3:41";
        ipv4_addresses = "10.0.4.7" ∷ [];
        ipv6_addresses = "fe80::216" ∷ [];
      },
    )
      ∷ []
unfolding by_ifconfig_command split insert lookup
by_ifconfig = refl

-- Two processors, and the file of a machine that names its vendor first.
abbrev amd64 : String
amd64 = "processor\t: 0\nvendor_id\t: GenuineIntel\nprocessor\t: 1\ncpu MHz\t: 3392.292\n"

abbrev s390x : String
s390x = "vendor_id       : IBM/S390\n# processors    : 1\nprocessor 0: version = FF\n"

abbrev amd64_processors : List (Dict String)
amd64_processors = (("vendor_id", "GenuineIntel") ∷ []) ∷ (("mhz", "3392.292") ∷ []) ∷ []

amd64_cpus : generate_cpu amd64 ≡ some amd64_processors
unfolding generate_cpu scan_lines cut_at trim_space insert
amd64_cpus = refl

generate_cpu-detail_first_example :
    (generate_cpu s390x ≡ none) ↔ (detail_first (scan_lines s390x) ≡ true)
generate_cpu-detail_first_example = generate_cpu-detail_first s390x

s390x_panics : detail_first (scan_lines s390x) ≡ true
unfolding detail_first scan_lines cut_at trim_space detail_name
s390x_panics = refl

ec2_uuids :
    map is_ec2_uuid (
      "EC2E1916-9099-7CAF-FD21-012345ABCDEF" ∷ "45E12AEC-DCD1-B213-94ED-01234ABCDEF"
      ∷ "abcd1916-9099-7caf-fd21-012345abcdef" ∷ [])
    ≡ true ∷ true ∷ false ∷ []
unfolding is_ec2_uuid cut_prefix split
ec2_uuids = refl

-- The second attempt is answered.
abbrev answers : ℕ → Answer
answers zero = no_answer
answers (suc n) = status 200 (some "i-4f90d537")

suggested :
    suggest_custom_identifier retrier ec2_generator answers ≡ some "i-4f90d537.ec2.amazonaws.com"
unfolding suggest_custom_identifier
suggested = refl

suggest_custom_identifier_lem_example :
    Suggests ".ec2.amazonaws.com" answers 3 0
      (suggest_custom_identifier retrier ec2_generator answers)
    × Suggests ".virtual_machine.azure.microsoft.com" answers 3 0
        (suggest_custom_identifier retrier azure_vm_generator answers)
suggest_custom_identifier_lem_example = suggest_custom_identifier_lem retrier answers

-- An address is loopback if it is 127.0.0.1.
abbrev parse_ip : String → Option Bool
parse_ip addr = some (str_eq addr "127.0.0.1")

abbrev ip_addr : String
ip_addr =
    "1: lo: <LOOPBACK> mtu 65536\n    inet 127.0.0.1/8 scope host lo\n2: eth0: <UP> mtu 1500\n    inet 10.0.4.7/24 scope global eth0\n"

abbrev eth0 : Interface
eth0 = record {
  name = "eth0";
  mac_address = "";
  ipv4_addresses = "10.0.4.7" ∷ [];
  ipv6_addresses = [];
}
