-- ===== src/Spec/Bsd.antt =====
-- The generators of host specs on Darwin (spec/darwin) and on FreeBSD (spec/freebsd), which read the
-- output of sysctl, uname, sw_vers and ifconfig.
pub mod Kept
use mackerel_agent.Prelude.{
  String, ℕ, zero, suc, ◌+◌, ◌/◌, append, Bool, true, false, ◌||◌, Option, none, some, List, [],
  ◌∷◌, Dict, lookup, insert, scan_lines, cut_at, trim_space, trim_prefix, print_decimal, ◌==◌, leb,
  if◌then◌else◌, Result, ok, err,
}
use mackerel_agent.Prelude.Int.{ℤ, pos, negsuc}
use mackerel_agent.Prelude.Regex.{
  Regex, one, many, group, sequence, exactly, some_more, match_front, blank_char, digit_char,
  hex_char,
}
use mackerel_agent.Pidfile.{atoi}
use mackerel_agent.Spec.Interface.{
  Interface, Interfaces, set_mac_address, append_ipv4_address, append_ipv6_address, kept,
}
use mackerel_agent.Spec.Interface.Ip.{
  alnum_char, address_char, dotted, name_after, add_matches, each_line,
}

-- sysCtlKeyMap
abbrev pub sys_ctl_key_map : Dict String
sys_ctl_key_map =
    ("core_count", "cores")
    ∷ ("brand_string", "model_name")
    ∷ ("model", "model")
    ∷ ("vendor", "vendor_id")
    ∷ ("family", "family")
    ∷ ("stepping", "stepping")
    ∷ []

-- One round of the loop of parseSysCtlBytes
unfoldable pub on_sys_ctl_line : String → Dict String → Dict String
on_sys_ctl_line line results = elim (cut_at b':' line) [
  | none ↦ results
  | some (k, v) ↦ elim (lookup (trim_prefix (trim_space k) "machdep.cpu.") sys_ctl_key_map) [
    | none ↦ results
    | some label ↦ insert label (trim_space v) results
  ]
]

unfoldable pub each_sys_ctl_line : List String → Dict String → Dict String
unfolding on_sys_ctl_line
each_sys_ctl_line [] results = results
each_sys_ctl_line (line ∷ lines) results = each_sys_ctl_line lines (on_sys_ctl_line line results)

-- parseSysCtlBytes
unfoldable pub parse_sys_ctl : String → Dict String
unfolding each_sys_ctl_line
parse_sys_ctl res = each_sys_ctl_line (scan_lines res) []

-- getCPUCount, on what sysctl prints unless it fails.
unfoldable pub get_cpu_count : Option String → Option ℤ
unfolding atoi
get_cpu_count none = none
get_cpu_count (some count_bytes) = atoi (trim_space count_bytes)

abbrev copies : ℕ → Dict String → List (Dict String)
copies zero cpu_info = []
copies (suc n) cpu_info = cpu_info ∷ copies n cpu_info

-- `negative_count` is the panic of `make` on a length below 0.
pub data DarwinCpuError : Type 0 where
  no_count negative_count : DarwinCpuError

-- Generate of the CPU spec of Darwin, on what `sysctl -a machdep.cpu` has printed, whether it has
-- failed or not, and on what `sysctl -n hw.logicalcpu` prints.
unfoldable pub generate_darwin_cpu :
    String → Option String → Result DarwinCpuError (List (Dict String))
unfolding parse_sys_ctl get_cpu_count
generate_darwin_cpu cpu_info_bytes logicalcpu = elim (get_cpu_count logicalcpu) [
  | none ↦ err no_count
  | some (pos n) ↦ ok (copies n (parse_sys_ctl cpu_info_bytes))
  | some (negsuc n) ↦ err negative_count
]

-- Generate of the CPU spec of FreeBSD, on what `sysctl -n hw.model` prints unless it fails.
unfoldable pub generate_bsd_cpu : Option String → Option (List (Dict String))
generate_bsd_cpu none = none
generate_bsd_cpu (some brand) = some ((("model_name", brand) ∷ []) ∷ [])

-- The commands of the kernel spec by their fields: a program, and its option.
abbrev pub darwin_kernel_commands : Dict (String × String)
darwin_kernel_commands =
    ("release", ("/usr/bin/uname", "-r"))
    ∷ ("version", ("/usr/bin/uname", "-v"))
    ∷ ("machine", ("/usr/bin/uname", "-m"))
    ∷ ("os", ("/usr/bin/uname", "-s"))
    ∷ ("platform_name", ("/usr/bin/sw_vers", "-productName"))
    ∷ ("platform_version", ("/usr/bin/sw_vers", "-productVersion"))
    ∷ []

abbrev pub bsd_kernel_commands : Dict (String × String)
bsd_kernel_commands =
    ("release", ("/usr/bin/uname", "-r"))
    ∷ ("version", ("/usr/bin/uname", "-v"))
    ∷ ("machine", ("/usr/bin/uname", "-m"))
    ∷ ("os", ("/usr/bin/uname", "-s"))
    ∷ []

-- The loop over the commands, in the order of a `range`: a command that fails gives no field.
unfoldable pub run_commands :
    (String × String → Option String) → Dict (String × String) → Dict String → Dict String
run_commands run [] results = results
run_commands run ((field, command) ∷ commands) results = elim (run command) [
  | none ↦ run_commands run commands results
  | some out ↦ run_commands run commands (insert field (trim_space out) results)
]

-- results["name"] = results["os"], which is "" where there is none.
unfoldable pub name_as_os : Dict String → Dict String
name_as_os results = elim (lookup "os" results) [
  | none ↦ insert "name" "" results
  | some os ↦ insert "name" os results
]

-- Generate of the kernel spec of Darwin and of FreeBSD.
unfoldable pub generate_darwin_kernel : (String × String → Option String) → Dict String
unfolding run_commands name_as_os
generate_darwin_kernel run = name_as_os (run_commands run darwin_kernel_commands [])

unfoldable pub generate_bsd_kernel : (String × String → Option String) → Dict String
unfolding run_commands name_as_os
generate_bsd_kernel run = name_as_os (run_commands run bsd_kernel_commands [])

-- memsizeInBytes/bytesInKibibytes, printed: the division of Go goes to 0.
unfoldable pub print_kibibytes : ℤ → String
print_kibibytes (pos n) = print_decimal (n / 1024)
print_kibibytes (negsuc n) =
    let q = suc n / 1024 in if q == 0 then "0" else append "-" (print_decimal q)

-- Generate of the memory spec, on what sysctl prints unless it fails. `none` is an error.
unfoldable pub generate_sysctl_memory : Option String → Option (Dict String)
unfolding atoi print_kibibytes
generate_sysctl_memory none = none
generate_sysctl_memory (some output) = elim (atoi (trim_space output)) [
  | none ↦ none
  | some memsize ↦ some (("total", append (print_kibibytes memsize) "kB") ∷ [])
]

-- nameReg, macReg, ipv4Reg and ipv6Reg of Darwin
abbrev pub darwin_name_reg : Regex
darwin_name_reg = sequence (
    group 1 (some_more (one (λ c. alnum_char c || c == b'@' || c == b'-' || c == b'_')))
    ∷ exactly ":"
    ∷ some_more (one blank_char)
    ∷ [])

-- ^\s*word\s+
abbrev after_word : String → Regex
after_word word = sequence (many (one blank_char) ∷ exactly word ∷ some_more (one blank_char) ∷ [])

abbrev pub darwin_mac_reg : Regex
darwin_mac_reg = sequence (after_word "ether" ∷ group 1 (some_more (one address_char)) ∷ [])

abbrev pub darwin_ipv4_reg : Regex
darwin_ipv4_reg = sequence (
    after_word "inet"
    ∷ group 1 dotted
    ∷ some_more (one blank_char)
    ∷ exactly "netmask"
    ∷ some_more (one blank_char)
    ∷ group 2 (sequence (exactly "0x" ∷ some_more (one hex_char) ∷ []))
    ∷ [])

abbrev pub darwin_ipv6_reg : Regex
darwin_ipv6_reg = sequence (
    after_word "inet6"
    ∷ group 1 (some_more (one address_char))
    ∷ some_more (one blank_char)
    ∷ exactly "prefixlen"
    ∷ some_more (one blank_char)
    ∷ group 2 (some_more (one digit_char))
    ∷ [])

-- One round of the loop of generateByIfconfigCommand of Darwin
unfoldable pub on_darwin_line : String → String × Interfaces → String × Interfaces
unfolding match_front add_matches
on_darwin_line line (name, ifs) =
    let current = name_after (match_front darwin_name_reg line) 1 name in
    (
      current,
      add_matches current 1 (match_front darwin_mac_reg line) (match_front darwin_ipv4_reg line)
          (match_front darwin_ipv6_reg line) ifs,
    )

-- generateByIfconfigCommand and Generate of Darwin, on what `ifconfig -a` prints unless it fails.
unfoldable pub darwin_interfaces : String → Interfaces
unfolding on_darwin_line
darwin_interfaces out = each_line on_darwin_line (scan_lines out) ("", [])

unfoldable pub generate_darwin_interfaces :
    (String → Option Bool) → Option String → Option (List Interface)
unfolding darwin_interfaces kept
generate_darwin_interfaces parse_ip none = none
generate_darwin_interfaces parse_ip (some out) = some (kept parse_ip (darwin_interfaces out))
