-- ===== src/Spec/Interface/Ip.antt =====
-- The output of `ip addr` and of `ifconfig -a` (spec/linux/interface.go).
use mackerel_agent.Prelude.{
  String, ℕ, Bool, true, ◌||◌, ◌&&◌, Option, none, some, List, [], ◌∷◌, ◌==◌, leb, split,
  if◌then◌else◌,
}
use mackerel_agent.Prelude.Regex.{
  Regex, empty, one, either, few, group, sequence, exactly, some_more, some_few, up_to, match_front,
  find_match, group_text, blank_char, digit_char, hex_char, is_word_char,
}
use mackerel_agent.Spec.Interface.{
  Interface, Interfaces, set_mac_address, append_ipv4_address, append_ipv6_address, kept,
}

abbrev pub alnum_char : ℕ → Bool
alnum_char c = leb b'0' c && leb c b'9' || leb b'a' c && leb c b'z' || leb b'A' c && leb c b'Z'

-- [0-9a-zA-Z@:\.\-_]
abbrev name_char : ℕ → Bool
name_char c = alnum_char c || c == b'@' || c == b':' || c == b'.' || c == b'-' || c == b'_'

-- [a-f0-9\:]
abbrev pub address_char : ℕ → Bool
address_char c = hex_char c || c == b':'

-- \d{1,3}\.\d{1,3}\.\d{1,3}\.\d{1,3}
abbrev pub dotted : Regex
dotted =
    let part = Regex.both (one digit_char) (up_to 2 (one digit_char)) in
    sequence (part ∷ exactly "." ∷ part ∷ exactly "." ∷ part ∷ exactly "." ∷ part ∷ [])

abbrev pub ip_cmd_name_reg : Regex
ip_cmd_name_reg = sequence (
    group 1 (some_more (one digit_char))
    ∷ exactly ": "
    ∷ group 2 (few (one name_char))
    ∷ group 3 (either (sequence (exactly "@" ∷ some_more (one alnum_char) ∷ [])) empty)
    ∷ exactly ":"
    ∷ one blank_char
    ∷ [])

abbrev pub ip_cmd_encap_reg : Regex
ip_cmd_encap_reg = sequence (
    exactly "link/"
    ∷ group 1 (some_more (one is_word_char))
    ∷ exactly " "
    ∷ group 2 (some_more (one address_char))
    ∷ exactly " "
    ∷ [])

abbrev pub ip_cmd_ipv4_reg : Regex
ip_cmd_ipv4_reg = sequence (
    exactly "inet "
    ∷ group 1 dotted
    ∷ either
        (group 2 (
          sequence
            (exactly "/" ∷ group 3 (Regex.both (one digit_char) (up_to 1 (one digit_char))) ∷ [])))
        empty
    ∷ [])

abbrev pub ip_cmd_ipv6_reg : Regex
ip_cmd_ipv6_reg = sequence (
    exactly "inet6 "
    ∷ group 1 (some_more (one address_char))
    ∷ exactly "/"
    ∷ group 2 (some_more (one digit_char))
    ∷ exactly " scope "
    ∷ group 3 (some_more (one is_word_char))
    ∷ [])

abbrev pub ifconfig_name_reg : Regex
ifconfig_name_reg = sequence (group 1 (some_more (one name_char)) ∷ some_more (one blank_char) ∷ [])

abbrev pub ifconfig_mac_addr_reg : Regex
ifconfig_mac_addr_reg =
    sequence (exactly "HWaddr " ∷ group 1 (some_few (one (λ c. true))) ∷ one blank_char ∷ [])

abbrev pub ifconfig_v4_addr_reg : Regex
ifconfig_v4_addr_reg = sequence (exactly "inet addr:" ∷ group 1 dotted ∷ [])

abbrev pub ifconfig_v6_addr_reg : Regex
ifconfig_v6_addr_reg = sequence (
    exactly "inet6 addr: "
    ∷ group 1 (some_more (one address_char))
    ∷ exactly "/"
    ∷ group 2 (some_more (one digit_char))
    ∷ exactly " Scope:"
    ∷ group 3 (some_more (one is_word_char))
    ∷ [])

-- What a line does to the interfaces, under the name of the last line that had one.
abbrev pub when_matched :
    Option (List (ℕ × String)) → ℕ → (String → Interfaces → Interfaces) → Interfaces → Interfaces
when_matched none i change ifs = ifs
when_matched (some groups) i change ifs = change (group_text i groups) ifs

abbrev pub name_after : Option (List (ℕ × String)) → ℕ → String → String
name_after none i name = name
name_after (some groups) i name = group_text i groups

-- The matches of a line for the physical address, in group `i`, and for those of each version.
unfoldable pub add_matches :
    String
    → ℕ
    → Option (List (ℕ × String))
    → Option (List (ℕ × String))
    → Option (List (ℕ × String))
    → Interfaces
    → Interfaces
unfolding set_mac_address append_ipv4_address append_ipv6_address
add_matches name i mac v4 v6 ifs =
    when_matched v6 1 (append_ipv6_address name)
      (when_matched v4 1 (append_ipv4_address name) (when_matched mac i (set_mac_address name) ifs))

-- One round of the loop of generateByIPCommand: `name`, and the interfaces.
unfoldable pub on_ip_line : String → String × Interfaces → String × Interfaces
unfolding match_front find_match add_matches
on_ip_line line (name, ifs) =
    let current = name_after (match_front ip_cmd_name_reg line) 2 name in
    (
      current,
      add_matches current 2 (find_match ip_cmd_encap_reg line) (find_match ip_cmd_ipv4_reg line)
          (find_match ip_cmd_ipv6_reg line) ifs,
    )

-- One round of the loop of generateByIfconfigCommand
unfoldable pub on_ifconfig_line : String → String × Interfaces → String × Interfaces
unfolding match_front find_match add_matches
on_ifconfig_line line (name, ifs) =
    let current = name_after (match_front ifconfig_name_reg line) 1 name in
    (
      current,
      add_matches current 1 (find_match ifconfig_mac_addr_reg line)
          (find_match ifconfig_v4_addr_reg line) (find_match ifconfig_v6_addr_reg line) ifs,
    )

abbrev pub each_line :
    (String → String × Interfaces → String × Interfaces)
    → List String
    → String × Interfaces
    → Interfaces
each_line round [] (name, ifs) = ifs
each_line round (line ∷ lines) state = each_line round lines (round line state)

-- generateByIPCommand and generateByIfconfigCommand, on what the command prints.
unfoldable pub by_ip_command : String → Interfaces
unfolding on_ip_line
by_ip_command out = each_line on_ip_line (split b'\n' out) ("", [])

unfoldable pub by_ifconfig_command : String → Interfaces
unfolding on_ifconfig_line
by_ifconfig_command out = each_line on_ifconfig_line (split b'\n' out) ("", [])

-- Generate, by whether there is a command ip, and by what `ip addr` and `ifconfig -a` print unless
-- they fail.
unfoldable pub generate_interfaces :
    (String → Option Bool) → Bool → Option String → Option String → Option (List Interface)
unfolding by_ip_command by_ifconfig_command kept
generate_interfaces parse_ip has_ip ip_addr ifconfig =
    if has_ip
    then elim ip_addr [ none ↦ none | some out ↦ some (kept parse_ip (by_ip_command out)) ]
    else elim ifconfig [ none ↦ none | some out ↦ some (kept parse_ip (by_ifconfig_command out)) ]
