-- ===== src/Tests/Bsd.antt =====
-- What the commands of Darwin and of the BSD systems print (metrics/darwin, metrics/freebsd,
-- spec/darwin), on concrete outputs.
use mackerel_agent.Prelude.{
  String, ℕ, ◌*◌, ◌≡◌, refl, false, Option, none, some, [], ◌∷◌, scan_lines, cut_at, trim_space,
  fields, split, insert, lookup, has_char, trim_prefix, print_decimal,
}
use mackerel_agent.Pidfile.{digits}
use mackerel_agent.Metrics.Bsd.{Float, parse_iostat_output, generate_bsd_cpu_usage}
use mackerel_agent.Metrics.Bsd.Top.{without_comma, get_value, generate_freebsd_memory}
use mackerel_agent.Spec.Bsd.{parse_sys_ctl, generate_sysctl_memory, darwin_interfaces}

abbrev number : String → Option ℕ
unfolding digits
number text = digits 0 text

-- Natural numbers in place of floats.
abbrev float : Float ℕ
float = record { parse_float = number; times = λ v unit. v * unit }

iostat_darwin :
    parse_iostat_output float
      "      cpu    load average\n us sy id   1m   5m   15m\n 19  9 72  2.50 3.04 3.20\n 16 12 72  2.50 3.04 3.20\n"
    ≡ some (
        ("cpu.user.percentage", 16)
        ∷ ("cpu.system.percentage", 12)
        ∷ ("cpu.idle.percentage", 72)
        ∷ [])
unfolding parse_iostat_output split fields number insert
iostat_darwin = refl

iostat_freebsd :
    generate_bsd_cpu_usage float
      (some "           cpu\nus ni sy in id\n 3 21  4  1 71\n 0  0  4  0 96\n")
    ≡ some (
        ("cpu.user.percentage", 0)
        ∷ ("cpu.nice.percentage", 0)
        ∷ ("cpu.system.percentage", 4)
        ∷ ("cpu.idle.percentage", 96)
        ∷ [])
unfolding generate_bsd_cpu_usage split fields number insert
iostat_freebsd = refl

top_freebsd :
    generate_freebsd_memory float false
      "Mem: 17M Active, 2K Cache, 1G Free\nSwap: 4G Total, 3G Free\n"
      (some "2048\n")
    ≡ some (
        some (
          ("memory.cached", 2048)
          ∷ ("memory.free", 1073741824)
          ∷ ("memory.swap_total", 4294967296)
          ∷ ("memory.swap_free", 3221225472)
          ∷ ("memory.total", 2048)
          ∷ []))
unfolding generate_freebsd_memory split fields has_char number trim_space lookup without_comma
    insert
top_freebsd = refl

value_panics : get_value float "1.5G" ≡ none
unfolding get_value
value_panics = refl

sysctl_darwin :
    parse_sys_ctl "machdep.cpu.vendor: GenuineIntel\nmachdep.cpu.core_count: 4\nother: 1\n"
    ≡ ("vendor_id", "GenuineIntel") ∷ ("cores", "4") ∷ []
unfolding parse_sys_ctl scan_lines cut_at lookup trim_prefix trim_space insert
sysctl_darwin = refl

memsize : generate_sysctl_memory (some "8589934592\n") ≡ some (("total", "8388608kB") ∷ [])
unfolding generate_sysctl_memory trim_space print_decimal
memsize = refl

ifconfig_darwin :
    darwin_interfaces
      "en0: flags=8863<UP> mtu 1500\n\tether 10:93:00:00:00:00\n\tinet 10.0.3.1 netmask 0xffffff00 broadcast 10.0.3.255\n"
    ≡ (
      "en0",
      record {
        name = "en0";
        ipv4_addresses = "10.0.3.1" ∷ [];
        ipv6_addresses = [];
        mac_address = "10:93:00:00:00:00";
      },
    )
      ∷ []
unfolding darwin_interfaces scan_lines insert lookup
ifconfig_darwin = refl
