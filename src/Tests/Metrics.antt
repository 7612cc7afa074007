-- ===== src/Tests/Metrics.antt =====
-- The output of a plugin, and the counters of an interface (metrics/plugin.go,
-- metrics/interface.go), on concrete data.
use mackerel_agent.Prelude.{
  leb, ◌-◌, IsMap, ℕ, String, ◌≡◌, refl, none, some, [], ◌∷◌, Dict, insert, lookup, split,
  cut_prefix, if◌then◌else◌, str_eq, fields,
}
use mackerel_agent.Config.{MetricPlugin}
use mackerel_agent.Prelude.Int.{pos}
use mackerel_agent.Metrics.{Values}
use mackerel_agent.Metrics.Plugin.{Parser, collect_values}
use mackerel_agent.Metrics.Disk
use mackerel_agent.Metrics.Disk.{is_posted, add_rates}
use mackerel_agent.Metrics.Interface.{Float}

-- The only float is "5"; a pattern matches itself.
abbrev parser : Parser ℕ String
parser = record { parse_float = λ s. if str_eq s "5" then some 5 else none; matches = str_eq }

abbrev dice : MetricPlugin String
dice = record {
  command = record { cmd = "dice"; args = []; user = ""; env = []; timeout_duration = pos 0 };
  custom_identifier = none;
  include_pattern = none;
  exclude_pattern = some "noise";
}

abbrev output : String
output = "dice.d6 5 1397031808\nnoise 5 1397031808\ndice.d20 x 1397031808\n"

abbrev values : Values ℕ
values = ("custom.dice.d6", 5) ∷ []

collected : collect_values parser dice (some output) ≡ some values
unfolding collect_values split fields insert
collected = refl

other_name : cut_prefix "custom." "cpu" ≡ none
unfolding cut_prefix
other_name = refl

abbrev floats : Float ℕ
floats = record { of_uint64 = λ n. n; per_second = λ n. n }

abbrev earlier : Dict ℕ
earlier = ("interface.eth0.rxBytes", 100) ∷ []

abbrev later : Dict ℕ
later = ("interface.eth0.rxBytes", 160) ∷ []

abbrev numbers : Disk.Float ℕ
numbers = record {
  parse_float = λ s. if str_eq s "0" then some 0 else some 9;
  is_zero = λ n. str_eq "0" (if leb n 0 then "0" else "1");
  rate = λ now prev. now - prev;
}

abbrev reads_before : Values ℕ
reads_before = ("disk.sda.reads", 100) ∷ ("disk.sda.ioTime", 7) ∷ []

abbrev reads_after : Values ℕ
reads_after = ("disk.sda.reads", 160) ∷ ("disk.sda.ioTime", 9) ∷ []

reads_IsMap : IsMap reads_before
unfolding lookup
reads_IsMap = (refl, (refl, tt))
