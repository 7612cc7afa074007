-- ===== src/Tests/Df.antt =====
-- Lines of df (util/filesystem.go), as in util/filesystem_test.go.
use mackerel_agent.Prelude.{
  ◌≡◌, refl, false, some, [], ◌∷◌, map, ◌*◌, arith, cut_prefix, scan_lines, contains_text,
}
use mackerel_agent.Util.Filesystem.{
  DfStat, is_df_blank, parse_df_line, parse_df_lines, parse_uint, max_uint8,
}
use mackerel_agent.Util.Filesystem.Parsed.{df_line, parse_df_line-df_line}

sda1 :
    parse_df_line "/dev/sda1          19734388 16868164   1863772        91% /"
    ≡ some (record {
      name = "/dev/sda1";
      blocks = 19734388;
      used = 16868164;
      available = 1863772;
      capacity = 91;
      mounted = "/";
    })
unfolding parse_df_line cut_prefix
sda1 = refl

df_names :
    map
      (λ s. s.mounted)
      (parse_df_lines false
        "Filesystem  1024-blocks     Used Available Capacity Mounted on\n/dev/sda1 19734388 16868164 1863772 91% /\n/dev/dm-4  10474496 149684 10324812 2% /var/lib/docker/devicemapper/mnt/11111\nhomes x:/a b   517224 0  517224  0% /a b\n")
    ≡ "/" ∷ "/a b" ∷ []
unfolding parse_df_lines scan_lines cut_prefix contains_text
df_names = refl

-- A number that begins with 0 is octal, and one with the digits 8 or 9 is then none.
octal : parse_uint max_uint8 "010" ≡ 8
unfolding parse_uint
octal = refl

no_octal : parse_uint max_uint8 "08" ≡ 0
unfolding parse_uint
no_octal = refl

limited : parse_uint max_uint8 "300" ≡ 255
unfolding parse_uint
limited = refl

abbrev root_stat : DfStat
root_stat = record {
  name = "/dev/sda1";
  blocks = 19734388;
  used = 0;
  available = 18446744073709551615;
  capacity = 91;
  mounted = "/a b";
}

parse_df_line-df_line_example : parse_df_line (df_line (λ i. i * 3) root_stat) ≡ some root_stat
unfolding is_df_blank
parse_df_line-df_line_example =
    parse_df_line-df_line (λ i. i * 3) root_stat refl refl refl refl (omega arith) (omega arith)
      (omega arith) (omega arith)
