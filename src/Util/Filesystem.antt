-- ===== src/Util/Filesystem.antt =====
-- Disk usage by the command df (util/filesystem.go): which options it gets, and what its lines mean.
pub mod Printed
pub mod Parsed
use mackerel_agent.Prelude.{
  String, ℕ, suc, ◌+◌, ◌-◌, ◌*◌, ◌%◌, ◌^◌, Bool, true, false, not, ◌&&◌, ◌||◌, Option, none, some,
  List, [], ◌∷◌, ◌++◌, code, ◌==◌, leb, ltb, is_nil, is_some, str_eq, cut_prefix, contains_text,
  scan_lines, if◌then◌else◌,
}

pub record DfStat : Type 0 where
  pub name : String
  pub blocks : ℕ
  pub used : ℕ
  pub available : ℕ
  pub capacity : ℕ
  pub mounted : String

-- What a command that ran has returned, as far as it is read.
pub record DfRun : Type 0 where
  pub exit_code : ℕ
  pub stdout : String
  pub stderr : String

-- `init`: the option for df, by a first run of it with the default option, if it could be run.
unfoldable pub df_opt : Option DfRun → String
df_opt none = "-Pkl"
df_opt (some ran) =
    if not (ran.exit_code == 0)
      && (contains_text ran.stderr "df: invalid option -- "
          || contains_text ran.stderr "df: unrecognized option: ")
    then "-k"
    else "-Pkl"

-- The classes \s and \d.
unfoldable pub is_df_blank : ℕ → Bool
is_df_blank c = c == 9 || c == 10 || c == 12 || c == 13 || c == 32

unfoldable pub is_digit : ℕ → Bool
is_digit c = leb b'0' c && leb c b'9'

-- The longest front of a text whose characters pass a test, and what follows it.
unfoldable pub span : (ℕ → Bool) → String → String × String
span test String.[] = (String.[], String.[])
span test (String.◌∷◌ c s) =
    let (front, rest) = span test s in
    if test (code c) then (String.◌∷◌ c front, rest) else (String.[], String.◌∷◌ c s)

-- \s+ before a text that does not begin with a blank, and what follows it.
unfoldable pub blanks : String → Option String
unfolding span is_df_blank
blanks s = let (front, rest) = span is_df_blank s in if is_nil front then none else some rest

-- (\d+) before a text that does not begin with a digit
unfoldable pub number : String → Option (String × String)
unfolding span is_digit
number s = let (front, rest) = span is_digit s in if is_nil front then none else some (front, rest)

-- \s+(\d+)
unfoldable pub column : String → Option (String × String)
unfolding blanks number
column s = elim (blanks s) [ none ↦ none | some rest ↦ number rest ]

-- The last character of a text of blanks, if it has two.
unfoldable pub last_blank : String → Option String
last_blank String.[] = none
last_blank (String.◌∷◌ c String.[]) = none
last_blank (String.◌∷◌ c (String.◌∷◌ d String.[])) = some (String.◌∷◌ d String.[])
last_blank (String.◌∷◌ c (String.◌∷◌ d (String.◌∷◌ e s))) =
    last_blank (String.◌∷◌ d (String.◌∷◌ e s))

-- %\s+(.+)$ at the end of a line, which has no newline: where only blanks follow, the last of them is
-- what is mounted.
unfoldable pub mount_column : String → Option String
unfolding span is_df_blank last_blank
mount_column s = elim (cut_prefix "%" s) [
  | none ↦ none
  | some t ↦
      let (front, rest) = span is_df_blank t in
      if is_nil front then none else if is_nil rest then last_blank front else some rest
]

-- The texts of the groups of dfColumnsPattern after the first.
pub record Columns : Type 0 where
  pub c_blocks : String
  pub c_used : String
  pub c_available : String
  pub c_capacity : String
  pub c_mounted : String

-- \s+(\d+)\s+(\d+)\s+(\d+)\s+(\d+)%\s+(.+)$
unfoldable pub columns : String → Option Columns
unfolding column mount_column
columns s = elim (column s) [
  | none ↦ none
  | some (blocks, s1) ↦ elim (column s1) [
    | none ↦ none
    | some (used, s2) ↦ elim (column s2) [
      | none ↦ none
      | some (available, s3) ↦ elim (column s3) [
        | none ↦ none
        | some (capacity, s4) ↦ elim (mount_column s4) [
          | none ↦ none
          | some mounted ↦ some (record {
            c_blocks = blocks;
            c_used = used;
            c_available = available;
            c_capacity = capacity;
            c_mounted = mounted;
          })
        ]
      ]
    ]
  ]
]

-- (.+?) and what follows it, where the group has matched a character already: it takes as few
-- more as it can.
unfoldable pub name_and_columns : String → Option (String × Columns)
unfolding columns
name_and_columns String.[] = none
name_and_columns (String.◌∷◌ c s) =
    let later = name_and_columns s in
    elim (columns (String.◌∷◌ c s)) [
      | some cols ↦ some (String.[], cols)
      | none ↦ elim later [ none ↦ none | some (name, cols) ↦ some (String.◌∷◌ c name, cols) ]
    ]

-- dfColumnsPattern.FindStringSubmatch
unfoldable pub match_columns : String → Option (String × Columns)
unfolding name_and_columns
match_columns String.[] = none
match_columns (String.◌∷◌ c s) = elim (name_and_columns s) [
  | none ↦ none
  | some (name, cols) ↦ some (String.◌∷◌ c name, cols)
]

-- A text of digits in a base of at most ten, after the value of those before it: 0 at a digit that
-- the base does not have, and the limit where the value is above it.
unfoldable pub uint_digits : ℕ → ℕ → ℕ → String → ℕ
uint_digits base limit n String.[] = n
uint_digits base limit n (String.◌∷◌ c s) =
    let d = code c - b'0' in
    let rest = uint_digits base limit (n * base + d) s in
    if leb base d then 0 else if ltb limit (n * base + d) then limit else rest

-- strconv.ParseUint(s, 0, bits) of a text of digits, its error ignored: a text that begins with 0 is
-- octal.
unfoldable pub parse_uint : ℕ → String → ℕ
unfolding uint_digits
parse_uint limit String.[] = 0
parse_uint limit (String.◌∷◌ c s) =
    if code c == b'0' then uint_digits 8 limit 0 s else uint_digits 10 limit 0 (String.◌∷◌ c s)

abbrev pub max_uint64 : ℕ
max_uint64 = 18446744073709551615

abbrev pub max_uint8 : ℕ
max_uint8 = 255

-- parseDfLine, with no error
unfoldable pub parse_df_line : String → Option DfStat
unfolding match_columns parse_uint
parse_df_line line = elim (match_columns line) [
  | none ↦ none
  | some (name, cols) ↦ some (record {
    name = name;
    blocks = parse_uint max_uint64 cols.c_blocks;
    used = parse_uint max_uint64 cols.c_used;
    available = parse_uint max_uint64 cols.c_available;
    capacity = parse_uint max_uint8 cols.c_capacity;
    mounted = cols.c_mounted;
  })
]

-- dfHeaderPattern.MatchString
unfoldable pub is_df_header : String → Bool
unfolding blanks
is_df_header line = elim (cut_prefix "Filesystem" line) [
  | none ↦ false
  | some s ↦ elim (blanks s) [
    | none ↦ false
    | some t ↦
        is_some (cut_prefix "1024-block" t)
        || is_some (cut_prefix "1K-block" t)
        || is_some (cut_prefix "1k-block" t)
  ]
]

-- The devices of docker are passed over.
unfoldable pub is_docker : DfStat → Bool
is_docker dfstat =
    is_some (cut_prefix "/dev/mapper/docker-" dfstat.name)
    || is_some (cut_prefix "/dev/dm-" dfstat.name)
      && contains_text dfstat.mounted "devicemapper/mnt"

-- The usage of the partition for virtual memory is added to that of the first root filesystem.
unfoldable pub add_to_root : ℕ → List DfStat → List DfStat
add_to_root used [] = []
add_to_root used (fs ∷ filesystems) =
    let rest = add_to_root used filesystems in
    if str_eq fs.mounted "/"
    then record fs { used = (fs.used + used) % 2 ^ 64 } ∷ filesystems
    else fs ∷ rest

-- What a line with a filesystem adds. The first argument is `runtime.GOOS == "darwin"`.
unfoldable pub add_df_stat : Bool → List DfStat → DfStat → List DfStat
unfolding is_docker add_to_root
add_df_stat darwin filesystems dfstat =
    if is_docker dfstat
    then filesystems
    else if darwin && is_some (cut_prefix "/Volumes/" dfstat.mounted)
    then filesystems
    else if darwin && str_eq dfstat.mounted "/private/var/vm"
    then add_to_root dfstat.used filesystems
    else filesystems ++ dfstat ∷ []

-- One line of the loop of parseDfLines.
unfoldable pub add_df_line : Bool → List DfStat → String → List DfStat
unfolding is_df_header add_df_stat parse_df_line
add_df_line darwin filesystems line =
    if is_df_header line then filesystems else elim (parse_df_line line) [
      | none ↦ filesystems
      | some dfstat ↦ add_df_stat darwin filesystems dfstat
    ]

unfoldable pub add_df_lines : Bool → List DfStat → List String → List DfStat
unfolding add_df_line
add_df_lines darwin filesystems [] = filesystems
add_df_lines darwin filesystems (line ∷ lines) =
    add_df_lines darwin (add_df_line darwin filesystems line) lines

-- parseDfLines
unfoldable pub parse_df_lines : Bool → String → List DfStat
unfolding add_df_lines
parse_df_lines darwin out = add_df_lines darwin [] (scan_lines out)

-- CollectDfValues, by what df returns if it can be run.
unfoldable pub collect_df_values : Bool → Option DfRun → List DfStat
unfolding parse_df_lines
collect_df_values darwin none = []
collect_df_values darwin (some ran) =
    if ran.exit_code == 0 then parse_df_lines darwin ran.stdout else []
