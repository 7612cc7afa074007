-- ===== src/Util/Filesystem/Parsed.antt =====
-- A line of df is read as what df has printed (util/filesystem.go).
use mackerel_agent.Prelude.{
  String, ℕ, suc, ◌≤◌, ◌≡◌, refl, ap, false, none, some, append, is_nil, arith, if◌then◌else◌,
  print, print_decimal, cut_prefix,
}
use text.Mathlib.TextLemmas.{nil-append, cons-append}
use mackerel_agent.Util.Filesystem.{
  DfStat, is_df_blank, is_digit, blanks, column, mount_column, Columns, columns, name_and_columns,
  match_columns, max_uint64, max_uint8, parse_df_line,
}
use mackerel_agent.Util.Filesystem.Printed.{
  pad, starts, has_blank, span-none, span-pad, parse_uint-print, column-print,
}

-- A line of `df -P`, with the widths of the spaces before its columns.
abbrev pub df_line : (ℕ → ℕ) → DfStat → String
df_line width stat = append stat.name (
    pad (suc (width 1)) (
      print (suc stat.blocks) stat.blocks (
        pad (suc (width 2)) (
          print (suc stat.used) stat.used (
            pad (suc (width 3)) (
              print (suc stat.available) stat.available (
                pad (suc (width 4)) (
                  print (suc stat.capacity) stat.capacity
                    (String.◌∷◌ "%" (pad (suc (width 5)) stat.mounted))))))))))

mount_column-pad :
    (w : ℕ) (s : String)
    → is_nil s ≡ false
    → starts is_df_blank s ≡ false
    → mount_column (String.◌∷◌ "%" (pad (suc w) s)) ≡ some s
unfolding mount_column cut_prefix
mount_column-pad w s n b = ground (arith, span-pad (suc w) s b)

printed_columns : DfStat → Columns
printed_columns stat = record {
  c_blocks = print_decimal stat.blocks;
  c_used = print_decimal stat.used;
  c_available = print_decimal stat.available;
  c_capacity = print_decimal stat.capacity;
  c_mounted = stat.mounted;
}

after_name : (ℕ → ℕ) → DfStat → String
after_name width stat =
    (pad (suc (width 1)) (
      print (suc stat.blocks) stat.blocks (
        pad (suc (width 2)) (
          print (suc stat.used) stat.used (
            pad (suc (width 3)) (
              print (suc stat.available) stat.available (
                pad (suc (width 4)) (
                  print (suc stat.capacity) stat.capacity
                    (String.◌∷◌ "%" (pad (suc (width 5)) stat.mounted))))))))))

columns-after_name :
    (width : ℕ → ℕ) (stat : DfStat)
    → is_nil stat.mounted ≡ false
    → starts is_df_blank stat.mounted ≡ false
    → columns (after_name width stat) ≡ some (printed_columns stat)
unfolding columns after_name printed_columns print_decimal is_digit
columns-after_name width stat n b =
    let s4 = String.◌∷◌ "%" (pad (suc (width 5)) stat.mounted) in
    let s3 = pad (suc (width 4)) (print (suc stat.capacity) stat.capacity s4) in
    let s2 = pad (suc (width 3)) (print (suc stat.available) stat.available s3) in
    let s1 = pad (suc (width 2)) (print (suc stat.used) stat.used s2) in
    ground (
      arith,
      column-print (width 1) stat.blocks s1 refl,
      column-print (width 2) stat.used s2 refl,
      column-print (width 3) stat.available s3 refl,
      column-print (width 4) stat.capacity s4 refl,
      mount_column-pad (width 5) stat.mounted n b,
    )

blanks-none : (s : String) → starts is_df_blank s ≡ false → blanks s ≡ none
unfolding blanks
blanks-none s h = ap (λ p. if is_nil p.0 then none else some p.1) (span-none is_df_blank s h)

columns-none : (s : String) → starts is_df_blank s ≡ false → columns s ≡ none
unfolding columns column
columns-none s h = ground (arith, blanks-none s h)

-- A name without blanks ends where the first column begins.
name_and_columns-append :
    (name rest : String) (cols : Columns)
    → has_blank name ≡ false
    → columns rest ≡ some cols
    → name_and_columns (append name rest) ≡ some (name, cols)
unfolding name_and_columns
name_and_columns-append String.[] String.[] cols b h = ground (arith, columns-none "" refl)
name_and_columns-append String.[] (String.◌∷◌ d rest) cols b h =
    ground (arith, nil-append (String.◌∷◌ d rest))
name_and_columns-append (String.◌∷◌ c name) rest cols b h = ground (
  arith,
  cons-append c name rest,
  columns-none (String.◌∷◌ c (append name rest)),
  name_and_columns-append name rest cols,
)

match_columns-append :
    (name rest : String) (cols : Columns)
    → is_nil name ≡ false
    → has_blank name ≡ false
    → columns rest ≡ some cols
    → match_columns (append name rest) ≡ some (name, cols)
unfolding match_columns
match_columns-append String.[] rest cols n b h = cc
match_columns-append (String.◌∷◌ c name) rest cols n b h =
    ground (arith, cons-append c name rest, name_and_columns-append name rest cols)

-- A line that df prints for a filesystem is read as that filesystem, whatever the widths of its
-- columns: where the name is not empty and has no blanks, the place of the mount is not empty and
-- does not begin with a blank, and the numbers fit in 64 bits, the percentage in 8.
pub parse_df_line-df_line :
    (width : ℕ → ℕ) (stat : DfStat)
    → is_nil stat.name ≡ false
    → has_blank stat.name ≡ false
    → is_nil stat.mounted ≡ false
    → starts is_df_blank stat.mounted ≡ false
    → stat.blocks ≤ max_uint64
    → stat.used ≤ max_uint64
    → stat.available ≤ max_uint64
    → stat.capacity ≤ max_uint8
    → parse_df_line (df_line width stat) ≡ some stat
unfolding parse_df_line after_name printed_columns print_decimal
parse_df_line-df_line width stat n nb m mb bl us av ca = ground (
  arith,
  match_columns-append stat.name (after_name width stat) (printed_columns stat) n nb
      (columns-after_name width stat m mb),
  parse_uint-print max_uint64 stat.blocks bl,
  parse_uint-print max_uint64 stat.used us,
  parse_uint-print max_uint64 stat.available av,
  parse_uint-print max_uint8 stat.capacity ca,
)
