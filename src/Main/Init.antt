-- ===== src/Main/Init.antt =====
-- The command `init` (do_init.go, and doInit of commands.go): the configuration file gets an API key.
pub mod Kept
use mackerel_agent.Prelude.{
  String, ℕ, zero, suc, ◌/◌, ◌%◌, append, Bool, true, false, ◌||◌, Option, none, some, List, [],
  ◌∷◌, Char, Dict, lookup, insert, is_nil, is_some, code, ◌==◌, ltb, hex_digit, if◌then◌else◌,
  Result, ok, err, ◌>>=◌,
}
use Prim.Native.String
use mackerel_agent.Config.{Config, ConfigError}
use mackerel_agent.Config.Load.{Loader, load_config}

-- A number in hexadecimal digits, as many as the first argument says, before a text.
unfoldable pub hex_digits : ℕ → ℕ → String → String
unfolding hex_digit
hex_digits zero n s = s
hex_digits (suc k) n s = hex_digits k (n / 16) (String.◌∷◌ (hex_digit (n % 16)) s)

-- A character as strconv.Quote writes it, before a text. `is_print` is strconv.IsPrint.
unfoldable pub quote_rune : (ℕ → Bool) → Char → String → String
unfolding hex_digits
quote_rune is_print c s =
    if code c == b'"'
    then append "\\\"" s
    else if code c == b'\\'
    then append "\\\\" s
    else if is_print (code c)
    then String.◌∷◌ c s
    else if code c == 7
    then append "\\a" s
    else if code c == 8
    then append "\\b" s
    else if code c == 12
    then append "\\f" s
    else if code c == 10
    then append "\\n" s
    else if code c == 13
    then append "\\r" s
    else if code c == 9
    then append "\\t" s
    else if code c == 11
    then append "\\v" s
    else if ltb (code c) 32 || code c == 127
    then append "\\x" (hex_digits 2 (code c) s)
    else if ltb (code c) 65536
    then append "\\u" (hex_digits 4 (code c) s)
    else append "\\U" (hex_digits 8 (code c) s)

unfoldable pub quote_runes : (ℕ → Bool) → String → String → String
unfolding quote_rune
quote_runes is_print String.[] after = after
quote_runes is_print (String.◌∷◌ c s) after = quote_rune is_print c (quote_runes is_print s after)

-- fmt.Sprintf("apikey = %q\n", apikey)
unfoldable pub apikey_line : (ℕ → Bool) → String → String
unfolding quote_runes
apikey_line is_print apikey = append "apikey = \"" (quote_runes is_print apikey "\"\n")

-- What os.Stat says of the directory of the file.
pub data DirStat : Type 0 where
  dir_exists dir_missing dir_error : DirStat

-- The file system for the command: `dir` is the directory of the configuration file, which can be
-- made if `made`, and the file can be read if `readable` and written if `writable`.
pub record InitDisk : Type 0 where
  pub dir : DirStat
  pub made : Bool
  pub readable : Bool
  pub writable : Bool
  pub files : Dict String

pub data InitError : Type 0 where
  no_apikey_option no_directory : InitError
  not_loaded : ConfigError → InitError
  apikey_already_set not_read not_written : InitError

-- The directory of the file is there, or is made.
unfoldable pub make_dir : InitDisk → Bool
make_dir disk = elim disk.dir [ dir_exists ↦ true | dir_missing ↦ disk.made | dir_error ↦ false ]

unfoldable pub write_file : InitDisk → String → String → Result InitError (Dict String)
write_file disk conffile contents =
    if disk.writable then ok (insert conffile contents disk.files) else err not_written

-- `load` is config.LoadConfig on the files of the disk.
module _ {Re : Type 0} (load : Dict String → Loader Re) (is_print : ℕ → Bool) where
  -- The file exists: it must be valid and have no API key.
  unfoldable pub prepend_apikey :
      String → String → InitDisk → String → Result InitError (Dict String)
  unfolding write_file apikey_line
  prepend_apikey conffile apikey disk content = elim (load_config (load disk.files) conffile) [
    | err e ↦ err (not_loaded e)
    | ok conf ↦
        if is_nil conf.apikey
        then (if disk.readable
            then write_file disk conffile (append (apikey_line is_print apikey) content)
            else err not_read)
        else err apikey_already_set
  ]

  -- doInitialize: the files after it, or the error.
  unfoldable pub do_initialize : String → String → InitDisk → Result InitError (Dict String)
  unfolding make_dir write_file prepend_apikey apikey_line
  do_initialize conffile apikey disk =
      if is_nil apikey
      then err no_apikey_option
      else if make_dir disk
      then elim (lookup conffile disk.files) [
        | none ↦ write_file disk conffile (apikey_line is_print apikey)
        | some content ↦ prepend_apikey conffile apikey disk content
      ]
      else err no_directory

  -- doInit: an API key that is set already is no error.
  unfoldable pub do_init : String → String → InitDisk → Result InitError (Dict String)
  unfolding do_initialize
  do_init conffile apikey disk = elim (do_initialize conffile apikey disk) [
    | ok files ↦ ok files
    | err e ↦ elim e [ apikey_already_set ↦ ok disk.files | other ↦ err other ]
  ]
