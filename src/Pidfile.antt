-- ===== src/Pidfile.antt =====
-- The package pidfile (pidfile/pidfile.go): a file that holds the number of the process that runs, so
-- that no second agent is started.
pub mod Exclusive
use mackerel_agent.Prelude.{
  print_decimal, String, ℕ, zero, suc, ◌+◌, ◌-◌, ◌*◌, ◌/◌, ◌%◌, Bool, true, false, not, ◌&&◌, ◌||◌,
  Option, none, some, Dict, lookup, insert, erase, is_nil, is_some, Char, code, ◌==◌, leb, ltb,
  str_eq, if◌then◌else◌, Result, ok, err,
}
use mackerel_agent.Prelude.Int.{ℤ, pos, negsuc}

-- A text of digits read in base ten, after the value of those before it.
unfoldable pub digits : ℕ → String → Option ℕ
digits n String.[] = some n
digits n (String.◌∷◌ c s) =
    let rest = digits (n * 10 + (code c - b'0')) s in
    if leb b'0' (code c) && leb (code c) b'9' then rest else none

abbrev to_int : Bool → Option ℕ → Option ℤ
to_int negative none = none
to_int false (some n) = if ltb n 9223372036854775808 then some (pos n) else none
to_int true (some zero) = some (pos 0)
to_int true (some (suc n)) = if ltb n 9223372036854775808 then some (negsuc n) else none

-- strconv.Atoi
unfoldable pub atoi : String → Option ℤ
unfolding digits
atoi String.[] = none
atoi (String.◌∷◌ c s) =
    if code c == b'-' || code c == b'+'
    then (if is_nil s then none else to_int (code c == b'-') (digits 0 s))
    else to_int false (digits 0 (String.◌∷◌ c s))

-- The process that asks, and the machine it runs on: `cmd_name` is GetCmdName, and `made` and
-- `created` tell whether the directory can be made, and the file made and written.
pub record Process : Type 0 where
  pub pid : ℕ
  pub program : String
  pub cmd_name : ℤ → String
  pub made : Bool
  pub created : Bool

pub data PidfileError : Type 0 where
  found not_made not_created not_removed : PidfileError

-- From `os.MkdirAll` on.
unfoldable pub write_pid : Process → String → Dict String → Result PidfileError (Dict String)
unfolding print_decimal
write_pid p f files =
    if p.made
    then (if p.created then ok (insert f (print_decimal p.pid) files) else err not_created)
    else err not_made

abbrev same_pid : ℕ → ℤ → Bool
same_pid own (pos n) = n == own
same_pid own (negsuc n) = false

-- A pidfile that holds a number.
abbrev check_running : Process → String → Dict String → ℤ → Result PidfileError (Dict String)
check_running p f files pid =
    if same_pid p.pid pid
    then ok files
    else if str_eq (p.cmd_name pid) p.program
    then err found
    else write_pid p f files

-- Create: the files after it, or the error.
unfoldable pub create : Process → String → Dict String → Result PidfileError (Dict String)
unfolding write_pid atoi
create p f files = if is_nil f then ok files else elim (lookup f files) [
  | none ↦ write_pid p f files
  | some content ↦ elim (atoi content) [
    | none ↦ write_pid p f files
    | some pid ↦ check_running p f files pid
  ]
]

-- Remove, where `os.Remove` can take the file away if `removes` and the file is there.
unfoldable pub remove : Bool → String → Dict String → Result PidfileError (Dict String)
remove removes f files =
    if is_nil f
    then ok files
    else if removes && is_some (lookup f files)
    then ok (erase f files)
    else err not_removed
