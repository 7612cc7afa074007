-- ===== src/Cmdutil.antt =====
-- The package cmdutil (cmdutil/cmdutil.go), which runs the commands of plugins and actions, and the
-- methods of `Command` in config/config.go that call it. `windows` is `runtime.GOOS == "windows"`.
-- A duration is an int64 of nanoseconds.
pub mod Outcomes
use mackerel_agent.Prelude.{
  String, ℕ, Bool, true, false, not, ◌&&◌, ◌||◌, Option, none, some, List, [], ◌∷◌, ◌++◌, is_nil,
  is_empty, trim_right, ◌==◌, if◌then◌else◌, Result, ok, err,
}
use mackerel_agent.Prelude.Int.{ℤ, pos, negsuc}
use mackerel_agent.Config.{Command}

abbrev pub default_timeout_duration : ℤ
default_timeout_duration = pos 30000000000

abbrev pub timeout_kill_after : ℤ
timeout_kill_after = pos 10000000000

-- cmdBase, as `init` leaves it.
unfoldable pub cmd_base : Bool → List String
cmd_base windows = if windows then "cmd" ∷ "/U" ∷ "/c" ∷ [] else "sh" ∷ "-c" ∷ []

pub record CommandOption : Type 0 where
  pub user : String
  pub env : List String
  pub timeout_duration : ℤ

-- What is handed to the package timeout: the arguments of the process, its environment, and its
-- time limits.
pub record Invocation : Type 0 where
  pub args : List String
  pub environment : List String
  pub duration : ℤ
  pub kill_after : ℤ

abbrev is_zero : ℤ → Bool
is_zero (pos n) = n == 0
is_zero (negsuc n) = false

-- RunCommandArgsContext, up to the run. `environ` is os.Environ().
unfoldable pub invoke_args : Bool → List String → List String → CommandOption → Invocation
invoke_args windows environ cmd_args opt = record {
  args = if is_nil opt.user || windows then cmd_args else "sudo" ∷ "-Eu" ∷ opt.user ∷ cmd_args;
  environment = environ ++ opt.env;
  duration =
      if is_zero opt.timeout_duration then default_timeout_duration else opt.timeout_duration;
  kill_after = timeout_kill_after;
}

-- RunCommandContext, up to the run.
unfoldable pub invoke : Bool → List String → String → CommandOption → Invocation
unfolding cmd_base invoke_args
invoke windows environ command opt =
    let trimmed = if windows then trim_right (λ c. c == 13 || c == 10) command else command in
    invoke_args windows environ (cmd_base windows ++ trimmed ∷ []) opt

-- (cmd *Command) RunWithEnv, and Run where the environment is empty.
unfoldable pub run_with_env : Bool → List String → Command → List String → Invocation
unfolding invoke_args invoke
run_with_env windows environ cmd env =
    let opt : CommandOption = record {
      user = cmd.user;
      env = cmd.env ++ env;
      timeout_duration = cmd.timeout_duration;
    } in
    if is_empty cmd.args
    then invoke windows environ cmd.cmd opt
    else invoke_args windows environ cmd.args opt

-- timeout.ExitStatus, as far as it is read.
pub record ExitStatus : Type 0 where
  pub is_timed_out : Bool
  pub signaled : Bool
  pub child_exit_code : ℤ

-- The errors of the run: `*timeout.Error` with its exit code, another error, or errTimedOut.
pub data RunError : Type 0 where
  timeout_error : ℤ → RunError
  other_error : RunError
  timed_out : RunError

abbrev pub no_exit_code : ℤ
no_exit_code = negsuc 0

-- The exit code and the error that RunCommandArgsContext makes of what `tio.RunContext` returns.
unfoldable pub run_outcome : Bool → Result RunError ExitStatus → ℤ × Option RunError
run_outcome windows (err (timeout_error code)) = (code, some (timeout_error code))
run_outcome windows (err e) = (no_exit_code, some e)
run_outcome windows (ok exit_status) =
    if exit_status.is_timed_out && (windows || exit_status.signaled)
    then (exit_status.child_exit_code, some timed_out)
    else (exit_status.child_exit_code, none)
