-- ===== src/Cmdutil/Outcomes.antt =====
-- How a command of the configuration is run (cmdutil/cmdutil.go, config/config.go).
use mackerel_agent.Prelude.{
  String, zero, false, ◌≡◌, List, [], ◌∷◌, ◌++◌, is_nil, is_empty, arith, if◌then◌else◌,
}
use mackerel_agent.Prelude.Int.{ℤ, pos}
use mackerel_agent.Config.{Command}
use mackerel_agent.Cmdutil.{cmd_base, run_with_env, invoke, invoke_args, default_timeout_duration}

-- The arguments of a command that is not for Windows: its own, or a shell with its text.
abbrev pub own_args : Command → List String
own_args cmd = if is_empty cmd.args then "sh" ∷ "-c" ∷ cmd.cmd ∷ [] else cmd.args

abbrev pub with_sudo : String → List String → List String
with_sudo user args = if is_nil user then args else "sudo" ∷ "-Eu" ∷ user ∷ args

abbrev pub or_default_duration : ℤ → ℤ
or_default_duration (pos zero) = default_timeout_duration
or_default_duration d = d

-- Outside Windows, a command runs its arguments, or its text by a shell where it has none; with
-- sudo for a user where it has one; with the environment of the agent, then that of the
-- configuration, then that of the caller; and within its time limit, or 30 seconds where it has
-- none.
pub run_with_env_lem :
    (environ env : List String) (cmd : Command)
    → ((run_with_env false environ cmd env).args ≡ with_sudo cmd.user (own_args cmd))
      × ((run_with_env false environ cmd env).environment ≡ environ ++ (cmd.env ++ env))
      × ((run_with_env false environ cmd env).duration ≡ or_default_duration cmd.timeout_duration)
unfolding run_with_env invoke invoke_args cmd_base
run_with_env_lem environ env cmd = ground arith
