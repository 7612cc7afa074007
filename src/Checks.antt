-- ===== src/Checks.antt =====
-- The package checks (checks/checker.go): a checker runs its command and makes a report of it.
pub mod Interval
use mackerel_agent.Prelude.{String, ℕ, zero, suc, ◌*◌, Bool, Option, none, some, if◌then◌else◌}
use mackerel_agent.Prelude.Int.{ℤ, pos, negsuc, ltb_ℤ, scale, wrap_int64}
use mackerel_agent.Config.{CheckPlugin}

pub data Status : Type 0 where
  undefined status_ok warning critical unknown : Status

-- The constants of Status.
abbrev pub status_string : Status → String
status_string undefined = ""
status_string status_ok = "OK"
status_string warning = "WARNING"
status_string critical = "CRITICAL"
status_string unknown = "UNKNOWN"

-- exitCodeToStatus
unfoldable pub exit_code_to_status : ℤ → Option Status
exit_code_to_status (pos zero) = some status_ok
exit_code_to_status (pos (suc zero)) = some warning
exit_code_to_status (pos (suc (suc zero))) = some critical
exit_code_to_status (pos (suc (suc (suc zero)))) = some unknown
exit_code_to_status (pos (suc (suc (suc (suc n))))) = none
exit_code_to_status (negsuc n) = none

pub record Checker : Type 0 where
  pub name : String
  pub config : CheckPlugin

-- `occurred_at` is in seconds.
pub record Report : Type 0 where
  pub name : String
  pub status : Status
  pub message : String
  pub occurred_at : ℕ
  pub notification_interval : Option ℤ
  pub max_check_attempts : Option ℤ
  pub custom_identifier : Option String

-- What `c.Config.Command.Run()` returns: the output and the exit code, or an error.
pub data Ran : Type 0 where
  exited : String → ℤ → Ran
  not_run : String → Ran

abbrev pub or_unknown : Option Status → Status
or_unknown none = unknown
or_unknown (some s) = s

unfoldable pub status_of : Ran → Status
unfolding exit_code_to_status
status_of (not_run e) = unknown
status_of (exited message code) = or_unknown (exit_code_to_status code)

unfoldable pub message_of : Ran → String
message_of (not_run e) = e
message_of (exited message code) = message

-- (c *Checker) Check
unfoldable pub check : Checker → ℕ → Ran → Report
unfolding status_of message_of
check c now ran = record {
  name = c.name;
  status = status_of ran;
  message = message_of ran;
  occurred_at = now;
  notification_interval = c.config.notification_interval;
  max_check_attempts = c.config.max_check_attempts;
  custom_identifier = c.config.custom_identifier;
}

-- A minute in nanoseconds.
abbrev pub minute : ℕ
minute = 60000000000

-- The bounds that `Interval` sets: one minute and sixty.
unfoldable pub clamp_interval : ℤ → ℤ
clamp_interval interval =
    if ltb_ℤ interval (pos minute)
    then pos minute
    else if ltb_ℤ (pos (60 * minute)) interval
    then pos (60 * minute)
    else interval

-- (c *Checker) Interval: the product is that of int64 values.
unfoldable pub check_interval : Option ℤ → ℤ
unfolding clamp_interval wrap_int64
check_interval none = pos minute
check_interval (some n) = clamp_interval (wrap_int64 (scale n minute))
