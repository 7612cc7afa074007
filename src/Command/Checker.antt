-- ===== src/Command/Checker.antt =====
-- The goroutine that runs one checker: `runChecker` of command/command.go. Times are nanoseconds.
pub mod View
pub mod Schedule
use mackerel_agent.Prelude.{
  String, ℕ, ◌+◌, ◌-◌, ◌%◌, Bool, true, false, not, ◌&&◌, ◌||◌, Option, none, some, List, [], ◌∷◌,
  append, leb, str_eq, if◌then◌else◌,
}
use mackerel_agent.Checks.{
  Status, undefined, status_ok, warning, critical, unknown, Report, status_string,
}
use mackerel_agent.Config.{Command}

abbrev pub status_eq : Status → Status → Bool
status_eq undefined undefined = true
status_eq status_ok status_ok = true
status_eq warning warning = true
status_eq critical critical = true
status_eq unknown unknown = true
status_eq undefined _ = false
status_eq status_ok _ = false
status_eq warning _ = false
status_eq critical _ = false
status_eq unknown _ = false

-- `lastStatus` and `lastMessage`.
pub record Last : Type 0 where
  pub last_status : Status
  pub last_message : String

unfoldable pub no_last : Last
no_last = record { last_status = undefined; last_message = "" }

-- What one round sends: the report to `checkReportCh`, if at all, and whether `reportImmediateCh` is
-- told. `action` is the environment of the checker's action, the status and the previous one.
pub record Round : Type 0 where
  pub last : Last
  pub sent : Option Report
  pub immediate : Bool
  pub action : Status × Status

-- One round, after the check.
unfoldable pub on_report : Bool → Last → Report → Round
on_report prevent_alert_auto_close last report =
    let is_ok = status_eq report.status status_ok in
    let changed = not (status_eq report.status last.last_status) in
    let now : Last = record { last_status = report.status; last_message = report.message } in
    let action : Status × Status = (report.status, last.last_status) in
    if is_ok && (not changed && str_eq report.message last.last_message)
    then record { last = last; sent = none; immediate = false; action = action }
    else if is_ok && prevent_alert_auto_close
    then record { last = now; sent = none; immediate = false; action = action }
    else record {
      last = now;
      sent = some report;
      immediate = changed && not (is_ok && status_eq last.last_status undefined);
      action = action;
    }

-- The rounds of a checker, over the reports of its checks.
unfoldable pub rounds : Bool → Last → List Report → List Round
unfolding on_report
rounds prevent last [] = []
rounds prevent last (r ∷ rs) =
    let round = on_report prevent last r in round ∷ rounds prevent round.last rs

-- The action of a checker, if it has one, with the environment that it is run with.
unfoldable pub action_run : Option Command → Status × Status → Option (Command × List String)
action_run none statuses = none
action_run (some action) (status, previous) = some (
  action,
  append "MACKEREL_STATUS=" (status_string status)
      ∷ append "MACKEREL_PREVIOUS_STATUS=" (status_string previous)
      ∷ [],
)

-- now.Sub(nextTime) % interval, where the remainder has the sign of the difference, taken from the
-- interval.
unfoldable pub next_interval : ℕ → ℕ → ℕ → ℕ
next_interval interval next_time now =
    if leb next_time now
    then interval - (now - next_time) % interval
    else interval + (next_time - now) % interval

unfoldable pub next_time : ℕ → ℕ → ℕ → ℕ
unfolding next_interval
next_time interval next now = now + next_interval interval next now
