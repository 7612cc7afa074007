-- ===== src/Tests/Checker.antt =====
-- The goroutine of a checker on concrete reports and times (command/command.go, checks/checker.go).
use mackerel_agent.Prelude.{◌||◌, ltb, ◌*◌, ◌≡◌, false, none, some, [], ◌∷◌, arith, if◌then◌else◌}
use mackerel_agent.Prelude.Int.{pos, pos_part, ltb_ℤ}
use mackerel_agent.Checks.{Report, status_ok, critical, check_interval, minute}
use mackerel_agent.Checks.Interval.{check_interval_minutes}
use mackerel_agent.Command.Checker.{no_last, rounds}
use mackerel_agent.Command.Checker.View.{last_sent, latest, last_sent-rounds}

abbrev full : Report
full = record {
  name = "disk";
  status = critical;
  message = "full";
  occurred_at = 7;
  notification_interval = some (pos 5);
  max_check_attempts = none;
  custom_identifier = none;
}

abbrev fine : Report
fine = record full { status = status_ok; message = "fine" }

last_sent-rounds_example :
    last_sent no_last (rounds false no_last (full ∷ fine ∷ fine ∷ []))
    ≡ latest no_last (full ∷ fine ∷ fine ∷ [])
last_sent-rounds_example = last_sent-rounds no_last (full ∷ fine ∷ fine ∷ [])

check_interval_minutes_example : check_interval (some (pos 200000000)) ≡ (
    if ltb_ℤ (pos 200000000) (pos 1) || ltb 153722867 (pos_part (pos 200000000))
    then pos minute
    else if ltb_ℤ (pos 60) (pos 200000000)
    then pos (60 * minute)
    else pos (pos_part (pos 200000000) * minute))
check_interval_minutes_example = check_interval_minutes (pos 200000000) (omega arith) (omega arith)
