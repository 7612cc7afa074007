-- ===== src/Command/Checker/View.antt =====
-- What a checker reports of its checks (command/command.go).
use mackerel_agent.Prelude.{
  Bool, true, false, none, some, List, [], ◌∷◌, eq_iff, ◌≡◌, ◌↔◌, refl, arith, if◌then◌else◌, ◌≢◌,
}
use mackerel_agent.Checks.{Status, undefined, status_ok, Report}
use mackerel_agent.Command.Checker.{Last, Round, on_report, rounds, status_eq}

status_eq_iff : (a b : Status) → (status_eq a b ≡ true) ↔ (a ≡ b)
status_eq_iff a b = ground arith

abbrev view_of : Report → Last
view_of r = record { last_status = r.status; last_message = r.message }

-- Status and message of the report that was sent to `checkReportCh` last, if `view` is those of the
-- one before.
abbrev pub last_sent : Last → List Round → Last
last_sent view [] = view
last_sent view (round ∷ rest) = elim round.sent [
  | none ↦ last_sent view rest
  | some r ↦ last_sent (view_of r) rest
]

-- Status and message of the latest check, if `view` are those before.
abbrev pub latest : Last → List Report → Last
latest view [] = view
latest view (r ∷ rs) = latest (view_of r) rs

abbrev pub without_ok : List Report → List Report
without_ok [] = []
without_ok (r ∷ rs) =
    let rest = without_ok rs in if status_eq r.status status_ok then rest else r ∷ rest

-- Where alerts are closed automatically, and whatever the checks return: the report that was sent to
-- `checkReportCh` last has the status and the message of the latest check. (Where none was sent, they
-- are those from before the first round.)
pub last_sent-rounds :
    (last : Last) (rs : List Report) → last_sent last (rounds false last rs) ≡ latest last rs
unfolding rounds
last_sent-rounds last [] = refl
last_sent-rounds last (r ∷ rs) = ground (
  arith,
  last_sent-rounds (view_of r) rs,
  last_sent-rounds last rs,
  status_eq_iff r.status last.last_status,
  eq_iff r.message last.last_message,
)

-- With `prevent_alert_auto_close` the report that was sent last is that of the latest check that was
-- not OK.
pub last_sent-rounds_prevent :
    (view last : Last) (rs : List Report)
    → last_sent view (rounds true last rs) ≡ latest view (without_ok rs)
unfolding rounds
last_sent-rounds_prevent view last [] = refl
last_sent-rounds_prevent view last (r ∷ rs) = ground (
  arith,
  last_sent-rounds_prevent view last rs,
  last_sent-rounds_prevent view (view_of r) rs,
  last_sent-rounds_prevent (view_of r) (view_of r) rs,
)

-- A check that is not OK is always sent, whether alerts are closed or not, and at once exactly if its
-- status is new.
pub on_report_not_ok :
    (prevent : Bool) (last : Last) (r : Report)
    → r.status ≢ status_ok
    → ((on_report prevent last r).sent ≡ some r)
      × (((on_report prevent last r).immediate ≡ true) ↔ (r.status ≢ last.last_status))
unfolding on_report
on_report_not_ok prevent last r h = ground (arith, eq_iff r.message last.last_message)

-- Where alerts are closed, a check that is OK after one that was not is sent, and at once exactly if
-- it is not the first check.
pub on_report_recovered :
    (last : Last) (r : Report)
    → r.status ≡ status_ok
    → last.last_status ≢ status_ok
    → ((on_report false last r).sent ≡ some r)
      × (((on_report false last r).immediate ≡ true) ↔ (last.last_status ≢ undefined))
unfolding on_report
on_report_recovered last r h l = ground (arith, eq_iff r.message last.last_message)
