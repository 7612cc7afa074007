-- ===== src/Tests/Reports.antt =====
-- Check reports in batches (command/command.go), on concrete reports.
use mathlib.Core.List.Permᴰ
use mackerel_agent.Prelude.Orders.{IsOrder}
use mackerel_agent.Prelude.{
  lookup, insert, false, ◌≡◌, refl, none, some, List, [], ◌∷◌, All, ◌++◌, length, ◌+◌,
}
use mackerel_agent.Checks.{Report, status_ok, critical}
use mackerel_agent.Mackerel.{Host, ApiError, is_client_error}
use mackerel_agent.Command.Reports.{Batch, report_batches, report_check_monitors, batch_host}
use mackerel_agent.Command.Reports.Batches.{RightSize, batched_for, reports_for, report_batches_lem}
use mackerel_agent.Command.Reports.Settled.{IsRetried, settle, report_check_monitors_lem}
use mackerel_agent.Command.Reports.Posted.{calls-reports}
use mackerel_agent.Command.Reports.Loop.{
  CheckersEvent, reported, asked, minute, immediate, returns, CheckersLoop, start_checkers,
  checkers_run, reports_of,
}

abbrev local : Report
local = record {
  name = "disk";
  status = critical;
  message = "full";
  occurred_at = 7;
  notification_interval = none;
  max_check_attempts = none;
  custom_identifier = none;
}

abbrev remote : Report
remote = record local { custom_identifier = some "db"; status = status_ok }

abbrev drained : List Report
drained = local ∷ remote ∷ local ∷ []

-- The batches in the order in which their identifiers came.
abbrev in_order : List Batch → List Batch
in_order batches = batches

in_order-IsOrder : IsOrder in_order
in_order-IsOrder batches = Permᴰ.refl batches

report_batches_lem_example :
    All RightSize (report_batches in_order drained)
    × (batched_for "db" (report_batches in_order drained) ≡ reports_for "db" drained)
report_batches_lem_example = report_batches_lem in_order drained "db" in_order-IsOrder

abbrev host : Host
host = record { id = "h1"; name = "web"; status = "working"; custom_identifier = "" }

host_known : batch_host host [] "" ≡ some "h1"
unfolding batch_host
host_known = refl

IsRetried-503 : All IsRetried (some (ApiError.api_error 503) ∷ some ApiError.other_error ∷ [])
unfolding is_client_error
IsRetried-503 = (refl, (refl, tt))

settled_400 : ¬ IsRetried (some (ApiError.api_error 400))
unfolding is_client_error
settled_400 h = cc

report_check_monitors_lem_example :
    report_check_monitors host [] "" (
      (some (ApiError.api_error 503) ∷ some ApiError.other_error ∷ [])
      ++ some (ApiError.api_error 400) ∷ none ∷ [])
    ≡ settle
        (length (some (ApiError.api_error 503) ∷ some ApiError.other_error ∷ []) + 1)
        (some (ApiError.api_error 400))
report_check_monitors_lem_example =
    report_check_monitors_lem host [] "" "h1"
      (some (ApiError.api_error 503) ∷ some ApiError.other_error ∷ []) (none ∷ [])
      (some (ApiError.api_error 400)) host_known IsRetried-503 settled_400

-- A report is posted, another with a request to send at once is being posted, and a third waits.
abbrev gathering : List CheckersEvent
gathering =
    reported local ∷ minute ∷ returns ∷ reported remote ∷ asked ∷ immediate ∷ reported local ∷ []

abbrev gathered : CheckersLoop
gathered = record {
  queue = local ∷ [];
  immediates = 0;
  exit = false;
  rounds = (local ∷ []) ∷ (remote ∷ []) ∷ [];
  waiting = ("db", remote ∷ []) ∷ [];
  calls = ("", local ∷ []) ∷ [];
}

gathering_run : checkers_run (λ i. in_order) 1 gathering start_checkers ≡ some gathered
unfolding checkers_run lookup insert
gathering_run = refl

calls-reports_example :
    All RightSize (gathered.calls ++ gathered.waiting)
    × (batched_for "db" gathered.calls
          ++ batched_for "db" gathered.waiting
          ++ reports_for "db" gathered.queue
        ≡ reports_for "db" (reports_of gathering))
calls-reports_example =
    calls-reports (λ i. in_order) (λ i. in_order-IsOrder) 1 gathering gathered "db" gathering_run
