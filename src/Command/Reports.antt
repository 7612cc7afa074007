-- ===== src/Command/Reports.antt =====
-- How check reports are batched and posted: `runCheckersLoop` and `reportCheckMonitors` of
-- command/command.go. A call of `reportCheckMonitors` is a custom identifier and a batch; "" is the
-- host that the agent runs on.
pub mod Batches
pub mod Settled
pub mod Loop
pub mod Posted
use mackerel_agent.Prelude.{
  String, ℕ, zero, suc, ◌+◌, Bool, true, false, Option, none, some, List, [], ◌∷◌, ◌++◌, Dict,
  lookup, insert, erase, leb, ltb, length, is_nil, is_empty, str_eq, if◌then◌else◌,
}
use mackerel_agent.Checks.{Report}
use mackerel_agent.Mackerel.{ApiError, is_client_error, Host}

abbrev pub Batch : Type 0
Batch = String × List Report

abbrev pub check_report_max_size : ℕ
check_report_max_size = 10

abbrev pub report_check_delay_seconds : ℕ
report_check_delay_seconds = 1

abbrev pub report_check_delay_seconds_max : ℕ
report_check_delay_seconds_max = 30

-- The delay after a full batch, longer when there are lots of reports.
unfoldable pub report_check_delay : List Report → ℕ → ℕ
report_check_delay reports checkers =
    if ltb checkers (length reports)
    then report_check_delay_seconds_max
    else report_check_delay_seconds

abbrev pub identifier : Option String → String
identifier none = ""
identifier (some c) = c

abbrev pub or_empty : Option (List Report) → List Report
or_empty none = []
or_empty (some rs) = rs

-- `reportsByCustomIdentifier`, and the calls that were made so far.
pub record Batching : Type 0 where
  pub pending : Dict (List Report)
  pub calls : List Batch

-- One report: it joins the batch of its custom identifier, which is posted when it is full.
unfoldable pub add_report : Batching → Report → Batching
add_report s report =
    let c = identifier report.custom_identifier in
    let batch = or_empty (lookup c s.pending) ++ report ∷ [] in
    if leb check_report_max_size (length batch)
    then record { pending = erase c s.pending; calls = s.calls ++ (c, batch) ∷ [] }
    else record s { pending = insert c batch s.pending }

unfoldable pub add_reports : Batching → List Report → Batching
unfolding add_report
add_reports s [] = s
add_reports s (r ∷ rs) = add_reports (add_report s r) rs

-- The calls for the reports that were drained in one round: the full batches as they fill, then what
-- is left, in the order in which the `range` visits it.
unfoldable pub report_batches : (List Batch → List Batch) → List Report → List Batch
unfolding add_reports
report_batches visit reports =
    let s = add_reports (record { pending = []; calls = [] }) reports in s.calls ++ visit s.pending

-- The host that a batch is for, if the agent knows one.
unfoldable pub batch_host : Host → Dict Host → String → Option String
batch_host host custom_identifier_hosts c =
    if is_nil c
    then some host.id
    else elim (lookup c custom_identifier_hosts) [ none ↦ none | some h ↦ some h.id ]

-- How a call of reportCheckMonitors ends: the batch has no host, or it was accepted, or a client
-- error ends it; `unsettled` is a call that still waits to post again. The number counts the posts.
pub data Delivery : Type 0 where
  no_host : Delivery
  accepted : ℕ → Delivery
  rejected : ℕ → Delivery
  unsettled : ℕ → Delivery

-- The loop of reportCheckMonitors over the replies of the API, where `none` is no error.
unfoldable pub post_until_settled : ℕ → List (Option ApiError) → Delivery
post_until_settled posts [] = unsettled posts
post_until_settled posts (none ∷ replies) = accepted (posts + 1)
post_until_settled posts (some e ∷ replies) =
    let rest = post_until_settled (posts + 1) replies in
    if is_client_error e then rejected (posts + 1) else rest

unfoldable pub report_check_monitors : Host → Dict Host → String → List (Option ApiError) → Delivery
unfolding batch_host post_until_settled
report_check_monitors host custom_identifier_hosts c replies =
    elim (batch_host host custom_identifier_hosts c) [
      | none ↦ no_host
      | some id ↦ post_until_settled 0 replies
    ]
