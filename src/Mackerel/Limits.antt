-- ===== src/Mackerel/Limits.antt =====
-- The limits that mackerel/check.go sets on what it reports, and the two kinds of API errors.
use mackerel_agent.Prelude.{
  String, ℕ, ◌≤◌, false, ◌&&◌, Option, none, some, List, [], ◌∷◌, ◌≡◌, refl, arith, rune_count,
  rune_count-take_runes, take_runes, take_runes_all, if◌then◌else◌,
}
use mackerel_agent.Prelude.Int.{ℤ, pos, ltb_ℤ}
use mackerel_agent.Checks.{Report}
use mackerel_agent.Mackerel.{
  ApiError, is_client_error, is_server_error, CheckReport, check_report, check_reports,
  limit_message, normalize, message_length_limit, notification_interval_fallback,
}

-- No error is both the client's and the server's.
pub error_kinds_apart : (e : ApiError) → (is_client_error e && is_server_error e) ≡ false
unfolding is_client_error is_server_error
error_kinds_apart e = ground arith

-- What becomes of an optional number that has a least value: 0 without one.
abbrev pub AtLeast : ℕ → Option ℤ → ℕ → Type 0
AtLeast least none n = n ≡ 0
AtLeast least (some o) n = (least ≤ n) × (pos n ≡ (if ltb_ℤ o (pos least) then pos least else o))

-- What a posted report takes over, and how it is limited.
pub record Reports (host_id : String) (r : Report) (p : CheckReport) : Type 0 where
  pub host : p.host_id ≡ host_id
  pub name : p.name ≡ r.name
  pub status : p.status ≡ r.status
  pub occurred_at : p.occurred_at ≡ r.occurred_at
  pub short : rune_count p.message ≤ message_length_limit
  pub message : p.message ≡ take_runes message_length_limit r.message
  pub interval :
      AtLeast notification_interval_fallback r.notification_interval p.notification_interval
  pub attempts : AtLeast 0 r.max_check_attempts p.max_check_attempts

limit_message_lem :
    (m : String)
    → (rune_count (limit_message m) ≤ message_length_limit)
      × (limit_message m ≡ take_runes message_length_limit m)
unfolding limit_message
limit_message_lem m =
    ground
      (arith, rune_count-take_runes message_length_limit m, take_runes_all message_length_limit m)

normalize_lem : (o : Option ℤ) (least : ℕ) → AtLeast least o (normalize o least)
unfolding normalize
normalize_lem none least = refl
normalize_lem (some o) least = ground arith

check_report-Reports : (host_id : String) (r : Report) → Reports host_id r (check_report host_id r)
unfolding check_report
check_report-Reports host_id r = record {
  host = refl;
  name = refl;
  status = refl;
  occurred_at = refl;
  short = (limit_message_lem r.message).0;
  message = (limit_message_lem r.message).1;
  interval = normalize_lem r.notification_interval notification_interval_fallback;
  attempts = normalize_lem r.max_check_attempts 0;
}

-- The posted reports are those of the list, one by one and in order.
abbrev pub AllReports : String → List Report → List CheckReport → Type 0
AllReports host_id [] [] = Unit
AllReports host_id (r ∷ rs) (p ∷ ps) = Reports host_id r p × AllReports host_id rs ps
AllReports host_id [] (p ∷ ps) = ⊥
AllReports host_id (r ∷ rs) [] = ⊥

-- Each report is posted once, in order, for the given host: with the first 1024 characters of its
-- message; with no notification interval if it has none, else with its own or with ten minutes,
-- whichever is longer; and with its check attempts, but none if they are absent or negative.
pub check_reports_lem :
    (host_id : String) (rs : List Report) → AllReports host_id rs (check_reports host_id rs)
unfolding check_reports
check_reports_lem host_id [] = tt
check_reports_lem host_id (r ∷ rs) = (check_report-Reports host_id r, check_reports_lem host_id rs)
