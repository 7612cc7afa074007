-- ===== src/Mackerel.antt =====
-- The package mackerel (mackerel/api.go, mackerel/check.go): which errors of the API are the
-- client's or the server's, and how check reports are sent.
pub mod Limits
use mackerel_agent.Prelude.{
  String, ℕ, Bool, true, false, ◌&&◌, Option, none, some, List, [], ◌∷◌, map, leb, ltb, rune_count,
  take_runes, if◌then◌else◌, Result, ok, err,
}
use mackerel_agent.Prelude.Int.{ℤ, pos, negsuc, pos_part, ltb_ℤ}
use mackerel_agent.Checks.{Status, Report}

-- `*mkr.APIError` with its status code, `*InfoError`, or another error.
pub data ApiError : Type 0 where
  api_error : ℕ → ApiError
  info_error : String → ApiError
  other_error : ApiError

unfoldable pub is_client_error : ApiError → Bool
is_client_error (api_error code) = leb 400 code && ltb code 500
is_client_error _ = false

unfoldable pub is_server_error : ApiError → Bool
is_server_error (api_error code) = leb 500 code && ltb code 600
is_server_error _ = false

pub record Host : Type 0 where
  pub id : String
  pub name : String
  pub status : String
  pub custom_identifier : String

-- What FindHostByCustomIdentifier makes of the reply of `FindHosts`.
unfoldable pub first_host : String → Result ApiError (List Host) → Result ApiError Host
first_host custom_identifier (err e) = err e
first_host custom_identifier (ok []) = err (info_error custom_identifier)
first_host custom_identifier (ok (h ∷ hs)) = ok h

abbrev pub notification_interval_fallback : ℕ
notification_interval_fallback = 10

abbrev pub message_length_limit : ℕ
message_length_limit = 1024

-- normalize, whose panic for a negative minimum no call in the program meets.
unfoldable pub normalize : Option ℤ → ℕ → ℕ
normalize none min = 0
normalize (some p) min = if ltb_ℤ p (pos min) then min else pos_part p

pub record CheckReport : Type 0 where
  pub host_id : String
  pub name : String
  pub status : Status
  pub message : String
  pub occurred_at : ℕ
  pub notification_interval : ℕ
  pub max_check_attempts : ℕ

unfoldable pub limit_message : String → String
limit_message msg =
    if ltb message_length_limit (rune_count msg) then take_runes message_length_limit msg else msg

-- The payload of ReportCheckMonitors for one report.
unfoldable pub check_report : String → Report → CheckReport
check_report host_id report = record {
  host_id = host_id;
  name = report.name;
  status = report.status;
  message = limit_message report.message;
  occurred_at = report.occurred_at;
  notification_interval = normalize report.notification_interval notification_interval_fallback;
  max_check_attempts = normalize report.max_check_attempts 0;
}

-- What ReportCheckMonitors posts.
unfoldable pub check_reports : String → List Report → List CheckReport
check_reports host_id reports = map (check_report host_id) reports
