-- ===== src/Command/Host.antt =====
-- How the host is found or registered when the agent starts: `prepareHost` and
-- `prepareCustomIdentiferHosts` of command/command.go. The server and the storage of the host id
-- answer as they like: each answer may depend on all the calls before it.
pub mod Retry
pub mod Prepared
pub mod Registered
use mackerel_agent.Prelude.{
  String, ℕ, suc, Bool, true, false, not, ◌&&◌, Option, none, some, List, [], ◌∷◌, ◌++◌, ◌≡◌,
  is_nil, str_eq, Dict, insert, if◌then◌else◌, Result, ok, err,
}
use mackerel_agent.Prelude.Retrier.{Retrier}
use mackerel_agent.Mackerel.{ApiError, is_client_error, Host}

-- A call of the API or of the storage of the host id.
pub data Call : Type 0 where
  load_host_id : Call
  find_by_custom_identifier : String → Call
  create_host : Call
  find_host : String → Call
  update_host_status : String → String → Call
  save_host_id : String → Call

-- The calls so far, the last one first.
abbrev pub Calls : Type 0
Calls = List Call

-- What each call returns, given the calls before it.
pub record Server : Type 0 where
  pub load_host_id : Calls → Option String
  pub find_by_custom_identifier : Calls → String → Result ApiError Host
  pub create_host : Calls → Result ApiError String
  pub find_host : Calls → String → Result ApiError Host
  pub update_host_status : Calls → String → String → Result ApiError (Unit {0})
  pub save_host_id : Calls → String → Bool

-- `result` and `lastErr`, and the calls so far.
abbrev pub Attempt : Type 0 → Type 0
Attempt A = Result ApiError A × Calls

-- filterErrorForRetry returns nil: there is no error, or it is a client error.
unfoldable pub settled : {A : Type 0} → Result ApiError A → Bool
settled (ok a) = true
settled (err e) = is_client_error e

-- The closure that is retried: one more call.
abbrev pub attempt :
    {A : Type 0} → Call → (Calls → Result ApiError A) → Attempt A → Bool × Attempt A
attempt call answer (r, calls) = let r' = answer calls in (settled r', (r', call ∷ calls))

pub data PrepareError : Type 0 where
  not_registered not_found mismatch status_not_set id_not_saved : PrepareError

pub record HostSettings : Type 0 where
  pub custom_identifier : String
  pub on_start : String

abbrev pub Prepared : Type 0
Prepared = Result PrepareError Host × Calls

module _ (retrier : Retrier) (server : Server) where
  -- `n` tries of a call, the first of which is always made.
  unfoldable pub tries : {A : Type 0} → ℕ → Call → (Calls → Result ApiError A) → Calls → Attempt A
  tries {A} n call answer calls =
      retrier.retry (Attempt A) n (attempt call answer) (err ApiError.other_error, calls)

  -- SaveHostID, and the result.
  unfoldable pub save_and_return : Host → Calls → Prepared
  save_and_return result calls =
      if server.save_host_id calls result.id
      then (ok result, save_host_id result.id ∷ calls)
      else (err id_not_saved, save_host_id result.id ∷ calls)

  abbrev after_status : Host → Attempt (Unit {0}) → Prepared
  after_status result (ok t, calls) = save_and_return result calls
  after_status result (err e, calls) = (err status_not_set, calls)

  -- From `hostSt := conf.HostStatus.OnStart` on.
  unfoldable pub set_status : HostSettings → Host → Calls → Prepared
  unfolding save_and_return tries
  set_status conf result calls =
      if not (is_nil conf.on_start) && not (str_eq conf.on_start result.status)
      then after_status result (
          tries 20 (update_host_status result.id conf.on_start)
            (λ c. server.update_host_status c result.id conf.on_start) calls)
      else save_and_return result calls

  abbrev after_find_created : HostSettings → Attempt Host → Prepared
  after_find_created conf (ok h, calls) = set_status conf h calls
  after_find_created conf (err e, calls) = (err not_found, calls)

  abbrev after_create : HostSettings → Attempt String → Prepared
  after_create conf (ok id, calls) =
      after_find_created conf (tries 20 (find_host id) (λ c. server.find_host c id) calls)
  after_create conf (err e, calls) = (err not_registered, calls)

  -- Registering a new host.
  unfoldable pub register : HostSettings → Calls → Prepared
  unfolding set_status tries
  register conf calls = after_create conf (tries 20 create_host server.create_host calls)

  abbrev after_custom : HostSettings → Attempt Host → Prepared
  after_custom conf (ok h, calls) = set_status conf h calls
  after_custom conf (err e, calls) = register conf calls

  -- No host id is stored: the host of the custom identifier is taken, or a new one is registered.
  unfoldable pub create_or_take : HostSettings → Calls → Prepared
  unfolding register set_status tries
  create_or_take conf calls =
      if is_nil conf.custom_identifier
      then register conf calls
      else after_custom conf (
          tries 3 (find_by_custom_identifier conf.custom_identifier)
            (λ c. server.find_by_custom_identifier c conf.custom_identifier) calls)

  abbrev after_find : HostSettings → Attempt Host → Prepared
  after_find conf (err e, calls) = (err not_found, calls)
  after_find conf (ok h, calls) =
      if not (is_nil h.custom_identifier) && not (str_eq h.custom_identifier conf.custom_identifier)
      then (err mismatch, calls)
      else set_status conf h calls

  -- A host id is stored: it is checked whether it is valid.
  unfoldable pub check_stored : HostSettings → String → Calls → Prepared
  unfolding set_status tries
  check_stored conf id calls =
      after_find conf (tries 20 (find_host id) (λ c. server.find_host c id) calls)

  -- prepareHost, once the host parameters are collected.
  unfoldable pub prepare_host : HostSettings → Calls → Prepared
  unfolding create_or_take check_stored
  prepare_host conf calls = elim (server.load_host_id calls) [
    | none ↦ create_or_take conf (load_host_id ∷ calls)
    | some id ↦ check_stored conf id (load_host_id ∷ calls)
  ]

-- prepareCustomIdentiferHosts: identifiers whose host is not found are left out.
unfoldable pub prepare_custom_identifier_hosts :
    (String → Result ApiError Host) → Dict Host → List String → Dict Host
prepare_custom_identifier_hosts find hosts [] = hosts
prepare_custom_identifier_hosts find hosts (c ∷ cs) = elim (find c) [
  | ok h ↦ prepare_custom_identifier_hosts find (insert c h hosts) cs
  | err e ↦ prepare_custom_identifier_hosts find hosts cs
]
