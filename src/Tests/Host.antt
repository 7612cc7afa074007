-- ===== src/Tests/Host.antt =====
-- Starting an agent with a stored host id, and without one (command/command.go), against a server
-- that knows one host.
use mackerel_agent.Prelude.{ℕ, zero, suc, ◌≡◌, refl, Bool, true, some, [], ok, err, if◌then◌else◌}
use mackerel_agent.Mackerel.{ApiError, Host}
use mackerel_agent.Prelude.Retrier.{Retrier}
use mackerel_agent.Command.Host.{Server, HostSettings, prepare_host}
use mackerel_agent.Command.Host.Prepared.{
  creates, EndsSaved, prepare_host-stored, prepare_host-EndsSaved,
}

-- Calls `fn` until it returns no error, at most `n` times.
abbrev retry : (S : Type 0) → ℕ → (S → Bool × S) → S → S
retry S zero f s = s
retry S (suc zero) f s = (f s).1
retry S (suc (suc n)) f s =
    let rest = retry S (suc n) f (f s).1 in if (f s).0 then (f s).1 else rest

abbrev pub retrier : Retrier
retrier = record { retry = retry; retry_once = λ S f s. refl; retry_more = λ S n f s. refl }

abbrev web : Host
web = record { id = "h1"; name = "web"; status = "standby"; custom_identifier = "" }

abbrev server : Server
server = record {
  load_host_id = λ calls. some "h1";
  find_by_custom_identifier = λ calls c. err ApiError.other_error;
  create_host = λ calls. ok "h1";
  find_host = λ calls id. ok web;
  update_host_status = λ calls id s. ok tt;
  save_host_id = λ calls id. true;
}

abbrev settings : HostSettings
settings = record { custom_identifier = ""; on_start = "working" }

prepare_host-stored_example : creates (prepare_host retrier server settings []).1 ≡ creates []
prepare_host-stored_example = prepare_host-stored retrier server settings [] "h1" refl

prepare_host-EndsSaved_example : EndsSaved server (prepare_host retrier server settings [])
prepare_host-EndsSaved_example = prepare_host-EndsSaved retrier server settings []
