-- ===== src/Command/Host/Registered.antt =====
-- How often preparing the host registers one (command/command.go).
use mackerel_agent.Prelude.{
  String, ℕ, ◌+◌, ◌≤◌, ◌+◌, ◌≤◌, true, none, ◌∷◌, ◌≡◌, refl, arith, is_nil, ok, err, Bool-cases,
  inl, inr,
}
use mackerel_agent.Mackerel.{ApiError, is_client_error, Host}
use mackerel_agent.Prelude.Retrier.{Retrier}
use mackerel_agent.Command.Host.{
  load_host_id, find_by_custom_identifier, create_host, find_host, Calls, Server, Attempt,
  HostSettings, not_registered, settled, tries, after_create, register, after_custom,
  create_or_take, prepare_host,
}
use mackerel_agent.Command.Host.Retry.{tries_keep, tries_at_most, tries-settled}
use mackerel_agent.Command.Host.Prepared.{
  creates, find_keeps, set_status-Kept, after_find_created-Kept, none-prepare_host,
}

module _ (retrier : Retrier) (server : Server) (conf : HostSettings) where
  after_create-creates :
      (a : Attempt String) → creates (after_create retrier server conf a).1 ≡ creates a.1
  after_create-creates (err x, calls) = refl
  after_create-creates (ok id, calls) =
      after_find_created-Kept retrier server conf (creates calls)
        (tries retrier server 20 (find_host id) (λ c. server.find_host c id) calls)
        (find_keeps retrier server conf (creates calls) id calls refl)

  register-creates :
      (calls : Calls) → creates (register retrier server conf calls).1 ≤ 20 + creates calls
  unfolding register
  register-creates calls = omega (
    arith,
    after_create-creates (tries retrier server 20 create_host server.create_host calls),
    tries_at_most retrier create_host server.create_host server creates (λ c. refl) 19 calls,
  )

  after_custom-creates :
      (k : ℕ) (a : Attempt Host)
      → creates a.1 ≡ k
      → creates (after_custom retrier server conf a).1 ≤ 20 + k
  after_custom-creates k (ok h, calls) e =
      omega (arith, set_status-Kept retrier server conf k h calls e)
  after_custom-creates k (err x, calls) e = omega (arith, register-creates calls)

  create_or_take-creates :
      (calls : Calls) → creates (create_or_take retrier server conf calls).1 ≤ 20 + creates calls
  unfolding create_or_take
  create_or_take-creates calls = elim (Bool-cases (is_nil conf.custom_identifier)) [
    | inl none_given ↦ rw none_given (register-creates calls)
    | inr given ↦ rw given (
        after_custom-creates (creates calls)
          (tries retrier server 3 (find_by_custom_identifier conf.custom_identifier)
            (λ c. server.find_by_custom_identifier c conf.custom_identifier) calls)
          (tries_keep retrier (find_by_custom_identifier conf.custom_identifier)
            (λ c. server.find_by_custom_identifier c conf.custom_identifier) server
            (λ c. creates c ≡ creates calls) (λ c p. p) 2 calls refl))
  ]

  -- Where no host id is stored, a registration is tried at most twenty times.
  pub prepare_host-creates :
      (calls : Calls)
      → server.load_host_id calls ≡ none
      → creates (prepare_host retrier server conf calls).1 ≤ 20 + creates calls
  prepare_host-creates calls h =
      rw (none-prepare_host retrier server conf calls h)
        (create_or_take-creates (load_host_id ∷ calls))

  -- Where no host id is stored and no custom identifier is known, a client error ends the
  -- registration: it is not tried again, and nothing else is called.
  pub prepare_host-client_error :
      (calls : Calls) (e : ApiError)
      → server.load_host_id calls ≡ none
      → is_nil conf.custom_identifier ≡ true
      → server.create_host (load_host_id ∷ calls) ≡ err e
      → is_client_error e ≡ true
      → prepare_host retrier server conf calls
        ≡ (err not_registered, create_host ∷ load_host_id ∷ calls)
  unfolding create_or_take register settled
  prepare_host-client_error calls e h given answer client =
      rw (none-prepare_host retrier server conf calls h) (
        rw given (
          rw
            (tries-settled retrier create_host server.create_host server 19 (load_host_id ∷ calls)
              (rw answer client))
            (rw answer refl)))
