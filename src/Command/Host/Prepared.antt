-- ===== src/Command/Host/Prepared.antt =====
-- What preparing the host does on every path (command/command.go).
use mackerel_agent.Prelude.{
  String, ℕ, suc, true, not, ◌&&◌, none, some, [], ◌∷◌, ◌≡◌, refl, arith, is_nil, str_eq, ok, err,
  Bool-cases, Option-cases, inl, inr,
}
use mackerel_agent.Mackerel.{Host}
use mackerel_agent.Prelude.Retrier.{Retrier}
use mackerel_agent.Command.Host.{
  load_host_id, find_by_custom_identifier, create_host, find_host, update_host_status, save_host_id,
  Calls, Server, Attempt, HostSettings, Prepared, tries, save_and_return, after_status, set_status,
  after_find_created, after_create, register, after_custom, create_or_take, after_find,
  check_stored, prepare_host,
}
use mackerel_agent.Command.Host.Retry.{tries_keep}

-- How often a host was registered.
abbrev pub creates : Calls → ℕ
creates [] = 0
creates (create_host ∷ calls) = suc (creates calls)
creates (_ ∷ calls) = creates calls

-- If a host is returned, its id was saved last, and that succeeded.
abbrev pub EndsSaved : Server → Prepared → Type 0
EndsSaved server (err e, calls) = Unit
EndsSaved server (ok h, []) = ⊥
EndsSaved server (ok h, call ∷ calls) =
    (call ≡ save_host_id h.id) × (server.save_host_id calls h.id ≡ true)

module _ (retrier : Retrier) (server : Server) (conf : HostSettings) where
  module _ (k : ℕ) where
    abbrev pub Kept : Prepared → Type 0
    Kept p = creates p.1 ≡ k

    abbrev status_tries : Host → Calls → Attempt (Unit {0})
    status_tries h calls =
        tries retrier server 20 (update_host_status h.id conf.on_start)
          (λ c. server.update_host_status c h.id conf.on_start) calls

    status_keeps :
        (h : Host) (calls : Calls) → creates calls ≡ k → creates (status_tries h calls).1 ≡ k
    status_keeps h calls e =
        tries_keep retrier (update_host_status h.id conf.on_start)
          (λ c. server.update_host_status c h.id conf.on_start) server (λ c. creates c ≡ k)
          (λ c p. p) 19 calls e

    pub find_keeps :
        (id : String) (calls : Calls)
        → creates calls ≡ k
        → creates (tries retrier server 20 (find_host id) (λ c. server.find_host c id) calls).1 ≡ k
    find_keeps id calls e =
        tries_keep retrier (find_host id) (λ c. server.find_host c id) server (λ c. creates c ≡ k)
          (λ c p. p) 19 calls e

    save-Kept :
        (h : Host) (calls : Calls)
        → creates calls ≡ k
        → Kept (save_and_return retrier server h calls)
    unfolding save_and_return
    save-Kept h calls e = ground arith

    after_status-Kept :
        (h : Host) (a : Attempt (Unit {0}))
        → creates a.1 ≡ k
        → Kept (after_status retrier server h a)
    after_status-Kept h (ok t, calls) e = save-Kept h calls e
    after_status-Kept h (err x, calls) e = e

    pub set_status-Kept :
        (h : Host) (calls : Calls)
        → creates calls ≡ k
        → Kept (set_status retrier server conf h calls)
    unfolding set_status
    set_status-Kept h calls e =
        elim (Bool-cases (not (is_nil conf.on_start) && not (str_eq conf.on_start h.status))) [
          | inl update ↦
              rw update (after_status-Kept h (status_tries h calls) (status_keeps h calls e))
          | inr same ↦ rw same (save-Kept h calls e)
        ]

    after_find-Kept : (a : Attempt Host) → creates a.1 ≡ k → Kept (after_find retrier server conf a)
    after_find-Kept (err x, calls) e = e
    after_find-Kept (ok h, calls) e =
        elim (Bool-cases (
          not (is_nil h.custom_identifier)
          && not (str_eq h.custom_identifier conf.custom_identifier))) [
            | inl other ↦ rw other e
            | inr same ↦ rw same (set_status-Kept h calls e)
          ]

    pub after_find_created-Kept :
        (a : Attempt Host) → creates a.1 ≡ k → Kept (after_find_created retrier server conf a)
    after_find_created-Kept (err x, calls) e = e
    after_find_created-Kept (ok h, calls) e = set_status-Kept h calls e

  stored-prepare_host :
      (calls : Calls) (id : String)
      → server.load_host_id calls ≡ some id
      → prepare_host retrier server conf calls
        ≡ check_stored retrier server conf id (load_host_id ∷ calls)
  unfolding prepare_host
  stored-prepare_host calls id h = ground arith

  pub none-prepare_host :
      (calls : Calls)
      → server.load_host_id calls ≡ none
      → prepare_host retrier server conf calls
        ≡ create_or_take retrier server conf (load_host_id ∷ calls)
  unfolding prepare_host
  none-prepare_host calls h = ground arith

  -- A host whose id is stored is never registered again, whatever the server answers.
  pub prepare_host-stored :
      (calls : Calls) (id : String)
      → server.load_host_id calls ≡ some id
      → creates (prepare_host retrier server conf calls).1 ≡ creates calls
  unfolding check_stored
  prepare_host-stored calls id h = rw (stored-prepare_host calls id h) (
      after_find-Kept (creates calls)
        (tries retrier server 20 (find_host id) (λ c. server.find_host c id) (load_host_id ∷ calls))
        (find_keeps (creates calls) id (load_host_id ∷ calls) refl))

  save-EndsSaved :
      (h : Host) (calls : Calls) → EndsSaved server (save_and_return retrier server h calls)
  unfolding save_and_return
  save-EndsSaved h calls = ground arith

  after_status-EndsSaved :
      (h : Host) (a : Attempt (Unit {0})) → EndsSaved server (after_status retrier server h a)
  after_status-EndsSaved h (ok t, calls) = save-EndsSaved h calls
  after_status-EndsSaved h (err x, calls) = tt

  set_status-EndsSaved :
      (h : Host) (calls : Calls) → EndsSaved server (set_status retrier server conf h calls)
  unfolding set_status
  set_status-EndsSaved h calls =
      elim (Bool-cases (not (is_nil conf.on_start) && not (str_eq conf.on_start h.status))) [
        | inl update ↦ rw update (after_status-EndsSaved h (status_tries 0 h calls))
        | inr same ↦ rw same (save-EndsSaved h calls)
      ]

  after_find-EndsSaved : (a : Attempt Host) → EndsSaved server (after_find retrier server conf a)
  after_find-EndsSaved (err x, calls) = tt
  after_find-EndsSaved (ok h, calls) =
      elim (Bool-cases (
        not (is_nil h.custom_identifier)
        && not (str_eq h.custom_identifier conf.custom_identifier))) [
          | inl other ↦ rw other tt
          | inr same ↦ rw same (set_status-EndsSaved h calls)
        ]

  after_find_created-EndsSaved :
      (a : Attempt Host) → EndsSaved server (after_find_created retrier server conf a)
  after_find_created-EndsSaved (err x, calls) = tt
  after_find_created-EndsSaved (ok h, calls) = set_status-EndsSaved h calls

  after_create-EndsSaved :
      (a : Attempt String) → EndsSaved server (after_create retrier server conf a)
  after_create-EndsSaved (err x, calls) = tt
  after_create-EndsSaved (ok id, calls) =
      after_find_created-EndsSaved
        (tries retrier server 20 (find_host id) (λ c. server.find_host c id) calls)

  register-EndsSaved : (calls : Calls) → EndsSaved server (register retrier server conf calls)
  unfolding register
  register-EndsSaved calls =
      after_create-EndsSaved (tries retrier server 20 create_host server.create_host calls)

  after_custom-EndsSaved :
      (a : Attempt Host) → EndsSaved server (after_custom retrier server conf a)
  after_custom-EndsSaved (ok h, calls) = set_status-EndsSaved h calls
  after_custom-EndsSaved (err x, calls) = register-EndsSaved calls

  create_or_take-EndsSaved :
      (calls : Calls) → EndsSaved server (create_or_take retrier server conf calls)
  unfolding create_or_take
  create_or_take-EndsSaved calls = elim (Bool-cases (is_nil conf.custom_identifier)) [
    | inl none_given ↦ rw none_given (register-EndsSaved calls)
    | inr given ↦ rw given (
        after_custom-EndsSaved (
          tries retrier server 3 (find_by_custom_identifier conf.custom_identifier)
            (λ c. server.find_by_custom_identifier c conf.custom_identifier) calls))
  ]

  -- Whenever a host is returned, the last thing that was done is to save its id, and the storage has
  -- accepted it.
  pub prepare_host-EndsSaved :
      (calls : Calls) → EndsSaved server (prepare_host retrier server conf calls)
  unfolding check_stored
  prepare_host-EndsSaved calls = elim (Option-cases (server.load_host_id calls)) [
    | inl e ↦ rw (none-prepare_host calls e) (create_or_take-EndsSaved (load_host_id ∷ calls))
    | inr (id, e) ↦ rw (stored-prepare_host calls id e) (
        after_find-EndsSaved (
          tries retrier server 20 (find_host id) (λ c. server.find_host c id)
            (load_host_id ∷ calls)))
  ]
