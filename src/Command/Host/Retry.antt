-- ===== src/Command/Host/Retry.antt =====
-- What a retried call of command/command.go leaves in the calls.
use mackerel_agent.Prelude.{
  ℕ, zero, suc, ◌+◌, ◌≤◌, true, ◌∷◌, ◌≡◌, refl, arith, Result, err, Bool-cases, inl, inr,
}
use mackerel_agent.Mackerel.{ApiError}
use mackerel_agent.Prelude.Retrier.{Retrier}
use mackerel_agent.Command.Host.{Call, Calls, Server, Attempt, attempt, settled, tries}

module _ (retrier : Retrier) {A : Type 0} (call : Call) (answer : Calls → Result ApiError A) where
  -- A property of the calls that one more such call keeps is kept by all the tries.
  pub retry_keeps :
      (P : Calls → Type 0)
      → ((calls : Calls) → P calls → P (call ∷ calls))
      → (n : ℕ) (s : Attempt A) → P s.1
      → P (retrier.retry (Attempt A) (suc n) (attempt call answer) s).1
  retry_keeps P keep zero s p = rw (retrier.retry_once _ _ _) (keep s.1 p)
  retry_keeps P keep (suc n) s p =
      rw (retrier.retry_more _ _ _ _) (elim (Bool-cases (settled (answer s.1))) [
        | inl done ↦ rw done (keep s.1 p)
        | inr again ↦ rw again (retry_keeps P keep n (answer s.1, call ∷ s.1) (keep s.1 p))
      ])

  pub tries_keep :
      (server : Server) (P : Calls → Type 0)
      → ((calls : Calls) → P calls → P (call ∷ calls))
      → (n : ℕ) (calls : Calls) → P calls
      → P (tries retrier server (suc n) call answer calls).1
  unfolding tries
  tries_keep server P keep n calls p = retry_keeps P keep n (err ApiError.other_error, calls) p

  -- A measure that each call raises by one is raised by at most the number of tries.
  retry_at_most :
      (count : Calls → ℕ)
      → ((calls : Calls) → count (call ∷ calls) ≡ suc (count calls))
      → (n : ℕ) (s : Attempt A)
      → count (retrier.retry (Attempt A) (suc n) (attempt call answer) s).1 ≤ suc n + count s.1
  retry_at_most count up zero s = rw (retrier.retry_once _ _ _) (omega (arith, up s.1))
  retry_at_most count up (suc n) s =
      rw (retrier.retry_more _ _ _ _) (elim (Bool-cases (settled (answer s.1))) [
        | inl done ↦ rw done (omega (arith, up s.1))
        | inr again ↦
            rw again (omega (arith, up s.1, retry_at_most count up n (answer s.1, call ∷ s.1)))
      ])

  pub tries_at_most :
      (server : Server) (count : Calls → ℕ)
      → ((calls : Calls) → count (call ∷ calls) ≡ suc (count calls))
      → (n : ℕ) (calls : Calls)
      → count (tries retrier server (suc n) call answer calls).1 ≤ suc n + count calls
  unfolding tries
  tries_at_most server count up n calls = retry_at_most count up n (err ApiError.other_error, calls)

  -- A call that is settled at once, by a result or by a client error, is made once.
  pub tries-settled :
      (server : Server) (n : ℕ) (calls : Calls)
      → settled (answer calls) ≡ true
      → tries retrier server (suc n) call answer calls ≡ (answer calls, call ∷ calls)
  unfolding tries
  tries-settled server zero calls h = rw (retrier.retry_once _ _ _) refl
  tries-settled server (suc n) calls h = rw (retrier.retry_more _ _ _ _) (rw h refl)
