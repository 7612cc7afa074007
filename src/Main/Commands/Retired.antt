-- ===== src/Main/Commands/Retired.antt =====
-- What the command `retire` (commands.go) has done when it returns.
use mackerel_agent.Prelude.{
  String, ℕ, zero, suc, ◌+◌, ◌≤◌, ◌≡◌, ◌⊎◌, refl, Bool, true, false, not, ◌&&◌, ◌||◌, arith, inl,
  inr, Option-cases, Bool-cases, Result-cases, Result, ok, err,
}
use mackerel_agent.Prelude.Retrier.{Retrier}
use mackerel_agent.Config.{Config}
use mackerel_agent.Config.HostId.{FileSystem, load_host_id}
use mackerel_agent.Command.App.{AgentMeta, new_mackerel_client}
use mackerel_agent.Main.{ResolveError}
use mackerel_agent.Main.Commands.{RetireError, Retirement, retire_once, do_retire}

module _ (retrier : Retrier) (answers : ℕ → Bool) where
  -- The last request `k` is the one whose answer counts.
  retry-retire_once :
      (m i : ℕ) (done : Bool)
      → (k : ℕ) × (retrier.retry (Bool × ℕ) (suc m) (retire_once answers) (done, i)
          ≡ (answers k, suc k))
        × (k ≤ i + m)
  retry-retire_once zero i done =
      (i, retrier.retry_once (Bool × ℕ) (retire_once answers) (done, i), omega arith)
  retry-retire_once (suc m) i done =
      let more = retrier.retry_more (Bool × ℕ) m (retire_once answers) (done, i) in
      elim (Bool-cases (answers i)) [
        | inl yes_i ↦ (i, rw more (rw yes_i refl), omega arith)
        | inr no_i ↦
            let (k, e, l) = retry-retire_once m (suc i) (answers i) in
            (k, rw more (ground (arith, e)), omega arith)
      ]

abbrev pub is_retired : Result RetireError String → Bool
is_retired (ok root) = true
is_retired (err e) = false

module _ (retrier : Retrier) (join : String → String → String) {Re : Type 0} (r : Retirement)
    (ameta : AgentMeta) (resolved : Result ResolveError (Config Re)) (fs fs' : FileSystem)
    (result : Result RetireError String) (n : ℕ)
    (h : do_retire retrier join r ameta resolved fs ≡ (result, n, fs')) where
  -- When `retire` returns, at most ten requests were made, and any only where -force is given or the
  -- user has agreed. Either the last request has succeeded and the host is retired, or an error is
  -- returned and the files, with the stored host id, are as before.
  pub do_retire_lem :
      (n ≤ 10)
      × ((n ≡ 0) ⊎ ((r.force || r.agreed) ≡ true))
      × (((is_retired result ≡ false) × (fs' ≡ fs))
          ⊎ ((is_retired result ≡ true) × (k : ℕ) × (n ≡ suc k) × (r.answers k ≡ true)))
  unfolding do_retire
  do_retire_lem = elim (Result-cases resolved) [
    | inr (e, f) ↦ ground arith
    | inl (conf, f) ↦ elim (Result-cases (load_host_id join conf.root fs)) [
      | inr (e, g) ↦ ground arith
      | inl (host_id, g) ↦ elim (Option-cases (new_mackerel_client r.made ameta)) [
        | inl c ↦ ground arith
        | inr (client, c) ↦
            let (k, e, l) = retry-retire_once retrier r.answers 9 0 false in
            elim (Bool-cases (not r.force && not r.agreed)) [
              | inl refused ↦ ground arith
              | inr agreed ↦ elim (Bool-cases (r.answers k)) [
                | inl done ↦
                    let last : (is_retired result ≡ true) × (n ≡ suc k) = ground arith in
                    (ground arith, inr (ground arith), inr (last.0, k, last.1, done))
                | inr failed ↦
                    let last : (is_retired result ≡ false) × (n ≡ suc k) × (fs' ≡ fs) =
                      ground arith in
                    (ground arith, inr (ground arith), inl (last.0, last.2))
              ]
            ]
      ]
    ]
  ]
