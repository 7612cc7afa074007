-- ===== src/Prelude/Retrier.antt =====
-- The package retry, which is not part of the repository: what the agent relies on.
use Prim.Native.Nat.{ℕ, suc}
use mathlib.Core.Path.{◌≡◌}
use mathlib.Core.Bool.{Bool}
use mackerel_agent.Prelude.Tests.{if◌then◌else◌}

-- `retry.Retry(n, interval, fn)`, for `n` from 1 on: `fn` is called until it returns no error, at
-- most `n` times. Here `fn` changes what it has captured, a value of `S`, and tells whether it
-- returned no error.
pub record Retrier : Type 1 where
  pub retry : (S : Type 0) → ℕ → (S → Bool × S) → S → S
  pub retry_once : (S : Type 0) (f : S → Bool × S) (s : S) → retry S 1 f s ≡ (f s).1
  pub retry_more :
      (S : Type 0) (n : ℕ) (f : S → Bool × S) (s : S)
      → retry S (suc (suc n)) f s ≡ (if (f s).0 then (f s).1 else retry S (suc n) f (f s).1)
