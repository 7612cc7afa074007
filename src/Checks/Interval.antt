-- ===== src/Checks/Interval.antt =====
-- How often a check runs, and the status of what it ran (checks/checker.go).
use mackerel_agent.Prelude.{
  ◌||◌, ltb, String, ℕ, zero, suc, ◌*◌, ◌≤◌, ◌<◌, Option, none, some, ◌≡◌, ◌↔◌, ◌≢◌, refl, arith,
  if◌then◌else◌,
}
use mackerel_agent.Prelude.Int.{ℤ, pos, negsuc, pos_part, neg_part, ◌≤ℤ◌, scale, wrap_int64, ltb_ℤ}
use mackerel_agent.Checks.{
  Status, status_ok, warning, critical, unknown, undefined, exited, not_run, status_of,
  check_interval, clamp_interval, minute,
}

clamp_interval_bounds :
    (d : ℤ) → (pos minute ≤ℤ clamp_interval d) × (clamp_interval d ≤ℤ pos (60 * minute))
unfolding clamp_interval
clamp_interval_bounds d = ground arith

-- Whatever the configuration says, a check runs every minute at most, and every sixty at least.
pub check_interval_bounds :
    (o : Option ℤ) → (pos minute ≤ℤ check_interval o) × (check_interval o ≤ℤ pos (60 * minute))
unfolding check_interval
check_interval_bounds none = omega arith
check_interval_bounds (some n) = clamp_interval_bounds (wrap_int64 (scale n minute))

-- A configured number of minutes from 1 to 60 is the interval; a smaller one, also a negative one
-- from -153722867 on, is taken as 1, and a larger one, up to 153722867, as 60. From 153722868
-- minutes on, which an int32 can hold, the product with a minute overflows: up to 307445733 the
-- check then runs every minute and not every sixty.
pub check_interval_minutes :
    (n : ℤ)
    → neg_part n ≤ 153722867
    → pos_part n < 307445734
    → check_interval (some n) ≡ (
        if ltb_ℤ n (pos 1) || ltb 153722867 (pos_part n)
        then pos minute
        else if ltb_ℤ (pos 60) n
        then pos (60 * minute)
        else pos (pos_part n * minute))
unfolding check_interval
check_interval_minutes (pos n) h k = ground arith
check_interval_minutes (negsuc n) h k = ground arith

-- The status that an exit code stands for.
abbrev pub IsStatus : ℕ → Status → Type 0
IsStatus code s =
    ((s ≡ status_ok) ↔ (code ≡ 0))
    × ((s ≡ warning) ↔ (code ≡ 1))
    × ((s ≡ critical) ↔ (code ≡ 2))
    × ((s ≡ unknown) ↔ (3 ≤ code))
    × (s ≢ undefined)

of_code : (m : String) (code : ℕ) → IsStatus code (status_of (exited m (pos code)))
unfolding status_of
of_code m zero = grind arith
of_code m (suc zero) = grind arith
of_code m (suc (suc zero)) = grind arith
of_code m (suc (suc (suc zero))) = grind arith
of_code m (suc (suc (suc (suc n)))) = grind arith

-- A command that exits has the status that its code stands for, 3 and above being unknown; one that
-- is has a negative code, or cannot be run, is unknown too.
pub status_of_lem :
    ((message : String) (code : ℕ) → IsStatus code (status_of (exited message (pos code))))
    × ((message : String) (n : ℕ) → status_of (exited message (negsuc n)) ≡ unknown)
    × ((e : String) → status_of (not_run e) ≡ unknown)
unfolding status_of
status_of_lem = (λ m code. of_code m code, λ m n. refl, λ e. refl)
