-- ===== src/Command/Checker/Schedule.antt =====
-- When a checker runs next (command/command.go), also after the clock has jumped.
use mackerel_agent.Prelude.{ℕ, ◌+◌, ◌-◌, ◌*◌, ◌/◌, ◌≤◌, ◌<◌, ◌≡◌, arith}
use mackerel_agent.Command.Checker.{next_time}
use native.Mathlib.Nat.{div-add-mod, mod-lt}

-- However late after its time the check has ended, the next one starts within an interval, at one of the times that
-- the first one set: the slots are an interval apart, and none that is still to come is skipped.
pub next_time_slot :
    (interval next now : ℕ)
    → 0 < interval
    → next ≤ now
    → (next_time interval next now ≡ next + interval * ((now - next) / interval + 1))
      × (now < next_time interval next now)
      × (next_time interval next now ≤ now + interval)
unfolding next_time
next_time_slot interval next now h k =
    ground (arith, div-add-mod (now - next) interval, mod-lt (now - next) h)

-- If the clock was set back, the next check still starts later than now, and in less than two
-- intervals.
pub next_time_set_back :
    (interval next now : ℕ)
    → 0 < interval
    → now < next
    → (now < next_time interval next now) × (next_time interval next now < now + 2 * interval)
unfolding next_time
next_time_set_back interval next now h k = ground (arith, mod-lt (next - now) h)
