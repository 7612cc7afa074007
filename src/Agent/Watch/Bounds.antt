-- ===== src/Agent/Watch/Bounds.antt =====
-- What holds of the ticker and the workers of agent/agent.go on every schedule.
use mackerel_agent.Prelude.{
  Bool, true, ℕ, ◌+◌, ◌≤◌, ◌<◌, ◌≡◌, Option, none, some, List, [], ◌∷◌, arith, length, inl, inr,
  Option-cases,
}
use mackerel_agent.Agent.Watch.{
  Watch, WatchEvent, tick, start, finish, begin_watch, fires, on_tick, on_start, on_finish,
  watch_step, watch_run, interval, collect_metrics_worker_max,
}

-- The ticks of the list fall, all of them below the bound.
abbrev pub FallsBelow : ℕ → List ℕ → Type 0
FallsBelow b [] = Unit
FallsBelow b (t ∷ ts) = (t < b) × FallsBelow t ts

-- The tick that is held is the last one sent, later than all that a worker was started for.
abbrev pub HeldLast : Option ℕ → Watch → Type 0
HeldLast none s = FallsBelow (s.last + 1) s.started
HeldLast (some t) s = (t ≡ s.last) × FallsBelow t s.started

pub record WatchInv (s : Watch) : Type 0 where
  pub workers_max : s.workers ≤ collect_metrics_worker_max
  pub accounted : length s.started ≡ s.workers + s.finished
  pub in_order : HeldLast s.held s
  pub past : s.last ≤ s.clock

FallsBelow-mono : (a b : ℕ) (ts : List ℕ) → a ≤ b → FallsBelow a ts → FallsBelow b ts
FallsBelow-mono a b [] h f = tt
FallsBelow-mono a b (t ∷ ts) h f = ground arith

tick-WatchInv :
    (t : ℕ) (ready : Bool) (s : Watch) → s.clock < t → WatchInv s → WatchInv (on_tick t ready s)
unfolding on_tick
tick-WatchInv t ready s h v = ground (arith, FallsBelow-mono (s.last + 1) t s.started)

start-WatchInv : (s u : Watch) → WatchInv s → on_start s.held s ≡ some u → WatchInv u
unfolding on_start
start-WatchInv s u v h = ground arith

finish-WatchInv : (s u : Watch) → WatchInv s → on_finish s ≡ some u → WatchInv u
unfolding on_finish
finish-WatchInv s u v h = ground arith

pub step-WatchInv :
    (e : WatchEvent) (s u : Watch) → WatchInv s → watch_step e s ≡ some u → WatchInv u
unfolding watch_step
step-WatchInv (tick t ready) s u v h = ground (arith, tick-WatchInv t ready s)
step-WatchInv start s u v h = start-WatchInv s u v h
step-WatchInv finish s u v h = finish-WatchInv s u v h

run-WatchInv :
    (es : List WatchEvent) (s u : Watch) → WatchInv s → watch_run es s ≡ some u → WatchInv u
unfolding watch_run
run-WatchInv [] s u v h = ground arith
run-WatchInv (e ∷ es) s u v h = elim (Option-cases (watch_step e s)) [
  | inl p ↦ ground arith
  | inr (t, p) ↦ run-WatchInv es t u (step-WatchInv e s t v p) (ground arith)
]

-- Whatever the ticks and the workers do: at most three workers collect at once, each worker that
-- was started is at work or has finished, and the ticks that workers are started for rise, so that
-- no time of a result comes twice.
pub watch_bounds :
    (now : ℕ) (es : List WatchEvent) (s : Watch)
    → watch_run es (begin_watch now) ≡ some s
    → WatchInv s
watch_bounds now es s h = run-WatchInv es (begin_watch now) s (unfold begin_watch in omega arith) h

-- While ticks are taken over at once, the last tick sent is never more than a minute old.
pub tick_within_interval :
    (t : ℕ) (s u : Watch)
    → s.held ≡ none
    → watch_step (tick t true) s ≡ some u
    → t ≤ u.last + interval
unfolding watch_step on_tick fires
tick_within_interval t s u h e = ground arith
