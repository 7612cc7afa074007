-- ===== src/Agent/Watch.antt =====
-- The ticker of the agent and the workers that collect metrics: `Watch` of agent/agent.go. Times
-- are nanoseconds since the epoch.
pub mod Bounds
use mackerel_agent.Prelude.{
  ℕ, ◌+◌, ◌-◌, ◌*◌, ◌/◌, ◌%◌, Bool, true, false, ◌||◌, ◌&&◌, Option, none, some, List, [], ◌∷◌, ltb,
  ◌==◌, is_some, if◌then◌else◌, not,
}

abbrev pub second : ℕ
second = 1000000000

-- config.PostMetricsInterval
abbrev pub interval : ℕ
interval = 60 * second

abbrev pub collect_metrics_worker_max : ℕ
collect_metrics_worker_max = 3

-- `last` is the time of the last tick that was sent, `clock` that of the last tick at all, `held`
-- a tick that was received and waits for a worker, `workers` the slots of `sem` in use. `started`
-- lists the ticks that a worker was started for, the last one first, `finished` counts the workers
-- that have handed over their result.
pub record Watch : Type 0 where
  pub last : ℕ
  pub clock : ℕ
  pub held : Option ℕ
  pub workers : ℕ
  pub started : List ℕ
  pub finished : ℕ

-- `tick t ready`: a tick of the timer at time `t`, when the goroutine that receives ticks is `ready` for
-- one, unless it waits for a worker. `start`: a worker is started. `finish`: a worker ends.
pub data WatchEvent : Type 0 where
  tick : ℕ → Bool → WatchEvent
  start : WatchEvent
  finish : WatchEvent

-- The first tick is sent when the watch begins.
unfoldable pub begin_watch : ℕ → Watch
begin_watch now = record {
  last = now;
  clock = now;
  held = some now;
  workers = 0;
  started = [];
  finished = 0;
}

-- t.Second()%int(interval.Seconds()) == 0 || t.After(last.Add(interval))
unfoldable pub fires : ℕ → ℕ → Bool
fires last t = ((t / second) % 60) % 60 == 0 || ltb (last + interval) t

-- The send of a tick does not wait: it is dropped when nothing receives, as while another tick is
-- held.
unfoldable pub on_tick : ℕ → Bool → Watch → Watch
unfolding fires
on_tick t ready s =
    if fires s.last t && (ready && not (is_some s.held))
    then record s { clock = t; last = t; held = some t }
    else record s { clock = t }

unfoldable pub on_start : Option ℕ → Watch → Option Watch
on_start none s = none
on_start (some t) s =
    if ltb s.workers collect_metrics_worker_max
    then some (record s { held = none; workers = s.workers + 1; started = t ∷ s.started })
    else none

unfoldable pub on_finish : Watch → Option Watch
on_finish s =
    if ltb 0 s.workers
    then some (record s { workers = s.workers - 1; finished = s.finished + 1 })
    else none

-- Ticks come with rising times.
unfoldable pub watch_step : WatchEvent → Watch → Option Watch
unfolding on_tick on_start on_finish
watch_step (tick t ready) s = if ltb s.clock t then some (on_tick t ready s) else none
watch_step start s = on_start s.held s
watch_step finish s = on_finish s

unfoldable pub watch_run : List WatchEvent → Watch → Option Watch
unfolding watch_step
watch_run [] s = some s
watch_run (e ∷ es) s = elim (watch_step e s) [ none ↦ none | some t ↦ watch_run es t ]
