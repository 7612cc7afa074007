-- ===== src/Supervisor.antt =====
-- The package supervisor (supervisor/supervisor.go): a child process that is started again when it
-- dies or is told to reload. Times are in nanoseconds; the scheduler chooses the order of the
-- signals and of the child's exits.
pub mod Restarts
use mackerel_agent.Prelude.{
  ℕ, ◌+◌, ◌*◌, Bool, true, false, not, ◌&&◌, ◌||◌, Option, none, some, List, [], ◌∷◌, leb, ltb,
  if◌then◌else◌,
}

-- Thirty seconds.
abbrev pub spawn_interval : ℕ
spawn_interval = 30000000000

-- How `supervise` ends: with the error of the child that exited, if any, or of a failed start.
pub data Outcome : Type 0 where
  child_ended : Bool → Outcome
  not_started : Outcome

-- `start_at`, `signaled` and `hupped` are the supervisor's fields. `clock` is the time of the last
-- event, `spawns` counts the processes that were started, and `terms` the signals sent to the process
-- that was started last, which may have ended.
-- `restarting` tells that the child has ended and `wait` is past its test, but not past `start`.
-- `outcome` is what `wait` has returned.
pub record Supervisor : Type 0 where
  pub start_at : ℕ
  pub signaled : Bool
  pub hupped : Bool
  pub clock : ℕ
  pub spawns : ℕ
  pub terms : ℕ
  pub restarting : Bool
  pub outcome : Option Outcome

-- `hup ok`: SIGHUP arrives, and `configtest` passes if `ok`. `stop_signal`: any other signal.
-- `child_exit failed`: `cmd.Wait()` returns, with an error if `failed`, and the test after it is made.
-- `starts started`: the child is started again, which succeeds if `started`. Signals are handled by
-- another goroutine, so they may come between the two.
pub data SupervisorEvent : Type 0 where
  hup : Bool → SupervisorEvent
  stop_signal : SupervisorEvent
  child_exit : Bool → SupervisorEvent
  starts : Bool → SupervisorEvent

-- launched: the child has been running for more than thirty seconds.
unfoldable pub launched : ℕ → Supervisor → Bool
launched now sv = ltb (sv.start_at + spawn_interval) now

-- start, whose `cmd.Start()` succeeds if `started`.
unfoldable pub start_child : Bool → ℕ → Supervisor → Supervisor
start_child started now sv =
    let sv' : Supervisor = record sv { hupped = false; start_at = now; restarting = false } in
    if started
    then record sv' { spawns = sv'.spawns + 1 }
    else record sv' { outcome = some not_started }

-- stop
unfoldable pub stop : Supervisor → Supervisor
stop sv = record sv { signaled = true; terms = sv.terms + 1 }

-- reload: nothing is done if the configuration is not good.
unfoldable pub reload : Bool → Supervisor → Supervisor
reload config_ok sv = if config_ok then record sv { hupped = true; terms = sv.terms + 1 } else sv

-- One round of `wait`, up to `sv.start()`.
unfoldable pub on_child_exit : Bool → ℕ → Supervisor → Option Supervisor
unfolding launched
on_child_exit failed now sv =
    if sv.restarting
    then none
    else if sv.signaled || (not sv.hupped && not (launched now sv))
    then some (record sv { outcome = some (child_ended failed) })
    else some (record sv { restarting = true })

-- `sv.start()` in `wait`
unfoldable pub on_starts : Bool → ℕ → Supervisor → Option Supervisor
unfolding start_child
on_starts started now sv = if sv.restarting then some (start_child started now sv) else none

abbrev dispatch : SupervisorEvent → ℕ → Supervisor → Option Supervisor
dispatch (hup config_ok) now sv = some (reload config_ok sv)
dispatch stop_signal now sv = some (stop sv)
dispatch (child_exit failed) now sv = on_child_exit failed now sv
dispatch (starts started) now sv = on_starts started now sv

-- An event at time `now`. Time does not run backwards, and nothing is handled after the end.
unfoldable pub supervisor_step : ℕ → SupervisorEvent → Supervisor → Option Supervisor
unfolding reload stop on_child_exit on_starts
supervisor_step now e sv = elim sv.outcome [
  | some o ↦ none
  | none ↦ if leb sv.clock now then dispatch e now (record sv { clock = now }) else none
]

-- supervise, after the first start has succeeded.
unfoldable pub supervised : ℕ → Supervisor
supervised now = record {
  start_at = now;
  signaled = false;
  hupped = false;
  clock = now;
  spawns = 1;
  terms = 0;
  restarting = false;
  outcome = none;
}

-- The events of a schedule with their times, the first one first.
unfoldable pub supervisor_run : List (ℕ × SupervisorEvent) → Supervisor → Option Supervisor
unfolding supervisor_step
supervisor_run [] sv = some sv
supervisor_run ((now, e) ∷ es) sv = elim (supervisor_step now e sv) [
  | none ↦ none
  | some sv' ↦ supervisor_run es sv'
]
