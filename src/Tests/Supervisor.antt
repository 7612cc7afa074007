-- ===== src/Tests/Supervisor.antt =====
-- A child that is reloaded, then crashes after a minute, then is stopped (supervisor/supervisor.go).
use mackerel_agent.Prelude.{
  ℕ, ◌+◌, ◌*◌, ◌≤◌, ◌≡◌, refl, true, false, none, some, List, [], ◌∷◌, arith,
}
use mackerel_agent.Supervisor.{
  Supervisor, SupervisorEvent, hup, stop_signal, child_exit, starts, child_ended, spawn_interval,
  supervised, supervisor_run, supervisor_step,
}
use mackerel_agent.Supervisor.Restarts.{reloads, restarts_paced, stopped_for_good}

abbrev schedule : List (ℕ × SupervisorEvent)
schedule =
    (1, hup true)
    ∷ (2, child_exit false)
    ∷ (2, starts true)
    ∷ (60000000003, child_exit true)
    ∷ (60000000003, starts true)
    ∷ []

abbrev running : Supervisor
running = record {
  start_at = 60000000003;
  signaled = false;
  hupped = false;
  clock = 60000000003;
  spawns = 3;
  terms = 1;
  restarting = false;
  outcome = none;
}

ran-schedule : supervisor_run schedule (supervised 0) ≡ some running
unfolding supervisor_run supervised
ran-schedule = refl

restarts_paced_example :
    spawn_interval * running.spawns + 0 ≤ spawn_interval * (reloads schedule + 1) + running.clock
restarts_paced_example = restarts_paced 0 schedule running ran-schedule

-- The signal arrives when the child has ended and the next one is not started yet.
abbrev ended : Supervisor
ended = record running { clock = 120000000004; restarting = true }

ran_end : supervisor_run ((120000000004, child_exit true) ∷ []) running ≡ some ended
unfolding supervisor_run
ran_end = refl

abbrev after_signal : List (ℕ × SupervisorEvent)
after_signal = (120000000006, starts true) ∷ (120000000007, hup true) ∷ []

abbrev stopped : Supervisor
stopped = record running {
  start_at = 120000000006;
  signaled = true;
  hupped = true;
  clock = 120000000007;
  spawns = 4;
  terms = 3;
}

ran_stop : supervisor_run ((120000000005, stop_signal) ∷ after_signal) ended ≡ some stopped
unfolding supervisor_run
ran_stop = refl

stopped_for_good_example :
    (stopped.spawns ≡ ended.spawns + 1)
    × (supervisor_step 120000000008 (child_exit true) stopped
        ≡ some (record stopped { clock = 120000000008; outcome = some (child_ended true) }))
stopped_for_good_example =
    stopped_for_good 120000000005 120000000008 after_signal true ended stopped ran_stop refl refl
      (omega arith)
