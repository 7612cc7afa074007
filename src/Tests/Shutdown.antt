-- ===== src/Tests/Shutdown.antt =====
-- The shutdown of the agent on concrete schedules.
use mackerel_agent.Prelude.{ℕ, ◌≡◌, ◌≤◌, ◌+◌, refl, true, false, none, some, List, [], ◌∷◌}
use mackerel_agent.Command.Post.{
  Loop, Phase, Event, wake, recv, enqueue, step, init, terminating, posting, returned, force_return,
}
use mackerel_agent.Shutdown.{
  sigterm, to_checker, idle, System, Act, arrives, handles, times_out, receives, receives_late,
  tells_metrics, goes, act,
}
use mackerel_agent.Shutdown.Told.{
  Reaches, begin, next, at_once, in_time, LimitsFollow, returned-told,
}
use mackerel_agent.Shutdown.Blocked.{act_run, act_run-IsBlocked, is_forced}

-- A signal while a post is prepared, and its time limit.
abbrev acts : List (Act ℕ)
acts =
    tells_metrics
    ∷ receives_late
    ∷ times_out
    ∷ goes (recv 100)
    ∷ tells_metrics
    ∷ receives
    ∷ handles
    ∷ arrives sigterm
    ∷ goes (enqueue (7 ∷ []))
    ∷ goes wake
    ∷ []

abbrev forced_loop : Loop ℕ
forced_loop = record {
  l_state = terminating;
  phase = returned (some force_return) (record { values = 7 ∷ []; retry_cnt = 0 } ∷ []);
  queue = [];
  resenders = [];
  posted = [];
  abandoned = [];
}

abbrev forced_system : System ℕ
forced_system = record {
  handler = record {
    pending = none;
    received = true;
    sending = false;
    sleeping = 0;
    late = 0;
    updates = 0;
  };
  fan_out = idle;
  loop = forced_loop;
}

forced_run : Reaches false false 20 acts forced_system
unfolding act step init
forced_run =
    next tells_metrics
      (next receives_late
        (next times_out
          (next (goes (recv 100))
            (next tells_metrics
              (next receives
                (next handles
                  (next (arrives sigterm)
                    (next (goes (enqueue (7 ∷ []))) (next (goes wake) begin refl) refl) refl)
                  refl)
                refl)
              refl)
            refl)
          refl)
        refl)
      refl

returned-told_example : (2 ≤ at_once acts + in_time acts) × LimitsFollow acts
returned-told_example = returned-told false false 20 acts forced_system forced_run

-- The checkers loop is busy, and a post is tried again and again.
abbrev blocked_system : System ℕ
blocked_system = record forced_system {
  handler = record forced_system.handler { sending = true };
  fan_out = to_checker;
  loop = record forced_loop { phase = posting (record { values = 7 ∷ []; retry_cnt = 0 } ∷ []) };
}

abbrev posting_on : List (Act ℕ)
posting_on = arrives sigterm ∷ goes (Event.reply false) ∷ goes (Event.resend 0) ∷ []

abbrev posting_system : System ℕ
posting_system = record blocked_system {
  handler = record blocked_system.handler { pending = some sigterm };
  loop = record forced_loop {
    phase = Phase.waiting;
    queue = record { values = 7 ∷ []; retry_cnt = 1 } ∷ [];
    resenders = [] ∷ [];
  };
}

posting_run : act_run true false 20 posting_on blocked_system ≡ some posting_system
unfolding act_run act step
posting_run = refl

act_run-IsBlocked_example :
    (posting_system.fan_out ≡ to_checker) × (is_forced posting_system.loop.phase ≡ false)
act_run-IsBlocked_example =
    act_run-IsBlocked true false 20 posting_on blocked_system posting_system refl refl refl
      posting_run
