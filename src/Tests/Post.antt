-- ===== src/Tests/Post.antt =====
-- The posting loop of command/command.go on concrete schedules.
use mackerel_agent.Prelude.{
  is_empty, ℕ, ◌≡◌, refl, true, false, none, some, List, [], ◌∷◌, ◌++◌, total, ◌⊎◌, ◌+◌, ◌*◌, ◌≤◌,
  length, arith,
}
use mackerel_agent.Command.Post.{
  Loop, Phase, Event, PostValue, term, wake, recv, reply, enqueue, resend, init, step, default,
  had_error, terminating, waiting, sleeping, returned, force_return,
}
use mackerel_agent.Command.Post.Reach.{Reach, begin, next, enqueued}
use mackerel_agent.Command.Post.Conserve.{held, held-Reach, weigh}
use mackerel_agent.Command.Post.Bounds.{WithinLimits, Reach-WithinLimits}
use mackerel_agent.Command.Post.Return.{graceful_return, is_starting, has_returned}
use mackerel_agent.Command.Post.Leaves.{graceful_return_leaves_resenders}
use mackerel_agent.Command.Post.Delay.{retry_paced, Sleeps, quiet, then_enqueue}
use mackerel_agent.Command.Post.Terminates.{events-Reach}
use mackerel_agent.Command.Post.Settles.{AtRest, posted-AtRest}
use mackerel_agent.Command.Post.Refines.{OutboxStep, outbox, step-outbox}
use mackerel_agent.Command.Post.Calm.{run}
use mackerel_agent.Command.Post.Drain.{drain_returns}

abbrev one_value : PostValue ℕ
one_value = record { values = 7 ∷ []; retry_cnt = 0 }

-- The first post has failed, and a goroutine holds its values.
abbrev failed_once : Loop ℕ
failed_once = record {
  l_state = had_error;
  phase = waiting;
  queue = [];
  resenders = (one_value ∷ []) ∷ [];
  posted = [];
  abandoned = [];
}

abbrev failing_events : List (Event ℕ)
failing_events = reply false ∷ wake ∷ recv 100 ∷ enqueue (7 ∷ []) ∷ wake ∷ []

failing_run : Reach 20 failing_events failed_once
unfolding step init
failing_run =
    next (reply false)
      (next wake (next (recv 100) (next (enqueue (7 ∷ [])) (next wake begin refl) refl) refl) refl)
      refl

held-Reach_example :
    held (total (λ n. n)) failed_once ≡ total (total (λ n. n)) (enqueued failing_events)
held-Reach_example = held-Reach (total (λ n. n)) 20 failing_events failed_once failing_run

Reach-WithinLimits_example : WithinLimits failed_once
Reach-WithinLimits_example = Reach-WithinLimits 20 failing_events failed_once failing_run

abbrev lost : Loop ℕ
lost = record failed_once { l_state = terminating; phase = returned none [] }

lost-step : step 20 term failed_once ≡ some lost
unfolding step
lost-step = refl

graceful_return_example :
    (◌≡◌ {A = List (PostValue ℕ)} [] [])
    × ((is_starting failed_once.phase ≡ true) ⊎ ((lost.queue ≡ []) × (lost.l_state ≡ terminating)))
graceful_return_example = graceful_return 20 term failed_once lost [] refl lost-step refl

abbrev preparing : Loop ℕ
preparing = record failed_once {
  l_state = terminating;
  phase = sleeping 1 (one_value ∷ []);
  resenders = [];
}

abbrev forced : Loop ℕ
forced = record preparing { phase = returned (some force_return) (one_value ∷ []) }

forced-step : step 20 term preparing ≡ some forced
unfolding step
forced-step = refl

abbrev in_post : Loop ℕ
in_post = record failed_once {
  l_state = default;
  phase = Phase.posting (one_value ∷ []);
  resenders = [];
}

abbrev left : Loop ℕ
left = record in_post {
  l_state = terminating;
  phase = returned none [];
  resenders = (one_value ∷ []) ∷ [];
}

left-run : run 20 (reply false ∷ term ∷ []) in_post ≡ some left
unfolding run step
left-run = refl

-- The goroutine goes on, and its value stays in the queue.
abbrev left_in_queue : Loop ℕ
left_in_queue = record left {
  queue = record { values = 7 ∷ []; retry_cnt = 1 } ∷ [];
  resenders = [] ∷ [];
}

left_in_queue-run : run 20 (resend 0 ∷ []) left ≡ some left_in_queue
unfolding run step
left_in_queue-run = refl

graceful_return_leaves_resenders_example :
    (left.resenders ≡ (one_value ∷ []) ∷ [])
    × (left.abandoned ≡ [])
    × (((is_empty in_post.queue ≡ false) × (has_returned left.phase ≡ false))
        ⊎ ((is_empty in_post.queue ≡ true)
            × (left_in_queue.phase ≡ returned none [])
            × (left_in_queue.posted ≡ [])))
graceful_return_leaves_resenders_example =
    graceful_return_leaves_resenders 20 (resend 0 ∷ []) in_post left left_in_queue (one_value ∷ [])
      refl refl left-run left_in_queue-run

abbrev enqueued_again : Loop ℕ
enqueued_again = record failed_once { queue = record { values = 8 ∷ []; retry_cnt = 0 } ∷ [] }

abbrev sleeping_again : Loop ℕ
sleeping_again = record failed_once {
  l_state = default;
  phase = sleeping 60 (record { values = 8 ∷ []; retry_cnt = 0 } ∷ []);
}

retry_paced_example : Sleeps sleeping_again.phase 60
unfolding step
retry_paced_example =
    retry_paced 20 100 in_post failed_once enqueued_again sleeping_again refl
      (then_enqueue (8 ∷ []) (quiet failed_once) refl) refl

abbrev draining : Loop ℕ
draining = record failed_once {
  l_state = terminating;
  queue = one_value ∷ one_value ∷ one_value ∷ [];
  resenders = [];
}

abbrev draining_events : List (Event ℕ)
draining_events = recv 100 ∷ wake ∷ reply true ∷ recv 101 ∷ wake ∷ reply true ∷ []

abbrev drained : Loop ℕ
drained = record draining { phase = returned none []; queue = []; posted = draining.queue }

drained-run : run 20 draining_events draining ≡ some drained
unfolding run step
drained-run = refl

drained-AtRest : AtRest 20 drained
unfolding step
drained-AtRest e t own h = ground arith

drain_returns_example :
    (drained.phase ≡ returned none [])
    × (more : List (PostValue ℕ)) × (drained.posted ≡ [] ++ (draining.queue ++ more))
drain_returns_example =
    drain_returns 20 draining_events draining drained refl refl (λ e. cc) refl drained-run
      drained-AtRest

events-Reach_example : length failing_events ≤ 245 * length (enqueued failing_events) + 3
events-Reach_example = events-Reach 20 failing_events failed_once failing_run

abbrev delivering_events : List (Event ℕ)
delivering_events = reply true ∷ wake ∷ recv 100 ∷ enqueue (7 ∷ []) ∷ wake ∷ []

abbrev settled : Loop ℕ
settled = record failed_once { l_state = default; resenders = []; posted = one_value ∷ [] }

settled-step : step 20 (reply true) in_post ≡ some settled
unfolding step
settled-step = refl

delivering_run : Reach 20 delivering_events settled
unfolding step init
delivering_run =
    next (reply true)
      (next wake (next (recv 100) (next (enqueue (7 ∷ [])) (next wake begin refl) refl) refl) refl)
      refl

settled-AtRest : AtRest 20 settled
unfolding step
settled-AtRest e t own h = ground arith

posted-AtRest_example :
    weigh (total (λ n. n)) settled.posted + weigh (total (λ n. n)) settled.abandoned
    ≡ total (total (λ n. n)) (enqueued delivering_events)
posted-AtRest_example =
    posted-AtRest (total (λ n. n)) 20 delivering_events settled delivering_run settled-AtRest refl

step-outbox_example : OutboxStep (outbox in_post) (outbox settled)
step-outbox_example = step-outbox 20 (reply true) in_post settled settled-step
