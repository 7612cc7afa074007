-- ===== src/Command/Post.antt =====
-- The loop that posts metric values: `loop` of command/command.go, with the goroutines that put
-- values on its queue. One event is one receive, send, timer or reply; the scheduler chooses the
-- order. `V` is the type of a single metric value.
pub mod Reach
pub mod Conserve
pub mod Bounds
pub mod Return
pub mod Leaves
pub mod Delay
pub mod Calm
pub mod Drain
pub mod Terminates
pub mod Settles
pub mod Refines
use mackerel_agent.Prelude.{
  ℕ, zero, suc, ◌+◌, ◌-◌, ◌%◌, ◌/◌, Bool, true, false, ◌&&◌, Option, none, some, List, [], ◌∷◌,
  ◌++◌, ltb, leb, length, is_empty, if◌then◌else◌,
}

abbrev pub post_metrics_interval_seconds : ℕ
post_metrics_interval_seconds = 60

abbrev pub post_metrics_dequeue_delay_seconds : ℕ
post_metrics_dequeue_delay_seconds = 30

abbrev pub post_metrics_retry_delay_seconds : ℕ
post_metrics_retry_delay_seconds = 60

abbrev pub post_metrics_retry_max : ℕ
post_metrics_retry_max = 60

abbrev pub post_metrics_buffer_size : ℕ
post_metrics_buffer_size = 360

pub data LoopState : Type 0 where
  first default queued had_error terminating : LoopState

-- The only error that the loop returns: the terminate instruction was received again.
pub data LoopError : Type 0 where
  force_return : LoopError

pub record PostValue (V : Type 0) : Type 0 where
  pub values : List V
  pub retry_cnt : ℕ

-- Where the loop stands. `starting d` and `sleeping d o` wait on a select with a timer of `d`
-- seconds, `waiting` on the select of the loop, `posting o` on the reply to the values of `o`.
-- `returned e o` is left with `o` taken from the queue and not posted.
pub data Phase (V : Type 0) : Type 0 where
  starting : ℕ → Phase V
  waiting : Phase V
  sleeping : ℕ → List (PostValue V) → Phase V
  posting : List (PostValue V) → Phase V
  returned : Option LoopError → List (PostValue V) → Phase V

-- `queue` is the channel `postQueue`, `resenders` what each goroutine of a failed post has still to
-- send. `posted` lists what the server has accepted, `abandoned` what was logged and given up.
pub record Loop (V : Type 0) : Type 0 where
  pub l_state : LoopState
  pub phase : Phase V
  pub queue : List (PostValue V)
  pub resenders : List (List (PostValue V))
  pub posted : List (PostValue V)
  pub abandoned : List (PostValue V)

-- `term`: the terminate instruction is received. `wake`: the timer of the select fires.
-- `recv now`: the loop receives from the queue at Unix time `now`. `reply b`: the API returns, with
-- no error if `b`. `enqueue vs`: `enqueueLoop` sends. `resend i`: goroutine `i` goes one value on.
pub data Event (V : Type 0) : Type 0 where
  term : Event V
  wake : Event V
  recv : ℕ → Event V
  reply : Bool → Event V
  enqueue : List V → Event V
  resend : ℕ → Event V

abbrev pub is_terminating : LoopState → Bool
is_terminating terminating = true
is_terminating _ = false

-- How long the loop sleeps before it posts.
unfoldable pub delay_seconds : LoopState → ℕ → ℕ → ℕ
delay_seconds first slot now = 0
delay_seconds queued slot now = post_metrics_dequeue_delay_seconds
delay_seconds had_error slot now = post_metrics_retry_delay_seconds
delay_seconds terminating slot now = 1
delay_seconds default slot now =
    let elapsed = now % post_metrics_interval_seconds in
    if ltb elapsed slot then slot - elapsed else 0

-- The next loop state, determined before sleeping from what is left in the queue.
unfoldable pub state_before_sleep {ℓ} : {A : Type ℓ} → LoopState → List A → LoopState
state_before_sleep terminating rest = terminating
state_before_sleep _ rest = if is_empty rest then default else queued

-- The loop state after a post has failed.
unfoldable pub state_after_error : LoopState → LoopState
state_after_error terminating = terminating
state_after_error _ = had_error

-- At most two entries are taken from the queue for one post.
unfoldable pub take_for_post {ℓ} : {A : Type ℓ} → List A → Option (List A × List A)
take_for_post [] = none
take_for_post (v ∷ []) = some (v ∷ [], [])
take_for_post (v ∷ w ∷ rest) = some (v ∷ w ∷ [], rest)

-- The next value of goroutine `i`, and the goroutines after it is taken.
unfoldable pub pick {ℓ} : {A : Type ℓ} → ℕ → List (List A) → Option (A × List (List A))
pick i [] = none
pick zero ([] ∷ gs) = none
pick zero ((v ∷ vs) ∷ gs) = some (v, vs ∷ gs)
pick (suc i) (g ∷ gs) = elim (pick i gs) [ none ↦ none | some (v, hs) ↦ some (v, g ∷ hs) ]

unfoldable pub new_post_value : {V : Type 0} → List V → PostValue V
new_post_value vs = record { values = vs; retry_cnt = 0 }

module _ {V : Type 0} where
  -- `postDelaySeconds := delayByHost(app.Host)`, and half of it before the initial posting.
  unfoldable pub init : ℕ → Loop V
  init slot = record {
    l_state = first;
    phase = starting (slot / 2);
    queue = [];
    resenders = [];
    posted = [];
    abandoned = [];
  }

  unfoldable pub has_room : Loop V → Bool
  has_room s = ltb (length s.queue) post_metrics_buffer_size

  -- `case <-termCh` of the first select, `case <-termMetricsCh` of the other two.
  unfoldable pub on_term : Phase V → Loop V → Option (Loop V)
  on_term (starting d) s = some (record s { phase = returned none [] })
  on_term waiting s =
      if is_terminating s.l_state
      then some (record s { phase = returned (some force_return) [] })
      else some (record s {
        l_state = terminating;
        phase = if is_empty s.queue then returned none [] else waiting;
      })
  on_term (sleeping d orig) s =
      if is_terminating s.l_state
      then some (record s { phase = returned (some force_return) orig })
      else some (record s { l_state = terminating; phase = posting orig })
  on_term (posting orig) s = none
  on_term (returned e orig) s = none

  -- `case <-time.After(...)` of the first and of the last select.
  unfoldable pub on_wake : Phase V → Loop V → Option (Loop V)
  on_wake (starting d) s = some (record s { phase = waiting })
  on_wake (sleeping d orig) s = some (record s { phase = posting orig })
  on_wake _ s = none

  abbrev start_sleep :
      ℕ → ℕ → Loop V → Option (List (PostValue V) × List (PostValue V)) → Option (Loop V)
  start_sleep slot now s none = none
  start_sleep slot now s (some (orig, rest)) = some (record s {
    l_state = state_before_sleep s.l_state rest;
    phase = sleeping (delay_seconds s.l_state slot now) orig;
    queue = rest;
  })

  -- `case v := <-postQueue`, up to the sleep.
  unfoldable pub on_recv : ℕ → ℕ → Phase V → Loop V → Option (Loop V)
  unfolding take_for_post state_before_sleep delay_seconds
  on_recv slot now waiting s = start_sleep slot now s (take_for_post s.queue)
  on_recv slot now _ s = none

  -- What follows `app.API.PostHostMetricValues(postValues)`.
  unfoldable pub on_reply : Bool → Phase V → Loop V → Option (Loop V)
  unfolding state_after_error
  on_reply false (posting orig) s = some (record s {
    l_state = state_after_error s.l_state;
    phase = waiting;
    resenders = s.resenders ++ orig ∷ [];
  })
  on_reply true (posting orig) s = some (record s {
    phase = if is_terminating s.l_state && is_empty s.queue then returned none [] else waiting;
    posted = s.posted ++ orig;
  })
  on_reply _ _ s = none

  -- `postQueue <- newPostValue(creatingValues)`, which waits while the channel is full.
  unfoldable pub on_enqueue : List V → Loop V → Option (Loop V)
  unfolding has_room new_post_value
  on_enqueue vs s =
      if has_room s then some (record s { queue = s.queue ++ new_post_value vs ∷ [] }) else none

  abbrev pub requeue : Loop V → PostValue V → List (List (PostValue V)) → Option (Loop V)
  requeue s v gs =
      let v' : PostValue V = record v { retry_cnt = v.retry_cnt + 1 } in
      if ltb post_metrics_retry_max v'.retry_cnt
      then some (record s { resenders = gs; abandoned = s.abandoned ++ v' ∷ [] })
      else if ltb (length s.queue) post_metrics_buffer_size
      then some (record s { resenders = gs; queue = s.queue ++ v' ∷ [] })
      else none

  abbrev pub resend_picked :
      Loop V → Option (PostValue V × List (List (PostValue V))) → Option (Loop V)
  resend_picked s none = none
  resend_picked s (some (v, gs)) = requeue s v gs

  -- One round of the goroutine of a failed post: the value is counted, and given up or sent.
  unfoldable pub on_resend : ℕ → Loop V → Option (Loop V)
  unfolding pick
  on_resend i s = resend_picked s (pick i s.resenders)

  unfoldable pub step : ℕ → Event V → Loop V → Option (Loop V)
  unfolding on_term on_wake on_recv on_reply on_enqueue on_resend
  step slot term s = on_term s.phase s
  step slot wake s = on_wake s.phase s
  step slot (recv now) s = on_recv slot now s.phase s
  step slot (reply success) s = on_reply success s.phase s
  step slot (enqueue vs) s = on_enqueue vs s
  step slot (resend i) s = on_resend i s
