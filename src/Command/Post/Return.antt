-- ===== src/Command/Post/Return.antt =====
-- When and how the posting loop of command/command.go returns.
use mackerel_agent.Prelude.{
  ℕ, ◌≡◌, refl, Bool, true, false, Option, none, some, List, [], ◌∷◌, ◌⊎◌, arith, ◌||◌,
}
use mackerel_agent.Command.Post.{
  Loop, terminating, LoopError, Phase, starting, returned, PostValue, Event, term, wake, recv,
  reply, enqueue, resend, init, step, on_term, on_wake, on_recv, on_reply, on_enqueue, on_resend,
  pick, resend_picked, is_terminating,
}
use mackerel_agent.Command.Post.Reach.{Reach, begin, next}
use mackerel_agent.Command.Post.Conserve.{hand}

module _ {V : Type 0} where
  abbrev pub has_returned : Phase V → Bool
  has_returned (returned e orig) = true
  has_returned _ = false

  abbrev pub is_starting : Phase V → Bool
  is_starting (starting d) = true
  is_starting _ = false

  abbrev pub is_term : Event V → Bool
  is_term term = true
  is_term _ = false

  abbrev pub has_term : List (Event V) → Bool
  has_term [] = false
  has_term (e ∷ es) = is_term e || has_term es

  abbrev pub is_stopping : Loop V → Bool
  is_stopping s = is_terminating s.l_state || has_returned s.phase

  picked-phase :
      (s t : Loop V) (o : Option (PostValue V × List (List (PostValue V))))
      → resend_picked s o ≡ some t
      → (t.phase ≡ s.phase) × (t.l_state ≡ s.l_state)
  picked-phase s t none h = cc
  picked-phase s t (some (v, gs)) h = ground arith

  -- A goroutine that sends a value again leaves the loop where it stands.
  pub resend-phase :
      (i : ℕ) (s t : Loop V)
      → on_resend i s ≡ some t
      → (t.phase ≡ s.phase) × (t.l_state ≡ s.l_state)
  unfolding on_resend
  resend-phase i s t h = picked-phase s t (pick i s.resenders) h

  -- The loop returns without an error only before the initial posting, or when it was told to
  -- terminate and its queue is empty; it then has nothing in hand.
  pub graceful_return :
      (slot : ℕ) (e : Event V) (s t : Loop V) (orig : List (PostValue V))
      → has_returned s.phase ≡ false
      → step slot e s ≡ some t
      → t.phase ≡ returned none orig
      → (orig ≡ []) × ((is_starting s.phase ≡ true) ⊎ ((t.queue ≡ []) × (t.l_state ≡ terminating)))
  unfolding step
  graceful_return slot term s t orig live h r = unfold on_term in ground arith
  graceful_return slot wake s t orig live h r = unfold on_wake in ground arith
  graceful_return slot (recv now) s t orig live h r = unfold on_recv in ground arith
  graceful_return slot (reply b) s t orig live h r = unfold on_reply in ground arith
  graceful_return slot (enqueue vs) s t orig live h r = unfold on_enqueue in ground arith
  graceful_return slot (resend i) s t orig live h r = ground (arith, resend-phase i s t h)

  -- The loop returns an error only if it was already terminating and the terminate instruction was
  -- received once more; what it leaves behind is what it had in hand.
  pub forced_return :
      (slot : ℕ) (e : Event V) (s t : Loop V) (x : LoopError) (orig : List (PostValue V))
      → has_returned s.phase ≡ false
      → step slot e s ≡ some t
      → t.phase ≡ returned (some x) orig
      → (e ≡ term) × (s.l_state ≡ terminating) × (orig ≡ hand s.phase)
  unfolding step
  forced_return slot term s t x orig live h r = unfold on_term in ground arith
  forced_return slot wake s t x orig live h r = unfold on_wake in ground arith
  forced_return slot (recv now) s t x orig live h r = unfold on_recv in ground arith
  forced_return slot (reply b) s t x orig live h r = unfold on_reply in ground arith
  forced_return slot (enqueue vs) s t x orig live h r = unfold on_enqueue in ground arith
  forced_return slot (resend i) s t x orig live h r = ground (arith, resend-phase i s t h)

  stopping-step :
      (slot : ℕ) (e : Event V) (s t : Loop V)
      → step slot e s ≡ some t
      → is_stopping t ≡ (is_term e || is_stopping s)
  unfolding step
  stopping-step slot term s t h = unfold on_term in ground arith
  stopping-step slot wake s t h = unfold on_wake in ground arith
  stopping-step slot (recv now) s t h = unfold on_recv in ground arith
  stopping-step slot (reply b) s t h = unfold on_reply in ground arith
  stopping-step slot (enqueue vs) s t h = unfold on_enqueue in ground arith
  stopping-step slot (resend i) s t h = ground (arith, resend-phase i s t h)

  -- On every schedule, the loop is terminating or has returned exactly when the terminate
  -- instruction was received; nothing but that instruction ends it, and nothing takes it back.
  pub stopping-Reach :
      (slot : ℕ) (es : List (Event V)) (s : Loop V) → Reach slot es s → is_stopping s ≡ has_term es
  unfolding init
  stopping-Reach slot _ _ begin = refl
  stopping-Reach slot _ t (next {es = es} {s = s} e reach h) =
      ground (arith, stopping-step slot e s t h, stopping-Reach slot es s reach)
