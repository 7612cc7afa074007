-- ===== src/Command/Post/Terminates.antt =====
-- The posting loop of command/command.go does not go on forever: how many events a schedule has,
-- and where it comes to rest.
use mackerel_agent.Prelude.{
  ℕ, zero, suc, ◌+◌, ◌-◌, ◌*◌, ◌≤◌, ◌<◌, ◌≡◌, refl, Bool, Option, none, some, List, [], ◌∷◌, arith,
  length, total, total-append, inl, inr, Option-cases,
}
use mackerel_agent.Command.Post.{
  Loop, LoopState, terminating, Phase, starting, waiting, sleeping, posting, returned, PostValue,
  Event, term, wake, recv, reply, enqueue, resend, init, step, on_term, on_wake, on_recv, on_reply,
  on_enqueue, on_resend, pick, requeue, resend_picked,
}
use mackerel_agent.Command.Post.Reach.{Reach, begin, next, enqueued}
use mackerel_agent.Command.Post.Conserve.{hand}
use mackerel_agent.Command.Post.Bounds.{IsFresh, WithinLimits, Reach-WithinLimits, All-pick}

abbrev state_work : LoopState → ℕ
state_work terminating = 0
state_work _ = 1

module _ {V : Type 0} where
  -- What is left to happen to a value in the queue: four events for each post that it is allowed.
  abbrev queued_work : PostValue V → ℕ
  queued_work v = 244 - 4 * v.retry_cnt

  -- The same for a value that was taken from the queue.
  abbrev taken_work : PostValue V → ℕ
  taken_work v = 241 - 4 * v.retry_cnt

  abbrev phase_work : Phase V → ℕ
  phase_work (starting d) = 2
  phase_work waiting = 1
  phase_work (sleeping d orig) = 3
  phase_work (posting orig) = 2
  phase_work (returned e orig) = 0

  unfoldable work : Loop V → ℕ
  work s =
      total queued_work s.queue
      + total taken_work (hand s.phase)
      + total (total taken_work) s.resenders
      + phase_work s.phase
      + state_work s.l_state

  work-pick :
      (i : ℕ) (gs hs : List (List (PostValue V))) (v : PostValue V)
      → pick i gs ≡ some (v, hs)
      → total (total taken_work) gs ≡ taken_work v + total (total taken_work) hs
  unfolding pick
  work-pick zero [] hs v h = cc
  work-pick (suc i) [] hs v h = cc
  work-pick zero ([] ∷ gs) hs v h = cc
  work-pick zero ((u ∷ us) ∷ gs) hs v h = ground arith
  work-pick (suc i) (g ∷ gs) hs v h = elim (Option-cases (pick i gs)) [
    | inl e ↦ ground arith
    | inr (p, e) ↦ ground (arith, work-pick i gs p.1 p.0 e)
  ]

  module _ (s t : Loop V) where
    work-term : on_term s.phase s ≡ some t → work t < work s
    unfolding on_term work
    work-term h = ground arith

    work-wake : on_wake s.phase s ≡ some t → work t < work s
    unfolding on_wake work
    work-wake h = ground arith

    work-reply : (b : Bool) → on_reply b s.phase s ≡ some t → work t < work s
    unfolding on_reply work
    work-reply b h = grind (arith, total-append)

    work-recv :
        (slot now : ℕ) → WithinLimits s → on_recv slot now s.phase s ≡ some t → work t < work s
    unfolding on_recv work
    work-recv slot now lim h = ground arith

    work-enqueue : (vs : List V) → on_enqueue vs s ≡ some t → work t ≡ 244 + work s
    unfolding on_enqueue work
    work-enqueue vs h = grind (arith, total-append)

    work-requeue :
        (v : PostValue V) (gs : List (List (PostValue V)))
        → IsFresh v
        → total (total taken_work) s.resenders ≡ taken_work v + total (total taken_work) gs
        → requeue s v gs ≡ some t
        → work t < work s
    unfolding work
    work-requeue v gs f e h = grind (arith, total-append)

  work-resend_picked :
      (i : ℕ) (s t : Loop V) (o : Option (PostValue V × List (List (PostValue V))))
      → WithinLimits s
      → pick i s.resenders ≡ o
      → resend_picked s o ≡ some t
      → work t < work s
  work-resend_picked i s t none lim e h = cc
  work-resend_picked i s t (some (v, gs)) lim e h =
      work-requeue s t v gs (All-pick i s.resenders gs v e lim.resenders_fresh).0
        (work-pick i s.resenders gs v e) h

  -- Each event takes from what is left to happen; a batch that is enqueued adds 244.
  work-step :
      (slot : ℕ) (e : Event V) (s t : Loop V)
      → WithinLimits s
      → step slot e s ≡ some t
      → suc (work t) ≤ 245 * length (enqueued (e ∷ [])) + work s
  unfolding step
  work-step slot term s t lim h = omega (arith, work-term s t h)
  work-step slot wake s t lim h = omega (arith, work-wake s t h)
  work-step slot (recv now) s t lim h = omega (arith, work-recv s t slot now lim h)
  work-step slot (reply b) s t lim h = omega (arith, work-reply s t b h)
  work-step slot (enqueue vs) s t lim h = omega (arith, work-enqueue s t vs h)
  work-step slot (resend i) s t lim h =
      omega (arith, work-resend_picked i s t (pick i s.resenders) lim refl (unfold on_resend in h))

  enqueued-length :
      (e : Event V) (es : List (Event V))
      → length (enqueued (e ∷ es)) ≡ length (enqueued (e ∷ [])) + length (enqueued es)
  enqueued-length (enqueue vs) es = omega arith
  enqueued-length _ es = omega arith

  work-Reach :
      (slot : ℕ) (es : List (Event V)) (s : Loop V)
      → Reach slot es s
      → length es + work s ≤ 245 * length (enqueued es) + 3
  unfolding init work
  work-Reach slot _ _ begin = omega arith
  work-Reach slot _ t (next {es = es} {s = s} e reach h) = omega (
    arith,
    work-step slot e s t (Reach-WithinLimits slot es s reach) h,
    enqueued-length e es,
    work-Reach slot es s reach,
  )

  -- Every schedule of the loop is finite, whatever the server replies: beside three events, it has
  -- at most 245 for each batch that was enqueued. So when nothing is enqueued any more, the loop,
  -- its timers, the server's replies and the resending goroutines come to rest.
  pub events-Reach :
      (slot : ℕ) (es : List (Event V)) (s : Loop V)
      → Reach slot es s
      → length es ≤ 245 * length (enqueued es) + 3
  events-Reach slot es s reach = omega (arith, work-Reach slot es s reach)
