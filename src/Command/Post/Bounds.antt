-- ===== src/Command/Post/Bounds.antt =====
-- The bounds that the posting loop of command/command.go keeps: the retry count of a value, the
-- size of the queue and of one post.
use mackerel_agent.Prelude.{
  ℕ, zero, suc, ◌+◌, ◌≤◌, ◌≡◌, refl, Bool, Option, none, some, List, [], ◌∷◌, inl, inr, arith,
  length, length-append, All, All-append, Option-cases,
}
use mackerel_agent.Command.Post.{
  Loop, PostValue, Event, term, wake, recv, reply, enqueue, resend, init, step, on_term, on_wake,
  on_recv, on_reply, on_enqueue, on_resend, pick, requeue, resend_picked, post_metrics_retry_max,
  post_metrics_buffer_size,
}
use mackerel_agent.Command.Post.Reach.{Reach, begin, next}
use mackerel_agent.Command.Post.Conserve.{hand}

module _ {V : Type 0} where
  -- A value that may be posted again.
  abbrev pub IsFresh : PostValue V → Type 0
  IsFresh v = v.retry_cnt ≤ post_metrics_retry_max

  -- A value that was given up: it has failed once more than it may.
  abbrev pub IsSpent : PostValue V → Type 0
  IsSpent v = v.retry_cnt ≡ post_metrics_retry_max + 1

  pub record WithinLimits (s : Loop V) : Type 0 where
    pub queue_fresh : All IsFresh s.queue
    pub hand_fresh : All IsFresh (hand s.phase)
    pub resenders_fresh : All (All IsFresh) s.resenders
    pub abandoned_spent : All IsSpent s.abandoned
    pub queue_fits : length s.queue ≤ post_metrics_buffer_size
    pub at_most_two : length (hand s.phase) ≤ 2

  pub All-pick :
      (i : ℕ) (gs hs : List (List (PostValue V))) (v : PostValue V)
      → pick i gs ≡ some (v, hs)
      → All (All IsFresh) gs
      → IsFresh v × All (All IsFresh) hs
  unfolding pick
  All-pick zero [] hs v h all = cc
  All-pick (suc i) [] hs v h all = cc
  All-pick zero ([] ∷ gs) hs v h all = cc
  All-pick zero ((u ∷ us) ∷ gs) hs v h all = ground arith
  All-pick (suc i) (g ∷ gs) hs v h all = elim (Option-cases (pick i gs)) [
    | inl e ↦ ground arith
    | inr (p, e) ↦ ground (arith, All-pick i gs p.1 p.0 e all.1)
  ]

  module _ (s t : Loop V) (lim : WithinLimits s) where
    term-WithinLimits : on_term s.phase s ≡ some t → WithinLimits t
    unfolding on_term
    term-WithinLimits h = ground arith

    wake-WithinLimits : on_wake s.phase s ≡ some t → WithinLimits t
    unfolding on_wake
    wake-WithinLimits h = ground arith

    recv-WithinLimits : (slot now : ℕ) → on_recv slot now s.phase s ≡ some t → WithinLimits t
    unfolding on_recv
    recv-WithinLimits slot now h = ground arith

    reply-WithinLimits : (b : Bool) → on_reply b s.phase s ≡ some t → WithinLimits t
    unfolding on_reply
    reply-WithinLimits b h = grind (arith, All-append)

    enqueue-WithinLimits : (vs : List V) → on_enqueue vs s ≡ some t → WithinLimits t
    unfolding on_enqueue
    enqueue-WithinLimits vs h = grind (arith, All-append, length-append)

    requeue-WithinLimits :
        (v : PostValue V) (gs : List (List (PostValue V)))
        → IsFresh v × All (All IsFresh) gs
        → requeue s v gs ≡ some t
        → WithinLimits t
    requeue-WithinLimits v gs f h = grind (arith, All-append, length-append)

  resend_picked-WithinLimits :
      (i : ℕ) (s t : Loop V) (o : Option (PostValue V × List (List (PostValue V))))
      → WithinLimits s
      → pick i s.resenders ≡ o
      → resend_picked s o ≡ some t
      → WithinLimits t
  resend_picked-WithinLimits i s t none lim e h = cc
  resend_picked-WithinLimits i s t (some (v, gs)) lim e h =
      requeue-WithinLimits s t lim v gs (All-pick i s.resenders gs v e lim.resenders_fresh) h

  -- Every step of the loop, of `enqueueLoop` or of a resending goroutine keeps the limits.
  pub step-WithinLimits :
      (slot : ℕ) (e : Event V) (s t : Loop V)
      → WithinLimits s
      → step slot e s ≡ some t
      → WithinLimits t
  unfolding step
  step-WithinLimits slot term s t lim h = term-WithinLimits s t lim h
  step-WithinLimits slot wake s t lim h = wake-WithinLimits s t lim h
  step-WithinLimits slot (recv now) s t lim h = recv-WithinLimits s t lim slot now h
  step-WithinLimits slot (reply b) s t lim h = reply-WithinLimits s t lim b h
  step-WithinLimits slot (enqueue vs) s t lim h = enqueue-WithinLimits s t lim vs h
  step-WithinLimits slot (resend i) s t lim h =
      resend_picked-WithinLimits i s t (pick i s.resenders) lim refl (unfold on_resend in h)

  -- On every schedule: a value waiting to be posted has failed at most sixty times, a value that
  -- was abandoned has failed exactly sixty-one times, the queue never holds more than 360 values,
  -- and at most two are posted at once.
  pub Reach-WithinLimits :
      (slot : ℕ) (es : List (Event V)) (s : Loop V) → Reach slot es s → WithinLimits s
  unfolding init
  Reach-WithinLimits slot _ _ begin = omega arith
  Reach-WithinLimits slot _ t (next {es = es} {s = s} e reach h) =
      step-WithinLimits slot e s t (Reach-WithinLimits slot es s reach) h
