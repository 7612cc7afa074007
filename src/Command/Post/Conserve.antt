-- ===== src/Command/Post/Conserve.antt =====
-- No metric value is lost or doubled by the posting loop of command/command.go: whatever is
-- enqueued is somewhere, once.
use mackerel_agent.Prelude.{
  ℕ, zero, suc, ◌+◌, ◌≡◌, refl, Bool, Option, none, some, List, [], ◌∷◌, arith, total, total-append,
  inl, inr, Option-cases,
}
use mackerel_agent.Command.Post.{
  Loop, Phase, sleeping, posting, returned, PostValue, Event, term, wake, recv, reply, enqueue,
  resend, init, step, on_term, on_wake, on_recv, on_reply, on_enqueue, on_resend, pick,
  take_for_post, requeue, resend_picked,
}
use mackerel_agent.Command.Post.Reach.{Reach, begin, next, enqueued}

module _ {V : Type 0} where
  -- What the loop itself has taken from the queue and has not settled.
  abbrev pub hand : Phase V → List (PostValue V)
  hand (sleeping d orig) = orig
  hand (posting orig) = orig
  hand (returned e orig) = orig
  hand _ = []

  module _ (w : List V → ℕ) where
    abbrev pub weigh : List (PostValue V) → ℕ
    weigh = total (λ v. w v.values)

    abbrev pub weigh_all : List (List (PostValue V)) → ℕ
    weigh_all = total weigh

    -- The weight of every batch that the loop still knows of, wherever it is.
    unfoldable pub held : Loop V → ℕ
    held s =
        weigh s.queue
        + weigh (hand s.phase)
        + weigh_all s.resenders
        + weigh s.posted
        + weigh s.abandoned

    pub weigh_all-pick :
        (i : ℕ) (gs hs : List (List (PostValue V))) (v : PostValue V)
        → pick i gs ≡ some (v, hs)
        → weigh_all gs ≡ w v.values + weigh_all hs
    unfolding pick
    weigh_all-pick zero [] hs v h = cc
    weigh_all-pick (suc i) [] hs v h = cc
    weigh_all-pick zero ([] ∷ gs) hs v h = cc
    weigh_all-pick zero ((u ∷ us) ∷ gs) hs v h = ground arith
    weigh_all-pick (suc i) (g ∷ gs) hs v h = elim (Option-cases (pick i gs)) [
      | inl e ↦ ground arith
      | inr (p, e) ↦ ground (arith, weigh_all-pick i gs p.1 p.0 e)
    ]

    weigh-take_for_post :
        (q orig rest : List (PostValue V))
        → take_for_post q ≡ some (orig, rest)
        → weigh q ≡ weigh orig + weigh rest
    unfolding take_for_post
    weigh-take_for_post [] orig rest h = cc
    weigh-take_for_post (v ∷ []) orig rest h = ground arith
    weigh-take_for_post (v ∷ u ∷ q) orig rest h = ground arith

    pub held-term : (s t : Loop V) → on_term s.phase s ≡ some t → held t ≡ held s
    unfolding on_term held
    held-term s t h = ground arith

    pub held-wake : (s t : Loop V) → on_wake s.phase s ≡ some t → held t ≡ held s
    unfolding on_wake held
    held-wake s t h = ground arith

    pub held-recv :
        (slot now : ℕ) (s t : Loop V) → on_recv slot now s.phase s ≡ some t → held t ≡ held s
    unfolding on_recv held
    held-recv slot now s t h = ground arith

    pub held-reply : (b : Bool) (s t : Loop V) → on_reply b s.phase s ≡ some t → held t ≡ held s
    unfolding on_reply held
    held-reply b s t h = grind (arith, total-append)

    pub held-enqueue :
        (vs : List V) (s t : Loop V) → on_enqueue vs s ≡ some t → held t ≡ w vs + held s
    unfolding on_enqueue held
    held-enqueue vs s t h = grind (arith, total-append)

    held-requeue :
        (s t : Loop V) (v : PostValue V) (gs : List (List (PostValue V)))
        → weigh_all s.resenders ≡ w v.values + weigh_all gs
        → requeue s v gs ≡ some t
        → held t ≡ held s
    unfolding held
    held-requeue s t v gs e h = grind (arith, total-append)

    pub held-resend_picked :
        (i : ℕ) (s t : Loop V) (o : Option (PostValue V × List (List (PostValue V))))
        → pick i s.resenders ≡ o
        → resend_picked s o ≡ some t
        → held t ≡ held s
    held-resend_picked i s t none e h = cc
    held-resend_picked i s t (some (v, gs)) e h =
        held-requeue s t v gs (weigh_all-pick i s.resenders gs v e) h

    held-resend : (i : ℕ) (s t : Loop V) → on_resend i s ≡ some t → held t ≡ held s
    unfolding on_resend
    held-resend i s t h = held-resend_picked i s t (pick i s.resenders) refl h

    held-step :
        (slot : ℕ) (e : Event V) (s t : Loop V)
        → step slot e s ≡ some t
        → held t ≡ total w (enqueued (e ∷ [])) + held s
    unfolding step
    held-step slot term s t h = omega (arith, held-term s t h)
    held-step slot wake s t h = omega (arith, held-wake s t h)
    held-step slot (recv now) s t h = omega (arith, held-recv slot now s t h)
    held-step slot (reply b) s t h = omega (arith, held-reply b s t h)
    held-step slot (enqueue vs) s t h = omega (arith, held-enqueue vs s t h)
    held-step slot (resend i) s t h = omega (arith, held-resend i s t h)

    enqueued-cons :
        (e : Event V) (es : List (Event V))
        → total w (enqueued (e ∷ es)) ≡ total w (enqueued (e ∷ [])) + total w (enqueued es)
    enqueued-cons (enqueue vs) es = omega arith
    enqueued-cons _ es = omega arith

    -- On every schedule, and whatever the server replies, the batches that were enqueued are those
    -- that the loop holds, each as often as it was enqueued: in the queue, in hand, with a
    -- goroutine that sends it again, posted, or abandoned. (The equation is between the sums of any
    -- weight, so of the weight that counts one batch.)
    pub held-Reach :
        (slot : ℕ) (es : List (Event V)) (s : Loop V)
        → Reach slot es s
        → held s ≡ total w (enqueued es)
    unfolding held init
    held-Reach slot _ _ begin = omega arith
    held-Reach slot _ s (next {es = es} {s = r} e reach h) =
        omega (arith, held-step slot e r s h, enqueued-cons e es, held-Reach slot es r reach)
