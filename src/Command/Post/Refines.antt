-- ===== src/Command/Post/Refines.antt =====
-- What the posting loop of command/command.go promises to the rest of the agent: an outbox, whose
-- pending batches have no order, and which delivers each or gives it up. The loop implements it.
use mackerel_agent.Prelude.{
  ℕ, ◌+◌, ◌≡◌, refl, ap, ◌∙◌, Bool, true, false, Option, none, some, List, [], ◌∷◌, ◌++◌, map,
  map-append, arith, total, total-append, Bag, to_bag, to_bag-same, add_items, Bool-cases, ltb, inl,
  inr,
}
use mackerel_agent.Command.Post.{
  Loop, PostValue, Event, term, wake, recv, reply, enqueue, resend, step, on_term, on_wake, on_recv,
  on_reply, on_enqueue, on_resend, pick, requeue, resend_picked, post_metrics_retry_max,
}
use mackerel_agent.Command.Post.Conserve.{
  hand, weigh, weigh_all, held, held-term, held-wake, held-recv, held-reply, held-enqueue,
  held-resend_picked,
}

pub record Outbox (V : Type 0) : Type 0 where
  pub pending : Bag (List V)
  pub delivered : List (List V)
  pub dropped : List (List V)

-- One step of the outbox, from `o` to `p`.
pub data OutboxStep {V : Type 0} (o p : Outbox V) : Type 0 where
  stutter :
      p.pending ≡ o.pending → p.delivered ≡ o.delivered → p.dropped ≡ o.dropped → OutboxStep o p
  accept :
      (vs : List V)
      → p.pending ≡ add_items (vs ∷ []) o.pending
      → p.delivered ≡ o.delivered
      → p.dropped ≡ o.dropped
      → OutboxStep o p
  deliver :
      (sent : List (List V))
      → o.pending ≡ add_items sent p.pending
      → p.delivered ≡ o.delivered ++ sent
      → p.dropped ≡ o.dropped
      → OutboxStep o p
  give_up :
      (vs : List V)
      → o.pending ≡ add_items (vs ∷ []) p.pending
      → p.delivered ≡ o.delivered
      → p.dropped ≡ o.dropped ++ vs ∷ []
      → OutboxStep o p

module _ {V : Type 0} where
  abbrev batches : List (PostValue V) → List (List V)
  batches = map (λ v. v.values)

  abbrev batches_all : List (List (PostValue V)) → List (List V)
  batches_all [] = []
  batches_all (g ∷ gs) = batches g ++ batches_all gs

  -- The batches that are neither posted nor abandoned: queued, in hand, or with a goroutine.
  unfoldable outstanding : Loop V → List (List V)
  outstanding s = batches s.queue ++ batches (hand s.phase) ++ batches_all s.resenders

  -- The outbox that a loop implements.
  unfoldable pub outbox : Loop V → Outbox V
  unfolding outstanding
  outbox s = record {
    pending = to_bag (outstanding s);
    delivered = batches s.posted;
    dropped = batches s.abandoned;
  }

  total-batches : (w : List V → ℕ) (q : List (PostValue V)) → total w (batches q) ≡ weigh w q
  total-batches w [] = refl
  total-batches w (v ∷ q) = omega (arith, total-batches w q)

  total-batches_all :
      (w : List V → ℕ) (gs : List (List (PostValue V))) → total w (batches_all gs) ≡ weigh_all w gs
  total-batches_all w [] = refl
  total-batches_all w (g ∷ gs) = omega (
    arith,
    total-append w (batches g) (batches_all gs),
    total-batches w g,
    total-batches_all w gs,
  )

  total-outstanding :
      (w : List V → ℕ) (s : Loop V)
      → total w (outstanding s) + weigh w s.posted + weigh w s.abandoned ≡ held w s
  unfolding outstanding held
  total-outstanding w s = ground (
    arith,
    total-append w (batches s.queue ++ batches (hand s.phase)) (batches_all s.resenders),
    total-append w (batches s.queue) (batches (hand s.phase)),
    total-batches w s.queue,
    total-batches w (hand s.phase),
    total-batches_all w s.resenders,
  )

  module _ (s t : Loop V) where
    -- A step that neither posts nor abandons leaves the outbox as it is.
    stutter-outbox :
        ((w : List V → ℕ) → held w t ≡ held w s)
        → t.posted ≡ s.posted
        → t.abandoned ≡ s.abandoned
        → OutboxStep (outbox s) (outbox t)
    unfolding outbox
    stutter-outbox h p a =
        stutter
          (to_bag-same (outstanding t) (outstanding s)
            (λ w. ground (arith, h w, total-outstanding w t, total-outstanding w s)))
          (ap batches p) (ap batches a)

    accept-outbox :
        (vs : List V)
        → ((w : List V → ℕ) → held w t ≡ w vs + held w s)
        → t.posted ≡ s.posted
        → t.abandoned ≡ s.abandoned
        → OutboxStep (outbox s) (outbox t)
    unfolding outbox add_items
    accept-outbox vs h p a =
        accept vs
          (to_bag-same (outstanding t) (vs ∷ outstanding s)
            (λ w. ground (arith, h w, total-outstanding w t, total-outstanding w s)))
          (ap batches p) (ap batches a)

    deliver-outbox :
        (orig : List (PostValue V))
        → ((w : List V → ℕ) → held w t ≡ held w s)
        → t.posted ≡ s.posted ++ orig
        → t.abandoned ≡ s.abandoned
        → OutboxStep (outbox s) (outbox t)
    unfolding outbox add_items
    deliver-outbox orig h p a =
        deliver (batches orig)
          (to_bag-same (outstanding s) (batches orig ++ outstanding t) (λ w. ground (
            arith,
            h w,
            total-outstanding w t,
            total-outstanding w s,
            total-append w (batches orig) (outstanding t),
            total-batches w orig,
            total-append (λ v. w v.values) s.posted orig,
          )))
          (ap batches p ∙ map-append (λ v. v.values) s.posted orig) (ap batches a)

    give_up-outbox :
        (v : PostValue V)
        → ((w : List V → ℕ) → held w t ≡ held w s)
        → t.posted ≡ s.posted
        → t.abandoned ≡ s.abandoned ++ v ∷ []
        → OutboxStep (outbox s) (outbox t)
    unfolding outbox add_items
    give_up-outbox v h p a =
        give_up v.values
          (to_bag-same (outstanding s) (v.values ∷ outstanding t) (λ w. ground (
            arith,
            h w,
            total-outstanding w t,
            total-outstanding w s,
            total-append (λ u. w u.values) s.abandoned (v ∷ []),
          )))
          (ap batches p) (ap batches a ∙ map-append (λ u. u.values) s.abandoned (v ∷ []))

    term-outbox : on_term s.phase s ≡ some t → OutboxStep (outbox s) (outbox t)
    unfolding on_term
    term-outbox h = stutter-outbox (λ w. held-term w s t h) (ground arith) (ground arith)

    wake-outbox : on_wake s.phase s ≡ some t → OutboxStep (outbox s) (outbox t)
    unfolding on_wake
    wake-outbox h = stutter-outbox (λ w. held-wake w s t h) (ground arith) (ground arith)

    recv-outbox :
        (slot now : ℕ) → on_recv slot now s.phase s ≡ some t → OutboxStep (outbox s) (outbox t)
    unfolding on_recv
    recv-outbox slot now h =
        stutter-outbox (λ w. held-recv w slot now s t h) (ground arith) (ground arith)

    reply-outbox : (b : Bool) → on_reply b s.phase s ≡ some t → OutboxStep (outbox s) (outbox t)
    unfolding on_reply
    reply-outbox true h =
        deliver-outbox (hand s.phase) (λ w. held-reply w true s t h) (ground arith) (ground arith)
    reply-outbox false h =
        stutter-outbox (λ w. held-reply w false s t h) (ground arith) (ground arith)

    enqueue-outbox : (vs : List V) → on_enqueue vs s ≡ some t → OutboxStep (outbox s) (outbox t)
    unfolding on_enqueue
    enqueue-outbox vs h =
        accept-outbox vs (λ w. held-enqueue w vs s t h) (ground arith) (ground arith)

    requeue-outbox :
        (v : PostValue V) (gs : List (List (PostValue V)))
        → ((w : List V → ℕ) → held w t ≡ held w s)
        → requeue s v gs ≡ some t
        → OutboxStep (outbox s) (outbox t)
    requeue-outbox v gs e h = elim (Bool-cases (ltb post_metrics_retry_max (v.retry_cnt + 1))) [
      | inl over ↦
          give_up-outbox (record v { retry_cnt = v.retry_cnt + 1 }) e (ground arith) (ground arith)
      | inr under ↦ stutter-outbox e (ground arith) (ground arith)
    ]

  resend_picked-outbox :
      (i : ℕ) (s t : Loop V) (o : Option (PostValue V × List (List (PostValue V))))
      → pick i s.resenders ≡ o
      → resend_picked s o ≡ some t
      → OutboxStep (outbox s) (outbox t)
  resend_picked-outbox i s t none e h = cc
  resend_picked-outbox i s t (some (v, gs)) e h =
      requeue-outbox s t v gs (λ w. held-resend_picked w i s t (some (v, gs)) e h) h

  -- Each event of the posting loop is one step of its outbox: a batch is accepted, batches are
  -- delivered after those delivered before, a batch is given up, or the outbox stays as it is. The
  -- pending batches of the outbox have no order, and are those in the queue, in the hand of the
  -- loop and with the goroutines that send again.
  pub step-outbox :
      (slot : ℕ) (e : Event V) (s t : Loop V)
      → step slot e s ≡ some t
      → OutboxStep (outbox s) (outbox t)
  unfolding step
  step-outbox slot term s t h = term-outbox s t h
  step-outbox slot wake s t h = wake-outbox s t h
  step-outbox slot (recv now) s t h = recv-outbox s t slot now h
  step-outbox slot (reply b) s t h = reply-outbox s t b h
  step-outbox slot (enqueue vs) s t h = enqueue-outbox s t vs h
  step-outbox slot (resend i) s t h =
      resend_picked-outbox i s t (pick i s.resenders) refl (unfold on_resend in h)
