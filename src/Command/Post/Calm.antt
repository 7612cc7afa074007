-- ===== src/Command/Post/Calm.antt =====
-- The posting loop of command/command.go on a schedule on which no instruction comes and no post
-- fails, step by step.
use mackerel_agent.Prelude.{
  ℕ, ◌≡◌, Bool, true, false, not, ◌&&◌, Option, none, some, List, [], ◌∷◌, ◌++◌, ◌⊎◌, arith, ltb,
  Bool-cases, ◌+◌, append_assoc, append-nil, is_empty, sym, ◌∙◌, inl, inr,
}
use mackerel_agent.Command.Post.{
  Loop, terminating, Phase, starting, waiting, sleeping, posting, returned, PostValue, Event, term,
  wake, recv, reply, enqueue, resend, step, on_recv, on_wake, on_reply, on_enqueue, on_resend,
  new_post_value, pick, resend_picked, on_term, post_metrics_retry_max,
}
use mackerel_agent.Command.Post.Conserve.{hand}
use mackerel_agent.Command.Post.Return.{resend-phase}

module _ {V : Type 0} where
  -- The events of a schedule, the first one first.
  unfoldable pub run : ℕ → List (Event V) → Loop V → Option (Loop V)
  run slot [] s = some s
  run slot (e ∷ es) s = elim (step slot e s) [ none ↦ none | some t ↦ run slot es t ]

  -- No instruction comes, and no post fails.
  abbrev pub is_calm : Event V → Bool
  is_calm term = false
  is_calm (reply success) = success
  is_calm _ = true

  abbrev pub are_calm : List (Event V) → Bool
  are_calm [] = true
  are_calm (e ∷ es) = is_calm e && are_calm es

  -- What was posted, what is in hand and what is queued, in order.
  abbrev pub flow : Loop V → List (PostValue V)
  flow s = s.posted ++ (hand s.phase ++ s.queue)

  abbrev pub Grows : List (PostValue V) → List (PostValue V) → Type 0
  Grows vs us = (more : List (PostValue V)) × (us ≡ vs ++ more)

  pub Grows-same : (vs us : List (PostValue V)) → us ≡ vs → Grows vs us
  Grows-same vs us e = ([], e ∙ sym (append-nil vs))

  pub Grows-trans : (vs us ws : List (PostValue V)) → Grows vs us → Grows us ws → Grows vs ws
  Grows-trans vs us ws (more, e) (more', f) =
      (more ++ more', grind (arith, append_assoc vs more more'))

  -- A value at the end of the queue.
  flow-queued :
      (s t : Loop V) (v : PostValue V)
      → t.posted ≡ s.posted
      → t.phase ≡ s.phase
      → t.queue ≡ s.queue ++ v ∷ []
      → Grows (flow s) (flow t)
  flow-queued s t v p h q = (
    v ∷ [],
    grind (
      arith,
      append_assoc s.posted (hand s.phase ++ s.queue) (v ∷ []),
      append_assoc (hand s.phase) s.queue (v ∷ []),
    ),
  )

  picked-flow :
      (s t : Loop V) (o : Option (PostValue V × List (List (PostValue V))))
      → resend_picked s o ≡ some t
      → Grows (flow s) (flow t)
  picked-flow s t none h = cc
  picked-flow s t (some (v, gs)) h =
      let given : Bool = ltb post_metrics_retry_max (v.retry_cnt + 1) in
      elim (Bool-cases given) [
        | inl up ↦ Grows-same (flow s) (flow t) (ground arith)
        | inr kept ↦
            flow-queued s t (record v { retry_cnt = v.retry_cnt + 1 }) (ground arith) (ground arith)
              (ground arith)
      ]

  reply-flow : (s t : Loop V) → on_reply true s.phase s ≡ some t → Grows (flow s) (flow t)
  unfolding on_reply
  reply-flow s t h =
      Grows-same (flow s) (flow t) (grind (arith, append_assoc s.posted (hand s.phase) s.queue))

  pub flow-step :
      (slot : ℕ) (e : Event V) (s t : Loop V)
      → is_calm e ≡ true
      → step slot e s ≡ some t
      → Grows (flow s) (flow t)
  unfolding step
  flow-step slot term s t c h = cc
  flow-step slot wake s t c h = Grows-same (flow s) (flow t) (unfold on_wake in ground arith)
  flow-step slot (recv now) s t c h = Grows-same (flow s) (flow t) (unfold on_recv in ground arith)
  flow-step slot (reply true) s t c h = reply-flow s t h
  flow-step slot (reply false) s t c h = cc
  flow-step slot (enqueue vs) s t c h =
      unfold on_enqueue in
      flow-queued s t (new_post_value vs) (ground arith) (ground arith) (ground arith)
  flow-step slot (resend i) s t c h = unfold on_resend in picked-flow s t (pick i s.resenders) h

  -- The loop has values to post.
  abbrev pub is_draining : Phase V → List (PostValue V) → Bool
  is_draining (starting d) q = false
  is_draining waiting q = not (is_empty q)
  is_draining (sleeping d orig) q = true
  is_draining (posting orig) q = true
  is_draining (returned e orig) q = false

  picked-nonempty :
      (s t : Loop V) (o : Option (PostValue V × List (List (PostValue V))))
      → resend_picked s o ≡ some t
      → is_empty s.queue ≡ false
      → is_empty t.queue ≡ false
  picked-nonempty s t none h n = cc
  picked-nonempty s t (some (v, gs)) h n = ground arith

  picked-posted :
      (s t : Loop V) (o : Option (PostValue V × List (List (PostValue V))))
      → resend_picked s o ≡ some t
      → t.posted ≡ s.posted
  picked-posted s t none h = cc
  picked-posted s t (some (v, gs)) h = ground arith

  -- A calm event leaves a terminating loop that has values to post so, or ends it.
  pub draining-step :
      (slot : ℕ) (e : Event V) (s t : Loop V)
      → is_calm e ≡ true
      → step slot e s ≡ some t
      → s.l_state ≡ terminating
      → is_draining s.phase s.queue ≡ true
      → ((t.l_state ≡ terminating) × (is_draining t.phase t.queue ≡ true))
        ⊎ ((t.phase ≡ returned none []) × (t.queue ≡ []))
  unfolding step
  draining-step slot term s t c h l d = cc
  draining-step slot wake s t c h l d = unfold on_wake in ground arith
  draining-step slot (recv now) s t c h l d = unfold on_recv in ground arith
  draining-step slot (reply b) s t c h l d = unfold on_reply in ground arith
  draining-step slot (enqueue vs) s t c h l d = unfold on_enqueue in ground arith
  draining-step slot (resend i) s t c h l d =
      let picked : is_empty s.queue ≡ false → is_empty t.queue ≡ false =
        unfold on_resend in picked-nonempty s t (pick i s.resenders) h in
      ground (arith, resend-phase i s t h, picked)

  pub ended-step :
      (slot : ℕ) (e : Event V) (s t : Loop V)
      → step slot e s ≡ some t
      → s.phase ≡ returned none []
      → (t.phase ≡ returned none []) × (t.posted ≡ s.posted)
  unfolding step
  ended-step slot term s t h p = unfold on_term in ground arith
  ended-step slot wake s t h p = unfold on_wake in ground arith
  ended-step slot (recv now) s t h p = unfold on_recv in ground arith
  ended-step slot (reply b) s t h p = unfold on_reply in ground arith
  ended-step slot (enqueue vs) s t h p = unfold on_enqueue in ground arith
  ended-step slot (resend i) s t h p =
      let same : t.posted ≡ s.posted =
        unfold on_resend in picked-posted s t (pick i s.resenders) h in
      ground (arith, resend-phase i s t h)
