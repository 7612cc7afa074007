-- ===== src/Command/Post/Settles.antt =====
-- Where the posting loop of command/command.go comes to rest: a state in which only the terminate
-- instruction or a new batch can move it.
use mackerel_agent.Prelude.{
  ℕ, suc, ◌+◌, ◌≡◌, ◌≢◌, refl, Bool, true, false, none, some, List, [], ◌∷◌, arith, total, inl, inr,
  Option-cases,
}
use mackerel_agent.Command.Post.{
  Loop, Phase, waiting, returned, PostValue, Event, term, wake, recv, reply, enqueue, resend, step,
  on_wake, on_recv, on_reply, on_resend, pick,
}
use mackerel_agent.Command.Post.Reach.{Reach, enqueued}
use mackerel_agent.Command.Post.Conserve.{weigh, weigh_all, held, held-Reach}

module _ {V : Type 0} where
  -- What goes on by itself: the timers, the receives of the loop, the replies and the goroutines.
  abbrev pub is_own : Event V → Bool
  is_own term = false
  is_own (enqueue vs) = false
  is_own _ = true

  abbrev pub is_returned : Phase V → Bool
  is_returned (returned e orig) = true
  is_returned _ = false

  -- Nothing goes on by itself.
  abbrev pub AtRest : ℕ → Loop V → Type 0
  AtRest slot s = (e : Event V) (t : Loop V) → is_own e ≡ true → step slot e s ≢ some t

  AtRest-none :
      (slot : ℕ) (s : Loop V) (e : Event V) → AtRest slot s → is_own e ≡ true → step slot e s ≡ none
  AtRest-none slot s e rest own = elim (Option-cases (step slot e s)) [
    | inl none_eq ↦ none_eq
    | inr (t, some_eq) ↦ absurd (rest e t own some_eq)
  ]

  -- There is room in an empty queue.
  pick-AtRest :
      (slot : ℕ) (s : Loop V) (i : ℕ) → AtRest slot s → s.queue ≡ [] → pick i s.resenders ≡ none
  unfolding step on_resend
  pick-AtRest slot s i rest q = elim (Option-cases (pick i s.resenders)) [
    | inl none_eq ↦ none_eq
    | inr (p, some_eq) ↦ ground (arith, AtRest-none slot s (resend i) rest refl)
  ]

  weigh_all-none :
      (w : List V → ℕ) (gs : List (List (PostValue V)))
      → ((i : ℕ) → pick i gs ≡ none)
      → weigh_all w gs ≡ 0
  unfolding pick
  weigh_all-none w [] h = refl
  weigh_all-none w ([] ∷ gs) h = omega (
    arith,
    weigh_all-none w gs (λ i. elim (Option-cases (pick i gs)) [
      | inl e ↦ e
      | inr (p, e) ↦ ground (arith, h (suc i))
    ]),
  )
  weigh_all-none w ((v ∷ vs) ∷ gs) h = ground (arith, h 0)

  -- A loop at rest that has not returned waits on an empty queue.
  pub phase-AtRest :
      (slot : ℕ) (s : Loop V)
      → AtRest slot s
      → is_returned s.phase ≡ false
      → (s.phase ≡ waiting) × (s.queue ≡ [])
  unfolding step on_wake on_recv on_reply
  phase-AtRest slot s rest live = ground (
    arith,
    AtRest-none slot s wake rest refl,
    AtRest-none slot s (recv 0) rest refl,
    AtRest-none slot s (reply true) rest refl,
  )

  -- When a loop that has not returned comes to rest, so that only the terminate instruction or a
  -- new batch can move it, each batch that was enqueued has been posted or abandoned: the posted
  -- and the abandoned batches together are the enqueued ones, each as often. (The equation is
  -- between the sums of any weight.)
  pub posted-AtRest :
      (w : List V → ℕ) (slot : ℕ) (es : List (Event V)) (s : Loop V)
      → Reach slot es s
      → AtRest slot s
      → is_returned s.phase ≡ false
      → weigh w s.posted + weigh w s.abandoned ≡ total w (enqueued es)
  unfolding held
  posted-AtRest w slot es s reach rest live =
      let (waits, q) = phase-AtRest slot s rest live in
      ground (
        arith,
        held-Reach w slot es s reach,
        weigh_all-none w s.resenders (λ i. pick-AtRest slot s i rest q),
      )
