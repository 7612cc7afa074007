-- ===== src/Command/Post/Leaves.antt =====
-- A failed post of `loop` in command/command.go, and the terminate instruction right after it.
use mackerel_agent.Prelude.{
  ◌⊎◌, true, inl, inr, ◌∙◌, none, Option-cases, Bool-cases, if◌then◌else◌, ℕ, ◌≡◌, false, some,
  List, [], ◌∷◌, ◌++◌, is_empty, arith,
}
use mackerel_agent.Command.Post.{
  Loop, waiting, returned, Event, posting, PostValue, term, reply, is_terminating, step, on_term,
  on_reply,
}
use mackerel_agent.Command.Post.Calm.{run, ended-step}
use mackerel_agent.Command.Post.Return.{has_returned}

module _ {V : Type 0} where
  -- A loop that has returned posts nothing on any schedule.
  run-returned :
      (slot : ℕ) (es : List (Event V)) (s t : Loop V)
      → s.phase ≡ returned none []
      → run slot es s ≡ some t
      → (t.phase ≡ returned none []) × (t.posted ≡ s.posted)
  unfolding run
  run-returned slot [] s t p h = ground arith
  run-returned slot (e ∷ es) s t p h = elim (Option-cases (step slot e s)) [
    | inl none_eq ↦ ground arith
    | inr (u, some_eq) ↦
        let (p', posted_eq) = ended-step slot e s u some_eq p in
        ground (arith, run-returned slot es u t p')
  ]

  fails-terminated :
      (slot : ℕ) (s u : Loop V) (orig : List (PostValue V))
      → s.phase ≡ posting orig
      → is_terminating s.l_state ≡ false
      → run slot (reply false ∷ term ∷ []) s ≡ some u
      → (u.phase ≡ (if is_empty s.queue then returned none [] else waiting))
        × (u.resenders ≡ s.resenders ++ orig ∷ [])
        × (u.abandoned ≡ s.abandoned)
        × (u.posted ≡ s.posted)
  unfolding run step on_term on_reply
  fails-terminated slot s u orig p l h = ground arith

  -- When a post fails and the terminate instruction comes next, the values of the post are with a
  -- goroutine and not abandoned. If the queue is not empty, the loop goes on; if it is empty, the loop
  -- has returned without an error, and whatever happens from then on, it posts nothing more.
  pub graceful_return_leaves_resenders :
      (slot : ℕ) (es : List (Event V)) (s u t : Loop V) (orig : List (PostValue V))
      → s.phase ≡ posting orig
      → is_terminating s.l_state ≡ false
      → run slot (reply false ∷ term ∷ []) s ≡ some u
      → run slot es u ≡ some t
      → (u.resenders ≡ s.resenders ++ orig ∷ [])
        × (u.abandoned ≡ s.abandoned)
        × (((is_empty s.queue ≡ false) × (has_returned u.phase ≡ false))
            ⊎ ((is_empty s.queue ≡ true) × (t.phase ≡ returned none []) × (t.posted ≡ s.posted)))
  graceful_return_leaves_resenders slot es s u t orig p l h k =
      let (phase_eq, held, given, same) = fails-terminated slot s u orig p l h in
      elim (Bool-cases (is_empty s.queue)) [
        | inl empty ↦
            let (ended, still) = run-returned slot es u t (ground arith) k in
            (held, given, inr (empty, ended, still ∙ same))
        | inr left ↦ (held, given, inl (left, ground arith))
      ]
