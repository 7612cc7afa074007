-- ===== src/Command/Post/Drain.antt =====
-- The shutdown of the posting loop of command/command.go: what is queued is posted, and the loop
-- returns.
use mackerel_agent.Prelude.{
  ℕ, ◌≡◌, ◌≢◌, refl, true, false, none, some, List, [], ◌∷◌, ◌++◌, ◌⊎◌, arith, append_assoc,
  append-nil, sym, inl, inr, Option-cases,
}
use mackerel_agent.Command.Post.{Loop, terminating, waiting, returned, PostValue, Event, step}
use mackerel_agent.Command.Post.Settles.{AtRest, phase-AtRest}
use mackerel_agent.Command.Post.Calm.{
  is_calm, are_calm, flow, Grows, Grows-same, Grows-trans, flow-step, is_draining, draining-step,
  ended-step, run,
}

module _ {V : Type 0} where
  abbrev Active : List (PostValue V) → Loop V → Type 0
  Active base s =
      (s.l_state ≡ terminating) × (is_draining s.phase s.queue ≡ true) × Grows base (flow s)

  abbrev Ended : List (PostValue V) → Loop V → Type 0
  Ended base s = (s.phase ≡ returned none []) × Grows base s.posted

  Active-step :
      (slot : ℕ) (base : List (PostValue V)) (e : Event V) (s t : Loop V)
      → is_calm e ≡ true
      → step slot e s ≡ some t
      → Active base s
      → Active base t ⊎ Ended base t
  Active-step slot base e s t c h (l, d, grows) =
      let grown = Grows-trans base (flow s) (flow t) grows (flow-step slot e s t c h) in
      elim (draining-step slot e s t c h l d) [
        | inl (l', d') ↦ inl (l', d', grown)
        | inr (p, q) ↦ inr (
          p,
          Grows-trans base (flow t) t.posted grown
              (Grows-same (flow t) t.posted (grind (arith, append-nil t.posted))),
        )
      ]

  run-Ended :
      (slot : ℕ) (base : List (PostValue V)) (es : List (Event V)) (s t : Loop V)
      → run slot es s ≡ some t
      → Ended base s
      → Ended base t
  unfolding run
  run-Ended slot base [] s t h ended = let same : s ≡ t = cc in rw (sym same) ended
  run-Ended slot base (e ∷ es) s t h (p, grows) = elim (Option-cases (step slot e s)) [
    | inl none_eq ↦ ground arith
    | inr (u, some_eq) ↦
        let (p', posted_eq) = ended-step slot e s u some_eq p in
        run-Ended slot base es u t (ground arith)
          (p', Grows-trans base s.posted u.posted grows (Grows-same s.posted u.posted posted_eq))
  ]

  run-Active :
      (slot : ℕ) (base : List (PostValue V)) (es : List (Event V)) (s t : Loop V)
      → are_calm es ≡ true
      → run slot es s ≡ some t
      → Active base s
      → Active base t ⊎ Ended base t
  unfolding run
  run-Active slot base [] s t c h active = let same : s ≡ t = cc in inl (rw (sym same) active)
  run-Active slot base (e ∷ es) s t c h active = elim (Option-cases (step slot e s)) [
    | inl none_eq ↦ ground arith
    | inr (u, some_eq) ↦ elim (Active-step slot base e s u (ground arith) some_eq active) [
      | inl active' ↦ run-Active slot base es u t (ground arith) (ground arith) active'
      | inr ended ↦ inr (run-Ended slot base es u t (ground arith) ended)
    ]
  ]

  -- A terminating loop waits with values in its queue, and a schedule follows on which no
  -- instruction is received and no post fails. If nothing goes on by itself any more after it, the
  -- loop has returned without an error, and it has posted its queue, in order, right after what was
  -- posted before.
  pub drain_returns :
      (slot : ℕ) (es : List (Event V)) (s t : Loop V)
      → s.phase ≡ waiting
      → s.l_state ≡ terminating
      → s.queue ≢ []
      → are_calm es ≡ true
      → run slot es s ≡ some t
      → AtRest slot t
      → (t.phase ≡ returned none [])
        × (more : List (PostValue V)) × (t.posted ≡ s.posted ++ (s.queue ++ more))
  drain_returns slot es s t p l n c h rest =
      let draining : is_draining s.phase s.queue ≡ true = ground arith in
      elim (run-Active slot (flow s) es s t c h (l, draining, Grows-same (flow s) (flow s) refl)) [
        | inl (_, still, _) ↦ absurd (
            let (waits, q) = phase-AtRest slot t rest (ground arith) in
            let idle : is_draining t.phase t.queue ≡ false = ground arith in cc)
        | inr (ended, (more, e)) ↦ (ended, more, grind (arith, append_assoc s.posted s.queue more))
      ]
