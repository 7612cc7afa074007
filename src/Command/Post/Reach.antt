-- ===== src/Command/Post/Reach.antt =====
-- The states of the posting loop of command/command.go that some schedule reaches.
use mackerel_agent.Prelude.{ℕ, ◌≡◌, some, List, [], ◌∷◌}
use mackerel_agent.Command.Post.{Loop, Event, enqueue, init, step}

module _ {V : Type 0} where
  -- Whatever the scheduler and the server do. The list holds the events, the last one first.
  pub data Reach (slot : ℕ) : List (Event V) → Loop V → Type 0 where
    begin : Reach slot [] (init slot)
    next :
        {es : List (Event V)} {s t : Loop V} (e : Event V)
        → Reach slot es s
        → step slot e s ≡ some t
        → Reach slot (e ∷ es) t

  -- The batches that `enqueueLoop` has sent.
  abbrev pub enqueued : List (Event V) → List (List V)
  enqueued [] = []
  enqueued (enqueue vs ∷ es) = vs ∷ enqueued es
  enqueued (_ ∷ es) = enqueued es
