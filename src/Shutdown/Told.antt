-- ===== src/Shutdown/Told.antt =====
-- What a schedule of main.go and command/command.go must have seen when the posting loop returns.
use mackerel_agent.Prelude.{
  ℕ, suc, ◌+◌, ◌≤◌, ◌≡◌, ◌≢◌, refl, Bool, false, Option, none, some, List, [], ◌∷◌, arith, inl, inr,
  Option-cases,
}
use mackerel_agent.Command.Post.{
  Loop, LoopState, Phase, returned, terminating, Event, term, wake, recv, reply, enqueue, resend,
  step, init, on_term, on_wake, on_recv, on_reply, on_enqueue, on_resend, pick,
}
use mackerel_agent.Shutdown.{
  Signal, Handler, arrive, handle, handle_signal, time_out, sent, sent_late, FanOut, not_started,
  to_metrics, System, Act, arrives, handles, times_out, receives, receives_late, tells_metrics,
  tells_checker, tells_metadata, goes, act, on_receive, on_tells_metrics, on_tells_checker,
  on_tells_metadata, on_goes, start_fan_out, with_loop, with_handler, receive_from, after_metrics,
  after_checker,
}

abbrev pub start_handler : Handler
start_handler = record {
  pending = none;
  received = false;
  sending = false;
  sleeping = 0;
  late = 0;
  updates = 0;
}

abbrev in_flight : FanOut → ℕ
in_flight to_metrics = 1
in_flight _ = 0

module _ {V : Type 0} where
  abbrev pub start_system : ℕ → System V
  start_system slot = record { handler = start_handler; fan_out = not_started; loop = init slot }

  -- The systems that some schedule reaches, with its acts, the last one first.
  pub data Reaches (has_checks has_metadata : Bool) (slot : ℕ)
      : List (Act V) → System V → Type 0 where
    begin : Reaches has_checks has_metadata slot [] (start_system slot)
    next :
        {acts : List (Act V)} {s t : System V} (a : Act V)
        → Reaches has_checks has_metadata slot acts s
        → act has_checks has_metadata slot a s ≡ some t
        → Reaches has_checks has_metadata slot (a ∷ acts) t

  -- How often the handler, its goroutines, and both together have given the instruction.
  abbrev pub at_once : List (Act V) → ℕ
  at_once [] = 0
  at_once (receives ∷ acts) = suc (at_once acts)
  at_once (_ ∷ acts) = at_once acts

  abbrev pub in_time : List (Act V) → ℕ
  in_time [] = 0
  in_time (receives_late ∷ acts) = suc (in_time acts)
  in_time (_ ∷ acts) = in_time acts

  -- At every point of a schedule, no more instructions were given by time limits than at once.
  abbrev pub LimitsFollow : List (Act V) → Type 0
  LimitsFollow [] = Unit
  LimitsFollow (a ∷ acts) = (in_time (a ∷ acts) ≤ at_once (a ∷ acts)) × LimitsFollow acts

  -- The instructions that a return of the loop takes.
  abbrev pub instructions : Phase V → ℕ
  instructions (returned none orig) = 1
  instructions (returned (some e) orig) = 2
  instructions _ = 0

  -- How often the loop must have taken the instruction.
  abbrev needed : LoopState → Phase V → ℕ
  needed st (returned (some e) orig) = 2
  needed st (returned none orig) = 1
  needed terminating p = 1
  needed _ p = 0

  record Counted (acts : List (Act V)) (s : System V) : Type 0 where
    told : needed s.loop.l_state s.loop.phase + in_flight s.fan_out ≤ at_once acts + in_time acts
    limits : in_time acts + s.handler.late + s.handler.sleeping ≡ at_once acts

  needed-term :
      (l m : Loop V)
      → on_term l.phase l ≡ some m
      → needed m.l_state m.phase ≤ needed l.l_state l.phase + 1
  unfolding on_term
  needed-term l m h = ground arith

  needed-goes :
      (slot : ℕ) (e : Event V) (l m : Loop V)
      → e ≢ term
      → step slot e l ≡ some m
      → needed m.l_state m.phase ≤ needed l.l_state l.phase
  unfolding step on_wake on_recv on_reply on_enqueue on_resend
  needed-goes slot term l m n h = absurd (n refl)
  needed-goes slot wake l m n h = ground arith
  needed-goes slot (recv now) l m n h = ground arith
  needed-goes slot (reply b) l m n h = ground arith
  needed-goes slot (enqueue vs) l m n h = ground arith
  needed-goes slot (resend i) l m n h = elim (Option-cases (pick i l.resenders)) [
    | inl e ↦ ground arith
    | inr (p, e) ↦ ground arith
  ]

  module _ (acts : List (Act V)) (s t : System V) (c : Counted acts s) where
    handler-Counted :
        (a : Act V) (o : Option Handler)
        → ((h : Handler) → o ≡ some h → h.late + h.sleeping ≡ s.handler.late + s.handler.sleeping)
        → (at_once (a ∷ acts) ≡ at_once acts) × (in_time (a ∷ acts) ≡ in_time acts)
        → with_handler s o ≡ some t
        → Counted (a ∷ acts) t
    handler-Counted a none k eqs h = cc
    handler-Counted a (some g) k eqs h = ground (arith, k g refl)

    receive-Counted :
        (slot : ℕ) (h : Handler) (a : Act V)
        → at_once (a ∷ acts) + in_time (a ∷ acts) ≡ suc (at_once acts + in_time acts)
        → in_time (a ∷ acts) + h.late + h.sleeping ≡ at_once (a ∷ acts)
        → on_receive slot s.fan_out (record s { handler = h }) ≡ some t
        → Counted (a ∷ acts) t
    unfolding on_receive step
    receive-Counted slot h a one limits r = elim (Option-cases (on_term s.loop.phase s.loop)) [
      | inl e ↦ ground arith
      | inr (l, e) ↦ ground (arith, needed-term s.loop l e)
    ]

    receive_from-Counted :
        (slot : ℕ) (a : Act V) (o : Option Handler)
        → ((h : Handler)
            → o ≡ some h
            → in_time (a ∷ acts) + h.late + h.sleeping ≡ at_once (a ∷ acts))
        → at_once (a ∷ acts) + in_time (a ∷ acts) ≡ suc (at_once acts + in_time acts)
        → receive_from slot s o ≡ some t
        → Counted (a ∷ acts) t
    receive_from-Counted slot a none k one r = cc
    receive_from-Counted slot a (some h) k one r = receive-Counted slot h a one (k h refl) r

    tells_metrics-Counted :
        (has_checks has_metadata : Bool) (slot : ℕ)
        → on_tells_metrics has_checks has_metadata slot s.fan_out s ≡ some t
        → Counted (tells_metrics ∷ acts) t
    unfolding on_tells_metrics after_metrics after_checker step
    tells_metrics-Counted has_checks has_metadata slot r =
        elim (Option-cases (on_term s.loop.phase s.loop)) [
          | inl e ↦ ground arith
          | inr (l, e) ↦ ground (arith, needed-term s.loop l e)
        ]

    tells_checker-Counted :
        (has_checks has_metadata : Bool)
        → on_tells_checker has_checks has_metadata s.fan_out s ≡ some t
        → Counted (tells_checker ∷ acts) t
    unfolding on_tells_checker after_checker
    tells_checker-Counted has_checks has_metadata r = ground arith

    tells_metadata-Counted :
        (has_checks has_metadata : Bool)
        → on_tells_metadata has_checks has_metadata s.fan_out s ≡ some t
        → Counted (tells_metadata ∷ acts) t
    unfolding on_tells_metadata
    tells_metadata-Counted has_checks has_metadata r = ground arith

    step-Counted :
        (slot : ℕ) (e : Event V) (o : Option (Loop V))
        → e ≢ term
        → step slot e s.loop ≡ o
        → with_loop s o ≡ some t
        → Counted (goes e ∷ acts) t
    unfolding with_loop start_fan_out
    step-Counted slot e none n h r = cc
    step-Counted slot e (some l) n h r = ground (arith, needed-goes slot e s.loop l n h)

    goes-Counted :
        (has_checks has_metadata : Bool) (slot : ℕ) (e : Event V)
        → on_goes has_checks has_metadata slot e s ≡ some t
        → Counted (goes e ∷ acts) t
    unfolding on_goes
    goes-Counted hc hm slot term r = cc
    goes-Counted hc hm slot wake r = step-Counted slot wake (step slot wake s.loop) (λ e. cc) refl r
    goes-Counted hc hm slot (recv now) r =
        step-Counted slot (recv now) (step slot (recv now) s.loop) (λ e. cc) refl r
    goes-Counted hc hm slot (reply b) r =
        step-Counted slot (reply b) (step slot (reply b) s.loop) (λ e. cc) refl r
    goes-Counted hc hm slot (enqueue vs) r =
        step-Counted slot (enqueue vs) (step slot (enqueue vs) s.loop) (λ e. cc) refl r
    goes-Counted hc hm slot (resend i) r =
        step-Counted slot (resend i) (step slot (resend i) s.loop) (λ e. cc) refl r

    arrive-Counted : (sig : Signal) → Counted acts (record s { handler = arrive sig s.handler })
    unfolding arrive
    arrive-Counted sig = ground arith

  act-Counted :
      (has_checks has_metadata : Bool) (slot : ℕ) (a : Act V) (acts : List (Act V)) (s t : System V)
      → Counted acts s
      → act has_checks has_metadata slot a s ≡ some t
      → Counted (a ∷ acts) t
  unfolding act handle handle_signal time_out sent sent_late
  act-Counted hc hm slot (arrives sig) acts s t c r = ground (arith, arrive-Counted acts s t c sig)
  act-Counted hc hm slot handles acts s t c r =
      handler-Counted acts s t c handles (handle s.handler) (λ h e. ground arith) (refl, refl) r
  act-Counted hc hm slot times_out acts s t c r =
      handler-Counted acts s t c times_out (time_out s.handler) (λ h e. ground arith) (refl, refl) r
  act-Counted hc hm slot receives acts s t c r =
      receive_from-Counted acts s t c slot receives (sent s.handler) (λ h e. ground arith)
        (omega arith) r
  act-Counted hc hm slot receives_late acts s t c r =
      receive_from-Counted acts s t c slot receives_late (sent_late s.handler) (λ h e. ground arith)
        (omega arith) r
  act-Counted hc hm slot tells_metrics acts s t c r = tells_metrics-Counted acts s t c hc hm slot r
  act-Counted hc hm slot tells_checker acts s t c r = tells_checker-Counted acts s t c hc hm r
  act-Counted hc hm slot tells_metadata acts s t c r = tells_metadata-Counted acts s t c hc hm r
  act-Counted hc hm slot (goes e) acts s t c r = goes-Counted acts s t c hc hm slot e r

  Reaches-Counted :
      (has_checks has_metadata : Bool) (slot : ℕ) (acts : List (Act V)) (s : System V)
      → Reaches has_checks has_metadata slot acts s
      → Counted acts s
  unfolding init
  Reaches-Counted hc hm slot _ _ begin = ground arith
  Reaches-Counted hc hm slot _ t (next {acts = acts} {s = s} a reach r) =
      act-Counted hc hm slot a acts s t (Reaches-Counted hc hm slot acts s reach) r

  Reaches-LimitsFollow :
      (has_checks has_metadata : Bool) (slot : ℕ) (acts : List (Act V)) (s : System V)
      → Reaches has_checks has_metadata slot acts s
      → LimitsFollow acts
  Reaches-LimitsFollow hc hm slot _ _ begin = tt
  Reaches-LimitsFollow hc hm slot _ t (next {acts = acts} {s = s} a reach r) =
      let c = Reaches-Counted hc hm slot (a ∷ acts) t (next a reach r) in
      (omega (arith, c.limits), Reaches-LimitsFollow hc hm slot acts s reach)

  -- On every schedule of the signal handler, the fan-out and the posting loop: where the loop has
  -- returned, `termCh` has received an instruction, and two where the loop has returned its error. At
  -- every point of the schedule, the instructions that time limits have given so far are no more than
  -- those that the handler has given at once so far.
  pub returned-told :
      (has_checks has_metadata : Bool) (slot : ℕ) (acts : List (Act V)) (s : System V)
      → Reaches has_checks has_metadata slot acts s
      → (instructions s.loop.phase ≤ at_once acts + in_time acts) × LimitsFollow acts
  returned-told hc hm slot acts s reach =
      let c = Reaches-Counted hc hm slot acts s reach in
      (ground (arith, c.told), Reaches-LimitsFollow hc hm slot acts s reach)
