-- ===== src/Shutdown.antt =====
-- How the agent stops: `signalHandler` of main.go, and the goroutine of `loop` in command/command.go
-- that passes the terminate instruction on (fan-out), together with the posting loop. `V` is the type of
-- a single metric value.
pub mod Told
pub mod Blocked
use mackerel_agent.Prelude.{
  ℕ, zero, suc, ◌+◌, ◌-◌, ltb, Bool, true, false, Option, none, some, List, [], ◌∷◌, if◌then◌else◌,
}
use mackerel_agent.Command.Post.{
  Loop, Phase, starting, waiting, Event, term, wake, recv, reply, enqueue, resend, step,
}

-- The signals that `start` asks for.
pub data Signal : Type 0 where
  interrupt sigterm sigquit sighup : Signal

-- `pending` is the channel `c`, which holds one signal. `sending` is set while the handler waits to
-- send to `termCh`. Of the goroutines that it has started, `sleeping` wait for the time limit, and
-- `late` wait to send. `updates` counts the calls of `UpdateHostSpecs`.
pub record Handler : Type 0 where
  pub pending : Option Signal
  pub received : Bool
  pub sending : Bool
  pub sleeping : ℕ
  pub late : ℕ
  pub updates : ℕ

-- signal.Notify: a signal that finds the channel full is dropped.
unfoldable pub arrive : Signal → Handler → Handler
arrive sig h = elim h.pending [ none ↦ record h { pending = some sig } | some held ↦ h ]

unfoldable pub handle_signal : Signal → Handler → Handler
handle_signal sighup h = record h { pending = none; updates = h.updates + 1 }
handle_signal _ h = record h { pending = none; received = true; sending = true }

-- for sig := range c, up to the send
unfoldable pub handle : Handler → Option Handler
unfolding handle_signal
handle h =
    if h.sending
    then none
    else elim h.pending [ none ↦ none | some sig ↦ some (handle_signal sig h) ]

-- time.Sleep(maxTerminatingInterval) of one goroutine is over.
unfoldable pub time_out : Handler → Option Handler
time_out h =
    if ltb 0 h.sleeping
    then some (record h { sleeping = h.sleeping - 1; late = h.late + 1 })
    else none

-- The send of the handler is received, and the goroutine that waits for the time limit is started.
unfoldable pub sent : Handler → Option Handler
sent h = if h.sending then some (record h { sending = false; sleeping = h.sleeping + 1 }) else none

unfoldable pub sent_late : Handler → Option Handler
sent_late h = if ltb 0 h.late then some (record h { late = h.late - 1 }) else none

-- The goroutine of `loop`: not started yet, at the receive from `termCh`, or at one of the sends.
pub data FanOut : Type 0 where
  not_started idle to_metrics to_checker to_metadata : FanOut

pub record System (V : Type 0) : Type 0 where
  pub handler : Handler
  pub fan_out : FanOut
  pub loop : Loop V

-- `arrives sig`: the signal is delivered. `handles`: the handler takes it. `times_out`: a time limit
-- is over. `receives`, `receives_late`: `termCh` takes the instruction from the handler, or from one
-- of its goroutines. `tells_metrics`, `tells_checker`, `tells_metadata`: it is passed on. `goes e`:
-- another event of the posting loop.
pub data Act (V : Type 0) : Type 0 where
  arrives : Signal → Act V
  handles times_out receives receives_late : Act V
  tells_metrics tells_checker tells_metadata : Act V
  goes : Event V → Act V

-- The sends to `termCheckerCh` and `termMetadataCh` are there only for a channel that is not nil.
unfoldable pub after_checker : Bool → FanOut
after_checker has_metadata = if has_metadata then to_metadata else idle

unfoldable pub after_metrics : Bool → Bool → FanOut
unfolding after_checker
after_metrics has_checks has_metadata =
    if has_checks then to_checker else after_checker has_metadata

module _ {V : Type 0} where
  -- `termCh` is received by the first select of the loop, and from then on by the fan-out.
  unfoldable pub on_receive : ℕ → FanOut → System V → Option (System V)
  on_receive slot not_started s = elim (step slot term s.loop) [
    | none ↦ none
    | some l ↦ some (record s { loop = l })
  ]
  on_receive slot idle s = some (record s { fan_out = to_metrics })
  on_receive slot _ s = none

  abbrev pub with_handler : System V → Option Handler → Option (System V)
  with_handler s none = none
  with_handler s (some h) = some (record s { handler = h })

  abbrev pub receive_from : ℕ → System V → Option Handler → Option (System V)
  receive_from slot s none = none
  receive_from slot s (some h) = on_receive slot s.fan_out (record s { handler = h })

  -- The loop starts the fan-out when it is past its first select.
  unfoldable pub start_fan_out : Phase V → Phase V → FanOut → FanOut
  start_fan_out (starting d) waiting not_started = idle
  start_fan_out _ _ f = f

  unfoldable pub with_loop : System V → Option (Loop V) → Option (System V)
  unfolding start_fan_out
  with_loop s none = none
  with_loop s (some l) =
      some (record s { fan_out = start_fan_out s.loop.phase l.phase s.fan_out; loop = l })

  module _ (has_checks has_metadata : Bool) where
    unfoldable pub on_tells_metrics : ℕ → FanOut → System V → Option (System V)
    unfolding after_metrics
    on_tells_metrics slot to_metrics s = elim (step slot term s.loop) [
      | none ↦ none
      | some l ↦ some (record s { fan_out = after_metrics has_checks has_metadata; loop = l })
    ]
    on_tells_metrics slot _ s = none

    unfoldable pub on_tells_checker : FanOut → System V → Option (System V)
    unfolding after_checker
    on_tells_checker to_checker s = some (record s { fan_out = after_checker has_metadata })
    on_tells_checker _ s = none

    unfoldable pub on_tells_metadata : FanOut → System V → Option (System V)
    on_tells_metadata to_metadata s = some (record s { fan_out = idle })
    on_tells_metadata _ s = none

    unfoldable pub on_goes : ℕ → Event V → System V → Option (System V)
    unfolding with_loop
    on_goes slot term s = none
    on_goes slot e s = with_loop s (step slot e s.loop)

    unfoldable pub act : ℕ → Act V → System V → Option (System V)
    unfolding arrive handle time_out sent sent_late on_receive on_tells_metrics on_tells_checker
        on_tells_metadata on_goes
    act slot (arrives sig) s = some (record s { handler = arrive sig s.handler })
    act slot handles s = with_handler s (handle s.handler)
    act slot times_out s = with_handler s (time_out s.handler)
    act slot receives s = receive_from slot s (sent s.handler)
    act slot receives_late s = receive_from slot s (sent_late s.handler)
    act slot tells_metrics s = on_tells_metrics slot s.fan_out s
    act slot tells_checker s = on_tells_checker s.fan_out s
    act slot tells_metadata s = on_tells_metadata s.fan_out s
    act slot (goes e) s = on_goes slot e s
