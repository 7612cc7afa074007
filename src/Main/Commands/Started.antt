-- ===== src/Main/Commands/Started.antt =====
-- The pidfile and the status of the host when the agent has stopped (main.go, command/command.go).
use mackerel_agent.Prelude.{
  String, Bool, true, false, not, ◌&&◌, ◌≡◌, Option, none, some, Dict, lookup, lookup-erase,
  eq_refl, is_nil, arith, inl, inr, Option-cases, Result, ok, err, if◌then◌else◌,
}
use mackerel_agent.Config.{Config}
use mackerel_agent.Pidfile.{Process, create, remove}
use mackerel_agent.Command.Post.{LoopError}
use mackerel_agent.Command.App.{run_app}
use mackerel_agent.Main.Commands.{removed, start}

removed-absent :
    (f : String) (files : Dict String) → is_nil f ≡ false → lookup f (removed true f files) ≡ none
unfolding removed remove
removed-absent f files n = elim (Option-cases (lookup f files)) [
  | inl e ↦ ground arith
  | inr (content, e) ↦ ground (arith, lookup-erase f f files, eq_refl f)
]

abbrev pub is_ok : {E A : Type 0} → Result E A → Bool
is_ok (ok a) = true
is_ok (err e) = false

abbrev pub is_graceful : Option LoopError → Bool
is_graceful none = true
is_graceful (some e) = false

-- Once the pidfile is created and can be removed, it is gone when the agent stops, however it stops.
-- The agent returns no error just where it was prepared and its loop has returned none, and only
-- then does the host get the status for a stop, if the configuration has one.
pub start_lem :
    {Re : Type 0} (p : Process) (conf : Config Re) (prepared : Bool) (returned : Option LoopError)
    (files created : Dict String)
    → is_nil conf.pidfile ≡ false
    → create p conf.pidfile files ≡ ok created
    → (lookup conf.pidfile (start p true conf prepared returned files).2 ≡ none)
      × (is_ok (start p true conf prepared returned files).0 ≡ (prepared && is_graceful returned))
      × ((start p true conf prepared returned files).1 ≡ (
          if prepared && is_graceful returned && not (is_nil conf.host_status.on_stop)
          then some conf.host_status.on_stop
          else none))
unfolding start run_app
start_lem p conf prepared returned files created n c =
    ground (arith, removed-absent conf.pidfile created n)
