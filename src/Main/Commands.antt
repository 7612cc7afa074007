-- ===== src/Main/Commands.antt =====
-- The commands of mackerel-agent (commands.go), and `start` of main.go: what they do with the pidfile,
-- the stored host id and the API.
pub mod Retired
pub mod Started
use mackerel_agent.Prelude.{
  String, ℕ, zero, suc, Bool, true, false, not, ◌&&◌, ◌||◌, Option, none, some, List, [], ◌∷◌, Dict,
  if◌then◌else◌, Result, ok, err, ◌==◌,
}
use mackerel_agent.Prelude.Retrier.{Retrier}
use mackerel_agent.Config.{Config}
use mackerel_agent.Config.HostId.{FileSystem, load_host_id, delete_saved_host_id}
use mackerel_agent.Pidfile.{Process, PidfileError, create, remove}
use mackerel_agent.Command.Post.{LoopError}
use mackerel_agent.Command.App.{AgentMeta, new_mackerel_client, run_app}
use mackerel_agent.Main.{ResolveError, LogLevel, set_log_level}

pub data StartError : Type 0 where
  not_created : PidfileError → StartError
  not_prepared : StartError
  not_supported : StartError
  unresolved : ResolveError → StartError
  loop_failed : LoopError → StartError

-- pidfile.Remove, whose error is ignored: the files after it.
unfoldable pub removed : Bool → String → Dict String → Dict String
unfolding remove
removed removes f files = elim (remove removes f files) [ err e ↦ files | ok files' ↦ files' ]

abbrev run_result : Option LoopError → Result StartError (Unit {0})
run_result none = ok tt
run_result (some e) = err (loop_failed e)

-- start: its result, the status that the host is given on stop, and the files after it. `prepared`
-- tells whether command.Prepare succeeds, and `returned` is what the loop returns. The pidfile is
-- removed on every return after it is created.
unfoldable pub start :
    {Re : Type 0}
    → Process
    → Bool
    → Config Re
    → Bool
    → Option LoopError
    → Dict String
    → Result StartError (Unit {0}) × Option String × Dict String
unfolding create removed run_app
start p removes conf prepared returned files = elim (create p conf.pidfile files) [
  | err e ↦ (err (not_created e), none, files)
  | ok created ↦
      let (loop_result, status) = run_app conf returned in
      if prepared
      then (run_result loop_result, status, removed removes conf.pidfile created)
      else (err not_prepared, none, removed removes conf.pidfile created)
]

-- doMain
unfoldable pub do_main :
    {Re : Type 0}
    → Process
    → Bool
    → Result ResolveError (Config Re)
    → Bool
    → Option LoopError
    → Dict String
    → Result StartError (Unit {0}) × Option String × Dict String
unfolding start
do_main p removes resolved prepared returned files = elim resolved [
  | err e ↦ (err (unresolved e), none, files)
  | ok conf ↦ start p removes conf prepared returned files
]

-- doSupervise, where `windows` is `runtime.GOOS == "windows"` and `supervised` is what
-- supervisor.Supervise returns.
unfoldable pub do_supervise :
    {Re : Type 0}
    → Bool
    → Process
    → Bool
    → Result ResolveError (Config Re)
    → Result StartError (Unit {0})
    → Dict String
    → Result StartError (Unit {0}) × Dict String
unfolding create removed
do_supervise windows p removes resolved supervised files =
    if windows then (err not_supported, files) else elim resolved [
      | err e ↦ (err (unresolved e), files)
      | ok conf ↦ elim (create p conf.pidfile files) [
        | err e ↦ (err (not_created e), files)
        | ok created ↦ (supervised, removed removes conf.pidfile created)
      ]
    ]

-- doConfigtest: the file whose syntax is reported to be OK, unless there is an error.
unfoldable pub do_configtest :
    {Re : Type 0} → Result ResolveError (Config Re) → Result ResolveError String
do_configtest resolved = elim resolved [ err e ↦ err e | ok conf ↦ ok conf.conffile ]

-- doOnce: the configuration that it goes on with, which is an empty one where there is none.
unfoldable pub once_config : {Re : Type 0} → Config Re → Result ResolveError (Config Re) → Config Re
once_config empty resolved = elim resolved [ err e ↦ empty | ok conf ↦ conf ]

pub data RetireError : Type 0 where
  no_config : ResolveError → RetireError
  no_host_id no_client canceled refused : RetireError

-- The closure that is retried: whether the last request has succeeded, and how many there were.
abbrev retire_once : (ℕ → Bool) → Bool × ℕ → Bool × (Bool × ℕ)
retire_once answers (done, n) = (answers n, (answers n, suc n))

-- What is asked for, and how it is answered: the option -force, what the user says to the prompt,
-- whether an API client can be made, and the answer to each request.
pub record Retirement : Type 0 where
  pub force : Bool
  pub agreed : Bool
  pub made : Bool
  pub answers : ℕ → Bool

module _ (retrier : Retrier) (join : String → String → String) where
  abbrev host_id_removed : String → FileSystem → FileSystem
  unfolding delete_saved_host_id
  host_id_removed root fs = elim (delete_saved_host_id join root fs) [ err e ↦ fs | ok fs' ↦ fs' ]

  abbrev after_requests :
      String → FileSystem → Bool × ℕ → Result RetireError String × ℕ × FileSystem
  unfolding delete_saved_host_id
  after_requests root fs (false, n) = (err refused, n, fs)
  after_requests root fs (true, n) = (ok root, n, host_id_removed root fs)

  -- doRetire: its result, with the directory of the host id, the number of requests, and the files
  -- after it.
  unfoldable pub do_retire :
      {Re : Type 0}
      → Retirement
      → AgentMeta
      → Result ResolveError (Config Re)
      → FileSystem
      → Result RetireError String × ℕ × FileSystem
  unfolding load_host_id delete_saved_host_id new_mackerel_client
  do_retire r ameta resolved fs = elim resolved [
    | err e ↦ (err (no_config e), 0, fs)
    | ok conf ↦ elim (load_host_id join conf.root fs) [
      | err e ↦ (err no_host_id, 0, fs)
      | ok host_id ↦ elim (new_mackerel_client r.made ameta) [
        | none ↦ (err no_client, 0, fs)
        | some client ↦
            if not r.force && not r.agreed
            then (err canceled, 0, fs)
            else after_requests conf.root fs
                (retrier.retry (Bool × ℕ) 10 (retire_once r.answers) (false, 0))
      ]
    ]
  ]
