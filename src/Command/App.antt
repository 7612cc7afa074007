-- ===== src/Command/App.antt =====
-- The host parameters and the life of the agent (command/command.go): `collectHostParam`,
-- `UpdateHostSpecs`, `updateHostSpecsLoop`, `Prepare` and `Run`.
pub mod Params
use mackerel_agent.Prelude.{
  String, append, Bool, true, false, ◌&&◌, Option, none, some, List, [], ◌∷◌, ◌++◌, Dict, is_nil,
  if◌then◌else◌, Result, ok, err,
}
use mackerel_agent.Config.{Config, CheckPlugin}
use mackerel_agent.Spec.{SpecValue, HostMeta, collect}
use mackerel_agent.Spec.Interface.{Interface}
use mackerel_agent.Mackerel.{ApiError, Host}
use mackerel_agent.Prelude.Retrier.{Retrier}
use mackerel_agent.Command.Host.{Server, Calls, HostSettings, prepare_host, PrepareError}
use mackerel_agent.Command.Post.{LoopError}

pub record AgentMeta : Type 0 where
  pub version : String
  pub revision : String

-- buildUA
unfoldable pub build_ua : String → String → String
build_ua ver rev = append "mackerel-agent/" (append ver (append " (Revision " (append rev ")")))

-- mkr.CheckConfig
pub record CheckConfig : Type 0 where
  pub name : String
  pub memo : String

-- mkr.CreateHostParam, where `meta` is the part of its meta that the generators give.
pub record CreateHostParam : Type 0 where
  pub name : String
  pub meta : HostMeta
  pub agent_version : String
  pub agent_revision : String
  pub agent_name : String
  pub interfaces : List Interface
  pub role_fullnames : List String
  pub checks : List CheckConfig
  pub display_name : String
  pub custom_identifier : String

-- A suitable generator of the cloud: what it returns, and the identifier that it suggests unless it
-- fails.
pub record CloudHost : Type 0 where
  pub cloud_spec : Option SpecValue
  pub suggested : Option String

-- What the machine says when it is asked. `none` is an error, and for `cloud` that there is no
-- suitable generator.
pub record Machine : Type 0 where
  pub hostname : Option String
  pub specs : List (Option SpecValue)
  pub cloud : Option CloudHost
  pub network : Option (List Interface)

-- The checks of the host itself, in the order of a `range` over the plugins.
unfoldable pub check_configs : Dict CheckPlugin → List CheckConfig
check_configs [] = []
check_configs ((name, plugin) ∷ plugins) =
    let rest = check_configs plugins in
    elim plugin.custom_identifier [
      | none ↦ record { name = name; memo = plugin.memo } ∷ rest
      | some identifier ↦ rest
    ]

abbrev spec_results : Machine → List (Option SpecValue)
spec_results machine = elim machine.cloud [
  | none ↦ machine.specs
  | some c ↦ machine.specs ++ c.cloud_spec ∷ []
]

abbrev suggested_identifier : Option CloudHost → String
suggested_identifier none = ""
suggested_identifier (some c) = elim c.suggested [ none ↦ "" | some identifier ↦ identifier ]

-- collectHostParam. `none` is an error.
unfoldable pub collect_host_param :
    {Re : Type 0} → Config Re → AgentMeta → Machine → Option CreateHostParam
unfolding build_ua check_configs collect
collect_host_param conf ameta machine = elim machine.hostname [
  | none ↦ none
  | some hostname ↦ elim machine.network [
    | none ↦ none
    | some interfaces ↦ some (record {
      name = hostname;
      meta = collect (spec_results machine);
      agent_version = ameta.version;
      agent_revision = ameta.revision;
      agent_name = build_ua ameta.version ameta.revision;
      interfaces = interfaces;
      role_fullnames = conf.roles;
      checks = check_configs conf.check_plugins;
      display_name = conf.display_name;
      custom_identifier = suggested_identifier machine.cloud;
    })
  ]
]

-- UpdateHostSpecs: the parameters that it sends for the host, if any.
unfoldable pub update_host_specs :
    {Re : Type 0} → Config Re → AgentMeta → Machine → String → Option (String × CreateHostParam)
unfolding collect_host_param
update_host_specs conf ameta machine host_id = elim (collect_host_param conf ameta machine) [
  | none ↦ none
  | some param ↦ some (host_id, param)
]

-- updateHostSpecsLoop, while its context is not done: the updates, by the machine at each round.
unfoldable pub update_host_specs_loop :
    {Re : Type 0} → Config Re → AgentMeta → String → List Machine → List (String × CreateHostParam)
unfolding update_host_specs
update_host_specs_loop conf ameta host_id [] = []
update_host_specs_loop conf ameta host_id (machine ∷ machines) =
    let rest = update_host_specs_loop conf ameta host_id machines in
    elim (update_host_specs conf ameta machine host_id) [
      | none ↦ rest
      | some update ↦ update ∷ rest
    ]

pub data AppError : Type 0 where
  no_api no_specs : AppError
  not_prepared : PrepareError → AppError

-- What is set in the client that NewMackerelClient returns.
pub record Client : Type 0 where
  pub user_agent : String
  pub x_agent_version : String
  pub x_revision : String

-- NewMackerelClient, where `made` tells whether mackerel.NewAPI has succeeded.
unfoldable pub new_mackerel_client : Bool → AgentMeta → Option Client
unfolding build_ua
new_mackerel_client made ameta =
    if made
    then some (record {
      user_agent = build_ua ameta.version ameta.revision;
      x_agent_version = ameta.version;
      x_revision = ameta.revision;
    })
    else none

abbrev prepared_as : Result PrepareError Host × Calls → Result AppError Host × Calls
prepared_as (err e, calls) = (err (not_prepared e), calls)
prepared_as (ok host, calls) = (ok host, calls)

-- Prepare, up to the host: the host and the calls so far.
unfoldable pub prepare :
    {Re : Type 0}
    → Retrier
    → Server
    → Bool
    → Config Re
    → AgentMeta
    → Machine
    → Result AppError Host × Calls
unfolding new_mackerel_client collect_host_param
prepare retrier server made conf ameta machine = elim (new_mackerel_client made ameta) [
  | none ↦ (err no_api, [])
  | some client ↦ elim (collect_host_param conf ameta machine) [
    | none ↦ (err no_specs, [])
    | some param ↦
        let settings : HostSettings = record {
          custom_identifier = param.custom_identifier;
          on_start = conf.host_status.on_start;
        } in
        prepared_as (prepare_host retrier server settings [])
  ]
]

-- Run, where `returned` is what the loop returns: its result, and the status that it sets.
unfoldable pub run_app :
    {Re : Type 0} → Config Re → Option LoopError → Option LoopError × Option String
run_app conf returned = elim returned [
  | none ↦ (none, if is_nil conf.host_status.on_stop then none else some conf.host_status.on_stop)
  | some e ↦ (some e, none)
]
