-- ===== src/Command/App/Params.antt =====
-- The host parameters that the agent sends (command/command.go).
use mackerel_agent.Prelude.{
  String, ◌≡◌, refl, Option, none, some, List, [], ◌∷◌, Dict, lookup, IsMap, str_eq, eq_iff, arith,
  inl, inr, Option-cases, if◌then◌else◌,
}
use mackerel_agent.Config.{Config, CheckPlugin}
use mackerel_agent.Command.App.{
  AgentMeta, CheckConfig, CreateHostParam, Machine, check_configs, collect_host_param,
  update_host_specs,
}

-- The memo of a check among those that are sent.
abbrev pub memo_of : String → List CheckConfig → Option String
memo_of name [] = none
memo_of name (check ∷ checks) =
    if str_eq check.name name then some check.memo else memo_of name checks

-- The memo of a plugin that checks the host itself.
abbrev pub own_memo : Option CheckPlugin → Option String
own_memo none = none
own_memo (some plugin) = elim plugin.custom_identifier [ none ↦ some plugin.memo | some c ↦ none ]

memo_of-check_configs :
    (name : String) (plugins : Dict CheckPlugin)
    → IsMap plugins
    → memo_of name (check_configs plugins) ≡ own_memo (lookup name plugins)
unfolding check_configs lookup
memo_of-check_configs name [] m = refl
memo_of-check_configs name ((key, plugin) ∷ plugins) m =
    elim (Option-cases plugin.custom_identifier) [
      | inl e ↦ ground (arith, eq_iff key name, memo_of-check_configs name plugins m.1)
      | inr (c, e) ↦ ground (arith, eq_iff key name, memo_of-check_configs name plugins m.1)
    ]

-- What an update of the host specs sends is for the host, with the name and the interfaces that the
-- machine has, and it tells of a check, with its memo, just where the plugin of that name is there
-- and is for no other host.
pub update_host_specs_lem :
    {Re : Type 0} (conf : Config Re) (ameta : AgentMeta) (machine : Machine) (host_id id : String)
    (param : CreateHostParam) (name : String)
    → IsMap conf.check_plugins
    → update_host_specs conf ameta machine host_id ≡ some (id, param)
    → (id ≡ host_id)
      × (machine.hostname ≡ some param.name)
      × (machine.network ≡ some param.interfaces)
      × (memo_of name param.checks ≡ own_memo (lookup name conf.check_plugins))
unfolding update_host_specs collect_host_param
update_host_specs_lem conf ameta machine host_id id param name m h =
    elim (Option-cases machine.hostname) [
      | inl e ↦ ground arith
      | inr (hostname, e) ↦ elim (Option-cases machine.network) [
        | inl f ↦ ground arith
        | inr (interfaces, f) ↦ ground (arith, memo_of-check_configs name conf.check_plugins m)
      ]
    ]
