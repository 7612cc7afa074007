-- ===== src/Config/Built.antt =====
-- What the plugins built from a configuration hold (config/config.go).
use mackerel_agent.Prelude.{
  Result-cases, String, ◌≤◌, Bool, true, false, Option, none, some, [], ◌∷◌, Dict, lookup, insert,
  IsMap, lookup-insert, eq_iff, str_eq, Bool-cases, rune_count, rune_count-take_runes, take_runes,
  take_runes_all, if◌then◌else◌, Result, ok, ◌≡◌, ◌∙◌, arith, inl, inr,
}
use mackerel_agent.Prelude.Int.{ℤ, pos, ltb_ℤ}
use mackerel_agent.Config.{PluginConfig, CheckPlugin, ConfigError}
use mackerel_agent.Config.Plugins.{
  set_plugins, build_check_plugin, cut_memo, cap_attempts, memo_limit,
}

module _ {P Q : Type 0} (build : P → Result ConfigError Q) (kind : String) where
  -- A name that the configuration does not have keeps its plugin.
  pub set_plugins-other :
      (n : String) (ps : Dict P) (m m' : Dict Q)
      → set_plugins build kind ps m ≡ ok m'
      → lookup n ps ≡ none
      → lookup n m' ≡ lookup n m
  unfolding set_plugins lookup
  set_plugins-other n [] m m' h none_there = ground arith
  set_plugins-other n ((j, p) ∷ ps) m m' h none_there = elim (Result-cases (build p)) [
    | inl (q, e) ↦ ground (arith, lookup-insert j n q m, set_plugins-other n ps (insert j q m) m')
    | inr (x, e) ↦ ground arith
  ]

  -- A name that the configuration has gets the plugin that is built from its entry, whatever plugin
  -- it had before.
  pub set_plugins-lookup :
      (n : String) (p : P) (ps : Dict P) (m m' : Dict Q)
      → IsMap ps
      → set_plugins build kind ps m ≡ ok m'
      → lookup n ps ≡ some p
      → (q : Q) × (build p ≡ ok q) × (lookup n m' ≡ some q)
  unfolding set_plugins lookup
  set_plugins-lookup n p [] m m' w h there = cc
  set_plugins-lookup n p ((j, r) ∷ ps) m m' w h there = elim (Result-cases (build r)) [
    | inr (x, e) ↦ ground arith
    | inl (q, e) ↦ elim (Bool-cases (str_eq j n)) [
      | inl same ↦ (
        q,
        ground (arith),
        ground (arith, eq_iff j n, lookup-insert j n q m, set_plugins-other n ps (insert j q m) m'),
      )
      | inr other ↦ set_plugins-lookup n p ps (insert j q m) m' w.1 (ground arith) (ground arith)
    ]
  ]

cut_memo_lem :
    (memo : String)
    → (rune_count (cut_memo memo) ≤ memo_limit) × (cut_memo memo ≡ take_runes memo_limit memo)
unfolding cut_memo
cut_memo_lem memo =
    ground (arith, rune_count-take_runes memo_limit memo, take_runes_all memo_limit memo)

-- At most one check attempt where alerts are not closed automatically, and as many as configured
-- otherwise.
abbrev pub Attempts : Bool → Option ℤ → Option ℤ → Type 0
Attempts prevent none n = n ≡ none
Attempts true (some o) n = n ≡ (if ltb_ℤ (pos 1) o then some (pos 1) else some o)
Attempts false (some o) n = n ≡ some o

cap_attempts_lem : (prevent : Bool) (o : Option ℤ) → Attempts prevent o (cap_attempts prevent o)
unfolding cap_attempts
cap_attempts_lem prevent none = ground arith
cap_attempts_lem true (some o) = ground arith
cap_attempts_lem false (some o) = ground arith

-- What a check plugin takes over from its entry.
pub record SameSettings (pconf : PluginConfig) (c : CheckPlugin) : Type 0 where
  pub custom_identifier : c.custom_identifier ≡ pconf.custom_identifier
  pub notification_interval : c.notification_interval ≡ pconf.notification_interval
  pub check_interval : c.check_interval ≡ pconf.check_interval
  pub prevent_alert_auto_close : c.prevent_alert_auto_close ≡ pconf.prevent_alert_auto_close
  pub memo : c.memo ≡ cut_memo pconf.memo
  pub max_check_attempts :
      c.max_check_attempts ≡ cap_attempts pconf.prevent_alert_auto_close pconf.max_check_attempts

build_check_plugin-settings :
    (pconf : PluginConfig) (c : CheckPlugin)
    → build_check_plugin pconf ≡ ok c
    → SameSettings pconf c
unfolding build_check_plugin
build_check_plugin-settings pconf c h = ground arith

-- A check plugin has the first 250 characters of the memo of its entry, makes at most one check
-- attempt where alerts are not closed automatically, and has the settings of its entry otherwise.
pub build_check_plugin_lem :
    (pconf : PluginConfig) (c : CheckPlugin)
    → build_check_plugin pconf ≡ ok c
    → (c.memo ≡ take_runes memo_limit pconf.memo)
      × Attempts pconf.prevent_alert_auto_close pconf.max_check_attempts c.max_check_attempts
      × SameSettings pconf c
build_check_plugin_lem pconf c h =
    let same = build_check_plugin-settings pconf c h in
    (
      same.memo ∙ (cut_memo_lem pconf.memo).1,
      rw (same.max_check_attempts)
          (cap_attempts_lem pconf.prevent_alert_auto_close pconf.max_check_attempts),
      same,
    )
