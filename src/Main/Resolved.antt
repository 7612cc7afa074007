-- ===== src/Main/Resolved.antt =====
-- What the configuration that main.go resolves holds.
use mackerel_agent.Prelude.{
  Result-cases, String, true, false, List, [], ◌∷◌, is_nil, is_empty, if◌then◌else◌, ok, ◌≡◌, ap,
  ◌∙◌, arith, All, inl, inr, ◌||◌,
}
use mackerel_agent.Config.{Config}
use mackerel_agent.Config.Load.{Loader, load_config, load_config_file, set_defaults, or_default}
use mackerel_agent.Config.Loaded.{load_config_lem}
use mackerel_agent.Main.{
  Flags, flag_or, good_roles, match_role_fullname, overwrite, resolve_config, set_roles,
}

good_roles-All : (rs : List String) → All (λ r. match_role_fullname r ≡ true) (good_roles rs)
unfolding good_roles
good_roles-All [] = tt
good_roles-All (r ∷ rs) = ground (arith, good_roles-All rs)

overwrite-apikey :
    {Re : Type 0} (l : Loader Re) (flags : Flags) (loaded conf : Config Re)
    → load_config l flags.conf ≡ ok loaded
    → resolve_config l flags ≡ ok conf
    → (conf ≡ overwrite flags loaded) × (is_nil conf.apikey ≡ false)
unfolding resolve_config
overwrite-apikey l flags loaded conf e h = ground arith

resolved-loaded :
    {Re : Type 0} (l : Loader Re) (flags : Flags) (conf : Config Re)
    → resolve_config l flags ≡ ok conf
    → (loaded : Config Re) × (load_config l flags.conf ≡ ok loaded)
unfolding resolve_config
resolved-loaded l flags conf h = elim (Result-cases (load_config l flags.conf)) [
  | inl r ↦ r
  | inr r ↦ absurd (ground arith)
]

-- The settings that come from the command line, the file or the default configuration.
overwrite-set_defaults :
    {Re : Type 0} (l : Loader Re) (flags : Flags) (d conf : Config Re)
    → conf ≡ overwrite flags (set_defaults l d)
    → All (λ r. match_role_fullname r ≡ true) conf.roles
      × (conf.apibase ≡ flag_or flags.apibase (or_default d.apibase l.default_config.apibase))
      × (conf.root ≡ flag_or flags.root (or_default d.root l.default_config.root))
      × (conf.pidfile ≡ (
          if flags.child
          then ""
          else flag_or flags.pidfile (or_default d.pidfile l.default_config.pidfile)))
      × (conf.verbose ≡ flag_or flags.verbose (d.verbose || l.default_config.verbose))
unfolding overwrite set_defaults
overwrite-set_defaults l flags d conf e =
    ground
      (arith, good_roles-All (if is_empty flags.role then d.roles else set_roles [] flags.role))

-- A configuration that is resolved has an API key and only well-formed roles. The API base, the root
-- and the pidfile are those of the command line, else those of the file, else the default ones,
-- but the child of a supervisor has no pidfile; it is verbose as the command line says, else if the
-- file or the default says so.
pub resolve_config_lem :
    {Re : Type 0} (l : Loader Re) (flags : Flags) (conf : Config Re)
    → resolve_config l flags ≡ ok conf
    → (is_nil conf.apikey ≡ false)
      × (d : Config Re) × (load_config_file l flags.conf ≡ ok d)
      × All (λ r. match_role_fullname r ≡ true) conf.roles
      × (conf.apibase ≡ flag_or flags.apibase (or_default d.apibase l.default_config.apibase))
      × (conf.root ≡ flag_or flags.root (or_default d.root l.default_config.root))
      × (conf.pidfile ≡ (
          if flags.child
          then ""
          else flag_or flags.pidfile (or_default d.pidfile l.default_config.pidfile)))
      × (conf.verbose ≡ flag_or flags.verbose (d.verbose || l.default_config.verbose))
resolve_config_lem l flags conf h =
    let (loaded, e) = resolved-loaded l flags conf h in
    let (w, k) = overwrite-apikey l flags loaded conf e h in
    let (d, f, s) = load_config_lem l flags.conf loaded e in
    let (roles, apibase, root, pidfile, verbose) =
      overwrite-set_defaults l flags d conf (w ∙ ap (overwrite flags) s) in
    (k, d, f, roles, apibase, root, pidfile, verbose)
