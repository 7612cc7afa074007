-- ===== src/Tests/Main.antt =====
-- The configuration that main.go resolves, and the name of a role, on concrete command lines.
use mackerel_agent.Prelude.{
  String, ◌≡◌, ◌↔◌, refl, true, false, ◌||◌, none, some, [], ◌∷◌, is_nil, lookup, All,
  if◌then◌else◌, ok,
}
use mackerel_agent.Config.{Config, auto}
use mackerel_agent.Config.Load.{Loader, load_config_file, load_config, or_default}
use mackerel_agent.Config.Plugins.{set_each_plugins, set_plugins, plugins_of}
use mackerel_agent.Main.{Flags, flag_or, match_role_fullname, resolve_config}
use mackerel_agent.Main.Roles.{RoleFullname, match_role_fullname_iff}
use mackerel_agent.Main.Resolved.{resolve_config_lem}

match_role_fullname_iff_example :
    (match_role_fullname "web: proxy" ≡ true) ↔ RoleFullname "web: proxy"
match_role_fullname_iff_example = match_role_fullname_iff "web: proxy"

abbrev pub empty : Config String
empty = record {
  apibase = "";
  apikey = "";
  root = "";
  pidfile = "";
  conffile = "";
  roles = [];
  verbose = false;
  silent = false;
  diagnostic = false;
  display_name = "";
  host_status = record { on_start = ""; on_stop = "" };
  filesystems = record { ignore = none; use_mountpoint = false };
  http_proxy = "";
  cloud_platform = auto;
  plugin = [];
  include = "";
  metric_plugins = [];
  check_plugins = [];
  metadata_plugins = [];
}

abbrev pub default_config : Config String
default_config = record empty {
  apibase = "https://api.mackerelio.com";
  root = "/var/lib/mackerel-agent";
  pidfile = "/var/run/mackerel-agent.pid";
}

abbrev pub loader : Loader String
loader = record {
  compile = λ s. some s;
  decode = λ file conf.
      some (record conf { apikey = "key"; root = "/srv"; roles = "web" ∷ "web:db" ∷ [] }, true);
  glob = λ pattern. some [];
  empty = empty;
  default_config = default_config;
}

abbrev flags : Flags
flags = record {
  conf = "agent.conf";
  apibase = none;
  apikey = none;
  pidfile = some "/tmp/pid";
  root = none;
  diagnostic = none;
  verbose = some true;
  role = [];
  child = false;
}

abbrev resolved : Config String
resolved = record empty {
  apibase = "https://api.mackerelio.com";
  apikey = "key";
  root = "/srv";
  pidfile = "/tmp/pid";
  conffile = "agent.conf";
  verbose = true;
  roles = "web:db" ∷ [];
}

resolved_ok : resolve_config loader flags ≡ ok resolved
unfolding resolve_config load_config load_config_file set_each_plugins set_plugins plugins_of lookup
    match_role_fullname
resolved_ok = refl

resolve_config_lem_example :
    (is_nil resolved.apikey ≡ false)
    × (d : Config String) × (load_config_file loader flags.conf ≡ ok d)
    × All (λ r. match_role_fullname r ≡ true) resolved.roles
    × (resolved.apibase
        ≡ flag_or flags.apibase (or_default d.apibase loader.default_config.apibase))
    × (resolved.root ≡ flag_or flags.root (or_default d.root loader.default_config.root))
    × (resolved.pidfile ≡ (
        if flags.child
        then ""
        else flag_or flags.pidfile (or_default d.pidfile loader.default_config.pidfile)))
    × (resolved.verbose ≡ flag_or flags.verbose (d.verbose || loader.default_config.verbose))
resolve_config_lem_example = resolve_config_lem loader flags resolved resolved_ok
