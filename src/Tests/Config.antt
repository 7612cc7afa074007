-- ===== src/Tests/Config.antt =====
-- The configuration (config/config.go) on concrete entries. A regular expression is its own text.
use mackerel_agent.Prelude.{
  String, ◌≡◌, refl, true, false, none, some, [], ◌∷◌, lookup, IsMap, insert, append, ok,
}
use mackerel_agent.Prelude.Int.{pos, wrap_int64}
use mackerel_agent.Config.{
  Config, PluginConfig, CommandConfig, Command, CheckPlugin, MetricPlugin, raw_string, raw_nil,
  auto,
}
use mackerel_agent.Config.Commands.{parse_command}
use mackerel_agent.Config.Plugins.{
  build_check_plugin, build_metric_plugin, plugins_of, set_plugins, set_each_plugins,
}
use mackerel_agent.Config.Load.{Loader, include_files}
use mackerel_agent.Config.HostId.{FileSystem, save_host_id}
use mackerel_agent.Config.Loaded.{include_file_declared}

abbrev no_command : CommandConfig
no_command = record { raw = raw_nil; user = ""; env = []; timeout_seconds = pos 0 }

abbrev entry : PluginConfig
entry = record {
  command = record no_command { raw = raw_string "dice" };
  notification_interval = none;
  check_interval = none;
  execution_interval = none;
  max_check_attempts = some (pos 3);
  custom_identifier = some "db";
  prevent_alert_auto_close = true;
  include_pattern = none;
  exclude_pattern = none;
  action = no_command;
  memo = "a memo";
}

abbrev dice_command : Command
dice_command = record { cmd = "dice"; args = []; user = ""; env = []; timeout_duration = pos 0 }

abbrev check : CheckPlugin
check = record {
  command = dice_command;
  custom_identifier = some "db";
  notification_interval = none;
  check_interval = none;
  max_check_attempts = some (pos 1);
  prevent_alert_auto_close = true;
  action = none;
  memo = "a memo";
}

built : build_check_plugin entry ≡ ok check
unfolding build_check_plugin parse_command wrap_int64
built = refl

abbrev empty : Config String
empty = record {
  apibase = "";
  apikey = "";
  root = "";
  pidfile = "";
  conffile = "";
  roles = [];
  verbose = false;
  silent = false;
  diagnostic = false;
  display_name = "";
  host_status = record { on_start = ""; on_stop = "" };
  filesystems = record { ignore = none; use_mountpoint = false };
  http_proxy = "";
  cloud_platform = auto;
  plugin = [];
  include = "";
  metric_plugins = [];
  check_plugins = [];
  metadata_plugins = [];
}

abbrev dice : MetricPlugin String
dice = record {
  command = dice_command;
  custom_identifier = some "db";
  include_pattern = none;
  exclude_pattern = none;
}

abbrev with_dice : Config String
with_dice = record empty { metric_plugins = ("dice", dice) ∷ []; check_plugins = ("c", check) ∷ [] }

-- Every file declares the metric plugin "dice" and no roles.
abbrev decoded : Config String → Config String
decoded conf = record conf { plugin = ("metrics", ("dice", entry) ∷ []) ∷ [] }

abbrev loader : Loader String
loader = record {
  compile = λ s. some s;
  decode = λ file conf. some (decoded conf, false);
  glob = λ pattern. some [];
  empty = empty;
  default_config = empty;
}

abbrev before : Config String
before = record empty { roles = "web: proxy" ∷ [] }

abbrev included : Config String
included = record before { metric_plugins = ("dice", dice) ∷ [] }

included_ok : include_files loader ("a.conf" ∷ []) before ≡ ok included
unfolding include_files set_each_plugins set_plugins plugins_of lookup build_metric_plugin
    parse_command insert wrap_int64
included_ok = refl

declared : lookup "dice" (plugins_of "metrics" (decoded empty).plugin) ≡ some entry
unfolding lookup plugins_of
declared = refl

declared_IsMap : IsMap (plugins_of "metrics" (decoded empty).plugin)
unfolding lookup plugins_of
declared_IsMap = (refl, tt)

include_file_declared_example :
    (included.roles ≡ before.roles)
    × (q : MetricPlugin String) × (build_metric_plugin loader.compile entry ≡ ok q)
    × (lookup "dice" included.metric_plugins ≡ some q)
include_file_declared_example =
    include_file_declared loader "a.conf" "dice" before included (decoded empty) false entry refl
      included_ok declared_IsMap declared

abbrev disk : FileSystem
disk = record { files = []; writable = λ path. true }

saved :
    save_host_id append "/var/" "h1\n" disk ≡ ok (record disk { files = ("/var/id", "h1\n") ∷ [] })
unfolding save_host_id insert
saved = refl
