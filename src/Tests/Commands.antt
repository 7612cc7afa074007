-- ===== src/Tests/Commands.antt =====
-- The commands of mackerel-agent on concrete inputs (commands.go, do_init.go, main.go).
use mackerel_agent.Prelude.{
  String, ℕ, zero, suc, ◌≤◌, ◌≡◌, ◌⊎◌, refl, true, false, not, ◌&&◌, ◌||◌, none, some, [], ◌∷◌,
  Dict, lookup, insert, erase, is_nil, trim_right, ok, append, if◌then◌else◌,
}
use mackerel_agent.Config.{Config}
use mackerel_agent.Config.Load.{Loader, load_config, load_config_file}
use mackerel_agent.Config.Plugins.{set_each_plugins, set_plugins, plugins_of}
use mackerel_agent.Config.HostId.{FileSystem, load_host_id, delete_saved_host_id}
use mackerel_agent.Pidfile.{Process, create}
use mackerel_agent.Main.Init.{InitDisk, dir_exists, do_init}
use mackerel_agent.Main.Init.Kept.{InitEnds, do_init_lem}
use mackerel_agent.Main.Commands.{Retirement, do_retire, start}
use mackerel_agent.Main.Commands.Retired.{is_retired, do_retire_lem}
use mackerel_agent.Main.Commands.Started.{is_ok, is_graceful, start_lem}
use mackerel_agent.Tests.Host.{retrier}
use mackerel_agent.Tests.Main.{empty, loader}

-- A configuration file without an API key.
abbrev keyless_loader : Loader String
keyless_loader = record loader { decode = λ file conf. some (empty, true) }

abbrev init_disk : InitDisk
init_disk = record {
  dir = dir_exists;
  made = false;
  readable = true;
  writable = true;
  files = ("agent.conf", "roles = []\n") ∷ [];
}

abbrev init_files : Dict String
init_files = ("agent.conf", "apikey = \"k\"\nroles = []\n") ∷ []

init_run : do_init (λ files. keyless_loader) (λ c. true) "agent.conf" "k" init_disk ≡ ok init_files
unfolding do_init load_config lookup insert load_config_file set_each_plugins set_plugins plugins_of
init_run = refl

do_init_lem_example :
    InitEnds
      (λ files. keyless_loader)
      (λ c. true)
      "agent.conf"
      "k"
      init_disk
      (do_init (λ files. keyless_loader) (λ c. true) "agent.conf" "k" init_disk)
do_init_lem_example = do_init_lem (λ files. keyless_loader) (λ c. true) "agent.conf" "k" init_disk

abbrev join : String → String → String
join dir file = append dir (append "/" file)

abbrev host_files : FileSystem
host_files = record { files = ("/srv/id", "h1") ∷ []; writable = λ path. true }

abbrev retired_files : FileSystem
retired_files = record host_files { files = [] }

-- The second request succeeds.
abbrev retirement : Retirement
retirement = record {
  force = false;
  agreed = true;
  made = true;
  answers = λ n. elim n [ zero ↦ false | suc k ↦ true ];
}

abbrev retire_config : Config String
retire_config = record empty { root = "/srv" }

abbrev requests : ℕ
requests = 2

retire_run :
    do_retire retrier join retirement
      (record { version = "1"; revision = "r" })
      (ok retire_config)
      host_files
    ≡ (ok "/srv", requests, retired_files)
unfolding do_retire load_host_id delete_saved_host_id lookup trim_right erase
retire_run = refl

do_retire_lem_example :
    (requests ≤ 10)
    × ((requests ≡ 0) ⊎ ((retirement.force || retirement.agreed) ≡ true))
    × (((is_retired (ok "/srv") ≡ false) × (retired_files ≡ host_files))
        ⊎ ((is_retired (ok "/srv") ≡ true)
            × (k : ℕ) × (requests ≡ suc k)
            × (retirement.answers k ≡ true)))
do_retire_lem_example =
    do_retire_lem retrier join retirement (record { version = "1"; revision = "r" })
      (ok retire_config) host_files retired_files (ok "/srv") requests retire_run

abbrev process : Process
process = record {
  pid = 7;
  program = "mackerel-agent";
  cmd_name = λ z. "";
  made = true;
  created = true;
}

abbrev start_config : Config String
start_config = record empty {
  pidfile = "agent.pid";
  host_status = record { on_start = "working"; on_stop = "poweroff" };
}

start_run : create process "agent.pid" [] ≡ ok (("agent.pid", "7") ∷ [])
unfolding create lookup insert
start_run = refl

start_lem_example :
    (lookup "agent.pid" (start process true start_config true none []).2 ≡ none)
    × (is_ok (start process true start_config true none []).0 ≡ (true && is_graceful none))
    × ((start process true start_config true none []).1
        ≡ (if true && is_graceful none && not (is_nil "poweroff") then some "poweroff" else none))
start_lem_example =
    start_lem process start_config true none [] (("agent.pid", "7") ∷ []) refl start_run
