-- ===== src/Config.antt =====
-- The package config: the configuration file, the plugins that it declares and the storage of the
-- host id (config/config.go). This file holds the records; `Re` is the type of a compiled regular
-- expression, which is the library's.
pub mod Platform
pub mod Commands
pub mod Plugins
pub mod Load
pub mod HostId
pub mod Storage
pub mod Built
pub mod Loaded
pub mod Environment
pub mod Identifiers
use mackerel_agent.Prelude.{String, ℕ, Bool, Option, List, Dict}
use mackerel_agent.Prelude.Int.{ℤ}

-- What stands behind `command` in the file: the cases of the type switch of `parse`.
pub data Item : Type 0 where
  text : String → Item
  other_item : Item

pub data Raw : Type 0 where
  raw_nil : Raw
  raw_string : String → Raw
  raw_items : List Item → Raw
  raw_strings : List String → Raw
  raw_other : Raw

-- `timeout_seconds` is an int64.
pub record CommandConfig : Type 0 where
  pub raw : Raw
  pub user : String
  pub env : Dict String
  pub timeout_seconds : ℤ

-- `config.Command` with its embedded `cmdutil.CommandOption`; `timeout_duration` is in nanoseconds.
pub record Command : Type 0 where
  pub cmd : String
  pub args : List String
  pub user : String
  pub env : List String
  pub timeout_duration : ℤ

pub record PluginConfig : Type 0 where
  pub command : CommandConfig
  pub notification_interval : Option ℤ
  pub check_interval : Option ℤ
  pub execution_interval : Option ℤ
  pub max_check_attempts : Option ℤ
  pub custom_identifier : Option String
  pub prevent_alert_auto_close : Bool
  pub include_pattern : Option String
  pub exclude_pattern : Option String
  pub action : CommandConfig
  pub memo : String

pub record MetricPlugin (Re : Type 0) : Type 0 where
  pub command : Command
  pub custom_identifier : Option String
  pub include_pattern : Option Re
  pub exclude_pattern : Option Re

pub record CheckPlugin : Type 0 where
  pub command : Command
  pub custom_identifier : Option String
  pub notification_interval : Option ℤ
  pub check_interval : Option ℤ
  pub max_check_attempts : Option ℤ
  pub prevent_alert_auto_close : Bool
  pub action : Option Command
  pub memo : String

pub record MetadataPlugin : Type 0 where
  pub command : Command
  pub execution_interval : Option ℤ

pub data CloudPlatform : Type 0 where
  auto no_platform ec2 gce azure_vm : CloudPlatform

pub record HostStatus : Type 0 where
  pub on_start : String
  pub on_stop : String

pub record Filesystems (Re : Type 0) : Type 0 where
  pub ignore : Option Re
  pub use_mountpoint : Bool

-- `plugin` is the field `Plugin`: by the kind of plugin, then by its name.
pub record Config (Re : Type 0) : Type 0 where
  pub apibase : String
  pub apikey : String
  pub root : String
  pub pidfile : String
  pub conffile : String
  pub roles : List String
  pub verbose : Bool
  pub silent : Bool
  pub diagnostic : Bool
  pub display_name : String
  pub host_status : HostStatus
  pub filesystems : Filesystems Re
  pub http_proxy : String
  pub cloud_platform : CloudPlatform
  pub plugin : Dict (Dict PluginConfig)
  pub include : String
  pub metric_plugins : Dict (MetricPlugin Re)
  pub check_plugins : Dict CheckPlugin
  pub metadata_plugins : Dict MetadataPlugin

pub data ConfigError : Type 0 where
  bad_command : ConfigError
  bad_env : String → ConfigError
  bad_pattern : ConfigError
  undecodable : ConfigError
  bad_glob : ConfigError
  wrapped : String → ConfigError → ConfigError
