-- ===== src/Spec.antt =====
-- The package spec: what the agent tells of its host (spec/spec.go). The generators are its children.
pub mod Cpu
pub mod Memory
pub mod Kernel
pub mod BlockDevice
pub mod Interface
pub mod Cloud
pub mod Collected
pub mod Bsd
use mackerel_agent.Prelude.{String, ℕ, Option, none, some, List, [], ◌∷◌, Dict}

-- One entry of mackerel.FileSystem
pub record FilesystemSpec : Type 0 where
  pub kb_size : ℕ
  pub kb_used : ℕ
  pub kb_available : ℕ
  pub percent_used : String
  pub mount : String

-- mackerel.Cloud
pub record CloudSpec : Type 0 where
  pub provider : String
  pub meta_data : Dict String

-- What a generator returns without an error. `untyped` stands for nil, and for a value of a type
-- that Collect does not know.
pub data SpecValue : Type 0 where
  block_device : Dict (Dict String) → SpecValue
  cpu : List (Dict String) → SpecValue
  filesystem : Dict FilesystemSpec → SpecValue
  kernel : Dict String → SpecValue
  memory : Dict String → SpecValue
  cloud : CloudSpec → SpecValue
  untyped : SpecValue

-- mackerel.HostMeta, of which Collect sets these fields.
pub record HostMeta : Type 0 where
  pub m_block_device : Option (Dict (Dict String))
  pub m_cpu : Option (List (Dict String))
  pub m_filesystem : Option (Dict FilesystemSpec)
  pub m_kernel : Option (Dict String)
  pub m_memory : Option (Dict String)
  pub m_cloud : Option CloudSpec

abbrev pub no_meta : HostMeta
no_meta = record {
  m_block_device = none;
  m_cpu = none;
  m_filesystem = none;
  m_kernel = none;
  m_memory = none;
  m_cloud = none;
}

unfoldable pub set_spec : SpecValue → HostMeta → HostMeta
set_spec (block_device v) specs = record specs { m_block_device = some v }
set_spec (cpu v) specs = record specs { m_cpu = some v }
set_spec (filesystem v) specs = record specs { m_filesystem = some v }
set_spec (kernel v) specs = record specs { m_kernel = some v }
set_spec (memory v) specs = record specs { m_memory = some v }
set_spec (cloud v) specs = record specs { m_cloud = some v }
set_spec untyped specs = specs

-- The loop of Collect, over what the generators return. `none` is an error.
unfoldable pub collect_specs : HostMeta → List (Option SpecValue) → HostMeta
unfolding set_spec
collect_specs specs [] = specs
collect_specs specs (none ∷ results) = collect_specs specs results
collect_specs specs (some value ∷ results) = collect_specs (set_spec value specs) results

-- Collect
unfoldable pub collect : List (Option SpecValue) → HostMeta
unfolding collect_specs
collect results = collect_specs no_meta results
