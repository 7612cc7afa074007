-- ===== src/Spec/Collected.antt =====
-- What the agent tells of its host, by what the generators return (spec/spec.go).
use mackerel_agent.Prelude.{
  String, ◌≡◌, refl, Option, none, some, List, [], ◌∷◌, or_else, Dict, arith, ap, ◌∙◌, inl, inr,
  Option-cases,
}
use mackerel_agent.Spec.{
  SpecValue, block_device, cpu, filesystem, kernel, memory, cloud, HostMeta, no_meta, CloudSpec,
  FilesystemSpec, set_spec, collect_specs, collect,
}

-- The last value of a kind, among those that were returned without an error.
abbrev last_of : {A : Type 0} → (SpecValue → Option A) → List (Option SpecValue) → Option A
last_of kind [] = none
last_of kind (none ∷ results) = last_of kind results
last_of kind (some value ∷ results) = or_else (last_of kind results) (kind value)

abbrev as_block_device : SpecValue → Option (Dict (Dict String))
as_block_device (block_device v) = some v
as_block_device _ = none

abbrev as_cpu : SpecValue → Option (List (Dict String))
as_cpu (cpu v) = some v
as_cpu _ = none

abbrev as_filesystem : SpecValue → Option (Dict FilesystemSpec)
as_filesystem (filesystem v) = some v
as_filesystem _ = none

abbrev as_kernel : SpecValue → Option (Dict String)
as_kernel (kernel v) = some v
as_kernel _ = none

abbrev as_memory : SpecValue → Option (Dict String)
as_memory (memory v) = some v
as_memory _ = none

abbrev as_cloud : SpecValue → Option CloudSpec
as_cloud (cloud v) = some v
as_cloud _ = none

or_else_assoc : {A : Type 0} (a b c : Option A) → or_else a (or_else b c) ≡ or_else (or_else a b) c
or_else_assoc none b c = refl
or_else_assoc (some a) b c = refl

-- A field of the meta that a value of its kind sets.
module _ {A : Type 0} (field : HostMeta → Option A) (kind : SpecValue → Option A)
    (sets : (v : SpecValue) (specs : HostMeta)
      → field (set_spec v specs) ≡ or_else (kind v) (field specs)) where
  field-collect_specs :
      (specs : HostMeta) (results : List (Option SpecValue))
      → field (collect_specs specs results) ≡ or_else (last_of kind results) (field specs)
  unfolding collect_specs
  field-collect_specs specs [] = refl
  field-collect_specs specs (none ∷ results) = field-collect_specs specs results
  field-collect_specs specs (some v ∷ results) =
      field-collect_specs (set_spec v specs) results
      ∙ ap (or_else (last_of kind results)) (sets v specs)
      ∙ or_else_assoc (last_of kind results) (kind v) (field specs)

  field-collect :
      (results : List (Option SpecValue))
      → field no_meta ≡ none
      → field (collect results) ≡ last_of kind results
  unfolding collect
  field-collect results none_eq = elim (Option-cases (last_of kind results)) [
    | inl e ↦ field-collect_specs no_meta results ∙ rw e none_eq
    | inr (v, e) ↦ field-collect_specs no_meta results ∙ rw e refl
  ]

module _ (v : SpecValue) (specs : HostMeta) where
  sets-block_device :
      (set_spec v specs).m_block_device ≡ or_else (as_block_device v) specs.m_block_device
  unfolding set_spec
  sets-block_device = ground arith

  sets-cpu : (set_spec v specs).m_cpu ≡ or_else (as_cpu v) specs.m_cpu
  unfolding set_spec
  sets-cpu = ground arith

  sets-filesystem : (set_spec v specs).m_filesystem ≡ or_else (as_filesystem v) specs.m_filesystem
  unfolding set_spec
  sets-filesystem = ground arith

  sets-kernel : (set_spec v specs).m_kernel ≡ or_else (as_kernel v) specs.m_kernel
  unfolding set_spec
  sets-kernel = ground arith

  sets-memory : (set_spec v specs).m_memory ≡ or_else (as_memory v) specs.m_memory
  unfolding set_spec
  sets-memory = ground arith

  sets-cloud : (set_spec v specs).m_cloud ≡ or_else (as_cloud v) specs.m_cloud
  unfolding set_spec
  sets-cloud = ground arith

-- The meta of a host has of each kind the value that the last generator of that kind has returned;
-- a generator that fails, or that returns nil, changes nothing.
pub collect_lem :
    (results : List (Option SpecValue))
    → ((collect results).m_block_device ≡ last_of as_block_device results)
      × ((collect results).m_cpu ≡ last_of as_cpu results)
      × ((collect results).m_filesystem ≡ last_of as_filesystem results)
      × ((collect results).m_kernel ≡ last_of as_kernel results)
      × ((collect results).m_memory ≡ last_of as_memory results)
      × ((collect results).m_cloud ≡ last_of as_cloud results)
collect_lem results = (
  field-collect (λ m. m.m_block_device) as_block_device sets-block_device results refl,
  field-collect (λ m. m.m_cpu) as_cpu sets-cpu results refl,
  field-collect (λ m. m.m_filesystem) as_filesystem sets-filesystem results refl,
  field-collect (λ m. m.m_kernel) as_kernel sets-kernel results refl,
  field-collect (λ m. m.m_memory) as_memory sets-memory results refl,
  field-collect (λ m. m.m_cloud) as_cloud sets-cloud results refl,
)
