-- ===== src/Spec/Cloud.antt =====
-- The cloud that the host runs in (spec/cloud.go): which one, and what its instance metadata say.
-- The HTTP requests are answered as the network likes.
pub mod Ec2
pub mod Suggested
use mackerel_agent.Prelude.{
  String, ℕ, suc, append, Bool, true, false, Option, none, some, List, [], ◌∷◌, Dict, insert,
  is_nil, split, ◌==◌, print_decimal, if◌then◌else◌,
}
use mackerel_agent.Prelude.Retrier.{Retrier}
use mackerel_agent.Config.{CloudPlatform, auto, no_platform, ec2, gce, azure_vm}
use mackerel_agent.Spec.{CloudSpec}

-- The generators of the clouds.
pub data CloudGenerator : Type 0 where
  ec2_generator gce_generator azure_vm_generator : CloudGenerator

-- The first generator that is sent to `gCh`: the probes, in the order in which they end, with what
-- they have found. The channel is closed after the last.
unfoldable pub first_found : List (CloudGenerator × Bool) → Option CloudGenerator
first_found [] = none
first_found ((generator, found) ∷ probes) =
    let later = first_found probes in if found then some generator else later

-- SuggestCloudGenerator
unfoldable pub suggest_cloud_generator :
    CloudPlatform → List (CloudGenerator × Bool) → Option CloudGenerator
unfolding first_found
suggest_cloud_generator no_platform probes = none
suggest_cloud_generator ec2 probes = some ec2_generator
suggest_cloud_generator gce probes = some gce_generator
suggest_cloud_generator azure_vm probes = some azure_vm_generator
suggest_cloud_generator auto probes = first_found probes

-- What a request returns: an error, or a status with a body that can be read or not.
pub data Answer : Type 0 where
  no_answer : Answer
  status : ℕ → Option String → Answer

-- What one attempt finds in the answer to it, unless it returns an error.
abbrev attempt_with :
    {A : Type 0} → (Answer → Option A) → (ℕ → Answer) → Option A × ℕ → Bool × (Option A × ℕ)
attempt_with read answers (found, n) = elim (read (answers n)) [
  | none ↦ (false, (found, suc n))
  | some a ↦ (true, (some a, suc n))
]

-- retry.Retry(times, ...): what was found, unless the last attempt has returned an error.
-- `answers i` answers the request of attempt `i`.
unfoldable pub until_read :
    {A : Type 0} → Retrier → ℕ → (Answer → Option A) → (ℕ → Answer) → Option A
until_read {A = A} retrier times read answers =
    (retrier.retry (Option A × ℕ) times (attempt_with read answers) (none, 0)).0

-- The closure of isAzure and of isEC2: whether the status is 200.
unfoldable pub is_status_ok : Answer → Option Bool
is_status_ok no_answer = none
is_status_ok (status code body) = some (code == 200)

-- requestGCEMeta
unfoldable pub request_gce_meta : Answer → Option String
request_gce_meta no_answer = none
request_gce_meta (status code body) = if code == 200 then body else none

-- isGCE and isAzure
unfoldable pub is_gce : Retrier → (ℕ → Answer) → Bool
unfolding until_read request_gce_meta
is_gce retrier answers = elim (until_read retrier 2 request_gce_meta answers) [
  | none ↦ false
  | some body ↦ true
]

unfoldable pub is_azure : Retrier → (ℕ → Answer) → Bool
unfolding until_read is_status_ok
is_azure retrier answers = elim (until_read retrier 2 is_status_ok answers) [
  | none ↦ false
  | some b ↦ b
]

-- The identifier of an instance, by the body of the answer.
unfoldable pub read_identifier : String → Answer → Option String
read_identifier suffix no_answer = none
read_identifier suffix (status code body) =
    if code == 200
    then elim body [
      | none ↦ none
      | some instance_id ↦ if is_nil instance_id then none else some (append instance_id suffix)
    ]
    else none

-- SuggestCustomIdentifier: `none` is an error.
unfoldable pub suggest_custom_identifier : Retrier → CloudGenerator → (ℕ → Answer) → Option String
unfolding until_read read_identifier
suggest_custom_identifier retrier ec2_generator answers =
    until_read retrier 3 (read_identifier ".ec2.amazonaws.com") answers
suggest_custom_identifier retrier azure_vm_generator answers =
    until_read retrier 3 (read_identifier ".virtual_machine.azure.microsoft.com") answers
suggest_custom_identifier retrier gce_generator answers = some ""

abbrev pub ec2_metadata_keys : List String
ec2_metadata_keys =
    "instance-id" ∷ "instance-type" ∷ "placement/availability-zone" ∷ "security-groups" ∷ "ami-id"
    ∷ "hostname" ∷ "local-hostname" ∷ "public-hostname" ∷ "local-ipv4" ∷ "public-ipv4"
    ∷ "reservation-id" ∷ []

-- The loop of (g *EC2Generator) Generate: `none` where a request fails. It ends at a body that
-- cannot be read.
unfoldable pub ec2_metadata : (String → Answer) → Dict String → List String → Option (Dict String)
ec2_metadata get metadata [] = some metadata
ec2_metadata get metadata (key ∷ keys) = elim (get key) [
  | no_answer ↦ none
  | status code body ↦
      let skipped = ec2_metadata get metadata keys in
      if code == 200
      then elim body [
        | none ↦ some metadata
        | some text ↦ ec2_metadata get (insert key text metadata) keys
      ]
      else skipped
]

-- (g *EC2Generator) Generate, which returns nil where a request fails.
unfoldable pub generate_ec2 : (String → Answer) → Option CloudSpec
unfolding ec2_metadata
generate_ec2 get = elim (ec2_metadata get [] ec2_metadata_keys) [
  | none ↦ none
  | some metadata ↦ some (record { provider = "ec2"; meta_data = metadata })
]

-- gceInstance and gceMeta
pub record GceInstance : Type 0 where
  pub zone : String
  pub instance_type : String
  pub hostname : String
  pub instance_id : ℕ

pub record GceMeta : Type 0 where
  pub instance_of : Option GceInstance
  pub project_id : Option String

abbrev last_piece : String → List String → String
last_piece w [] = w
last_piece w (v ∷ vs) = last_piece v vs

-- lastS
unfoldable pub last_s : String → String
last_s s = last_piece "" (split b'/' s)

abbrev add_instance : Option GceInstance → Dict String → Dict String
unfolding last_s
add_instance none meta = meta
add_instance (some ins) meta = insert "zone" (last_s ins.zone) (
    insert "instance-type" (last_s ins.instance_type)
      (insert "instance-id" (print_decimal ins.instance_id) (insert "hostname" ins.hostname meta)))

abbrev add_project : Option String → Dict String → Dict String
add_project none meta = meta
add_project (some project_id) meta = insert "projectId" project_id meta

-- toGeneratorMeta
unfoldable pub to_generator_meta : GceMeta → Dict String
unfolding last_s
to_generator_meta g = add_project g.project_id (add_instance g.instance_of [])

-- (g *GCEGenerator) Generate, where `decode` is json.Unmarshal. `none` is an error.
unfoldable pub generate_gce : (String → GceMeta) → Answer → Option CloudSpec
unfolding request_gce_meta to_generator_meta
generate_gce decode answer = elim (request_gce_meta answer) [
  | none ↦ none
  | some bytes ↦ some (record { provider = "gce"; meta_data = to_generator_meta (decode bytes) })
]

-- The loop of retrieveAzureVMMetadata, in the order of a `range`: it ends at a request that fails
-- and at a body that cannot be read.
unfoldable pub retrieve_azure_vm_metadata :
    (String → Answer) → String → Dict String → Dict String → Dict String
retrieve_azure_vm_metadata get url_suffix metadata_map [] = metadata_map
retrieve_azure_vm_metadata get url_suffix metadata_map ((key, value) ∷ keys) =
    elim (get (append url_suffix key)) [
      | no_answer ↦ metadata_map
      | status code body ↦
          let skipped = retrieve_azure_vm_metadata get url_suffix metadata_map keys in
          if code == 200
          then elim body [
            | none ↦ metadata_map
            | some text ↦
                retrieve_azure_vm_metadata get url_suffix (insert value text metadata_map) keys
          ]
          else skipped
    ]

abbrev pub metadata_compute_keys : Dict String
metadata_compute_keys =
    ("location", "location")
    ∷ ("offer", "imageReferenceOffer")
    ∷ ("osType", "osSystemType")
    ∷ ("publisher", "imageReferencePublisher")
    ∷ ("sku", "imageReferenceSku")
    ∷ ("vmId", "vmID")
    ∷ ("vmSize", "virtualMachineSizeType")
    ∷ []

abbrev pub ip_address_keys : Dict String
ip_address_keys =
    ("privateIpAddress", "privateIpAddress") ∷ ("publicIpAddress", "publicIpAddress") ∷ []

-- (g *AzureVMGenerator) Generate, for the orders in which the two `range`s visit the keys.
unfoldable pub generate_azure_vm : (String → Answer) → Dict String → Dict String → CloudSpec
unfolding retrieve_azure_vm_metadata
generate_azure_vm get compute_keys address_keys =
    let metadata = retrieve_azure_vm_metadata get "/compute/" [] compute_keys in
    record {
      provider = "AzureVM";
      meta_data =
          retrieve_azure_vm_metadata get "/network/interface/0/ipv4/ipAddress/0/" metadata
            address_keys;
    }
