-- ===== src/Config/Storage.antt =====
-- The storage of the host id (config/config.go): `HostIDStorage`, which a user of the package may set,
-- and the storage in a file where none is set. `S` is the type of what a storage of one's own holds.
use mackerel_agent.Prelude.{
  String, false, Option, none, some, ◌≡◌, arith, Result, ok, err, ◌>>=◌, is_nil, Result-cases, refl,
  if◌then◌else◌, inl, inr,
}
use mackerel_agent.Config.HostId.{
  FileSystem, HostIdError, no_file, load_host_id, save_host_id, delete_saved_host_id,
  without_newlines, load-save_host_id, load-delete_saved_host_id,
}

-- getApibase and getAgentName, where the variable is set when the agent is built, or empty.
unfoldable pub get_apibase : String → String
get_apibase apibase = if is_nil apibase then "https://api.mackerelio.com" else apibase

unfoldable pub get_agent_name : String → String
get_agent_name agent_name = if is_nil agent_name then "mackerel-agent" else agent_name

-- HostIDStorage
pub record HostIdStorage (W : Type 0) : Type 0 where
  pub load : W → Result HostIdError String
  pub save : String → W → Result HostIdError W
  pub delete : W → Result HostIdError W

-- What the agent relies on: an id that is saved is loaded, if it is not empty and does not end in a
-- newline, and a deleted one is gone.
pub record IsStorage {W : Type 0} (storage : HostIdStorage W) : Type 0 where
  pub load-save :
      (id : String) (w w' : W)
      → without_newlines id ≡ id
      → is_nil id ≡ false
      → storage.save id w ≡ ok w'
      → storage.load w' ≡ ok id
  pub load-delete : (w w' : W) → storage.delete w ≡ ok w' → storage.load w' ≡ err no_file

module _ {S : Type 0} (join : String → String → String) (root : String) where
  -- FileSystemHostIDStorage
  unfoldable pub file_system_storage : HostIdStorage (FileSystem × S)
  unfolding load_host_id save_host_id delete_saved_host_id
  file_system_storage = record {
    load = λ w. load_host_id join root w.0;
    save = λ id w. save_host_id join root id w.0 >>= λ fs. ok (fs, w.1);
    delete = λ w. delete_saved_host_id join root w.0 >>= λ fs. ok (fs, w.1);
  }

  -- hostIDStorage
  unfoldable pub host_id_storage :
      Option (HostIdStorage (FileSystem × S)) → HostIdStorage (FileSystem × S)
  unfolding file_system_storage
  host_id_storage none = file_system_storage
  host_id_storage (some custom) = custom

  file_system_storage-IsStorage : IsStorage file_system_storage
  unfolding file_system_storage
  file_system_storage-IsStorage = record {
    load-save = λ id w w' same n h. elim (Result-cases (save_host_id join root id w.0)) [
      | inl (fs, e) ↦ ground (arith, load-save_host_id join root id w.0 fs e)
      | inr (x, e) ↦ ground arith
    ];
    load-delete = λ w w' h. elim (Result-cases (delete_saved_host_id join root w.0)) [
      | inl (fs, e) ↦ ground (arith, load-delete_saved_host_id join root w.0 fs e)
      | inr (x, e) ↦ ground arith
    ];
  }

  -- The storage that the agent uses keeps host ids, where a storage of one's own does.
  pub host_id_storage-IsStorage :
      (custom : Option (HostIdStorage (FileSystem × S)))
      → ((c : HostIdStorage (FileSystem × S)) → custom ≡ some c → IsStorage c)
      → IsStorage (host_id_storage custom)
  unfolding host_id_storage
  host_id_storage-IsStorage none keeps = file_system_storage-IsStorage
  host_id_storage-IsStorage (some c) keeps = keeps c refl
