-- ===== src/Config/HostId.antt =====
-- The storage of the host id in a file (config/config.go): `FileSystemHostIDStorage`. The file
-- system is what its files hold, and which writes it refuses.
use mackerel_agent.Prelude.{
  String, Bool, ◌||◌, none, some, Dict, lookup, insert, erase, lookup-insert, lookup-erase, eq_refl,
  is_nil, trim_right, ◌==◌, if◌then◌else◌, Result, ok, err, ◌≡◌, arith,
}

-- `writable path` tells whether the directory of `path` can be made and the file written.
pub record FileSystem : Type 0 where
  pub files : Dict String
  pub writable : String → Bool

pub data HostIdError : Type 0 where
  no_file empty_file not_written not_removed : HostIdError

abbrev pub without_newlines : String → String
without_newlines id = trim_right (λ c. c == 13 || c == 10) id

-- `join` is the library's `filepath.Join`.
module _ (join : String → String → String) where
  unfoldable pub host_id_file : String → String
  host_id_file root = join root "id"

  -- (s FileSystemHostIDStorage) LoadHostID
  unfoldable pub load_host_id : String → FileSystem → Result HostIdError String
  unfolding host_id_file
  load_host_id root fs = elim (lookup (host_id_file root) fs.files) [
    | none ↦ err no_file
    | some content ↦
        let host_id = trim_right (λ c. c == 13 || c == 10) content in
        if is_nil host_id then err empty_file else ok host_id
  ]

  -- (s FileSystemHostIDStorage) SaveHostID
  unfoldable pub save_host_id : String → String → FileSystem → Result HostIdError FileSystem
  unfolding host_id_file
  save_host_id root id fs =
      if fs.writable (host_id_file root)
      then ok (record fs { files = insert (host_id_file root) id fs.files })
      else err not_written

  -- (s FileSystemHostIDStorage) DeleteSavedHostID
  unfoldable pub delete_saved_host_id : String → FileSystem → Result HostIdError FileSystem
  unfolding host_id_file
  delete_saved_host_id root fs = elim (lookup (host_id_file root) fs.files) [
    | none ↦ err not_removed
    | some content ↦ ok (record fs { files = erase (host_id_file root) fs.files })
  ]

  -- A saved host id is loaded back without the newlines at its end, and an id that is nothing but
  -- newlines is refused.
  pub load-save_host_id :
      (root id : String) (fs fs' : FileSystem)
      → save_host_id root id fs ≡ ok fs'
      → load_host_id root fs'
        ≡ (if is_nil (without_newlines id) then err empty_file else ok (without_newlines id))
  unfolding save_host_id load_host_id
  load-save_host_id root id fs fs' h = ground (
    arith,
    lookup-insert (host_id_file root) (host_id_file root) id fs.files,
    eq_refl (host_id_file root),
  )

  -- After a host id is deleted there is none to load.
  pub load-delete_saved_host_id :
      (root : String) (fs fs' : FileSystem)
      → delete_saved_host_id root fs ≡ ok fs'
      → load_host_id root fs' ≡ err no_file
  unfolding delete_saved_host_id load_host_id
  load-delete_saved_host_id root fs fs' h = ground (
    arith,
    lookup-erase (host_id_file root) (host_id_file root) fs.files,
    eq_refl (host_id_file root),
  )
