-- ===== src/Metadata.antt =====
-- The package metadata (metadata/metadata.go): the generator of a metadata plugin, with the cache of
-- what it generated last, in memory and in a file. `J` is the type of the JSON values other than
-- null; a Go `interface{}` that holds a decoded value is an `Option J`, where `none` is nil.
pub mod Cache
use mackerel_agent.Prelude.{
  String, ℕ, ◌*◌, Bool, true, false, not, Option, none, some, Dict, lookup, insert, erase, is_nil,
  ◌==◌, if◌then◌else◌, Result, ok, err,
}
use mackerel_agent.Prelude.Int.{ℤ, pos, negsuc, ltb_ℤ, scale, wrap_int64}
use mackerel_agent.Config.{MetadataPlugin}
use mackerel_agent.Checks.{minute}

-- encoding/json: `decode` fails on a text that is not JSON. reflect.DeepEqual on two values that are
-- not null.
pub record Json (J : Type 0) : Type 0 where
  pub decode : String → Option (Option J)
  pub encode : Option J → Option String
  pub equal : J → J → Bool

pub record Generator (J : Type 0) : Type 0 where
  pub name : String
  pub config : MetadataPlugin
  pub cachefile : String
  pub prev_metadata : Option J

pub data FetchError : Type 0 where
  not_run exits_with invalid_json : FetchError

-- What `Command.Run()` returns: the standard output and the exit code, or an error.
pub data Output : Type 0 where
  exited : String → ℤ → Output
  failed : Output

-- How the file system takes the write of the cache file: what `os.MkdirAll` and
-- `writeFileAtomically` meet.
pub data Disk : Type 0 where
  mkdir_failed temp_failed write_failed rename_failed writes : Disk

pub data SaveError : Type 0 where
  not_marshaled no_cachefile not_made not_written : SaveError

-- writeFileAtomically: the temporary file is gone in every case.
unfoldable pub write_file_atomically :
    Disk → String → String → Dict String → Result SaveError (Dict String)
write_file_atomically writes f contents files = ok (insert f contents files)
write_file_atomically _ f contents files = err not_written

unfoldable pub save_file : Disk → String → String → Dict String → Result SaveError (Dict String)
unfolding write_file_atomically
save_file disk f contents files = if is_nil f then err no_cachefile else elim disk [
  | mkdir_failed ↦ err not_made
  | temp_failed ↦ write_file_atomically temp_failed f contents files
  | write_failed ↦ write_file_atomically write_failed f contents files
  | rename_failed ↦ write_file_atomically rename_failed f contents files
  | writes ↦ write_file_atomically writes f contents files
]

module _ {J : Type 0} (json : Json J) where
  -- Fetch
  unfoldable pub fetch : Output → Result FetchError (Option J)
  fetch failed = err not_run
  fetch (exited message (negsuc n)) = err exits_with
  fetch (exited message (pos n)) =
      if n == 0
      then elim (json.decode message) [ none ↦ err invalid_json | some metadata ↦ ok metadata ]
      else err exits_with

  unfoldable pub deep_equal : Option J → Option J → Bool
  deep_equal none none = true
  deep_equal none (some b) = false
  deep_equal (some a) none = false
  deep_equal (some a) (some b) = json.equal a b

  -- LoadFromFile, where `files` are the files of the disk with their contents.
  unfoldable pub load_from_file : Dict String → Generator J → Generator J
  load_from_file files g = elim (lookup g.cachefile files) [
    | none ↦ g
    | some contents ↦ elim (json.decode contents) [
      | none ↦ g
      | some metadata ↦ record g { prev_metadata = metadata }
    ]
  ]

  -- The test of IsChanged, and what it loads.
  unfoldable pub loaded : Dict String → Generator J → Generator J
  unfolding load_from_file
  loaded files g = elim g.prev_metadata [ none ↦ load_from_file files g | some p ↦ g ]

  -- IsChanged: the answer, and the generator after it.
  unfoldable pub is_changed : Dict String → Option J → Generator J → Bool × Generator J
  unfolding loaded deep_equal
  is_changed files metadata g =
      let g' = loaded files g in (not (deep_equal g'.prev_metadata metadata), g')

  -- Save: the generator after it, and the files or the error.
  unfoldable pub save :
      Disk → Option J → Dict String → Generator J → Generator J × Result SaveError (Dict String)
  unfolding save_file
  save disk metadata files g =
      let g' : Generator J = record g { prev_metadata = metadata } in
      elim (json.encode metadata) [
        | none ↦ (g', err not_marshaled)
        | some contents ↦ (g', save_file disk g'.cachefile contents files)
      ]

-- Clear, where the file is removed unless `os.Remove` fails.
unfoldable pub clear : {J : Type 0} → Bool → Dict String → Generator J → Generator J × Dict String
clear removes files g =
    (record g { prev_metadata = none }, if removes then erase g.cachefile files else files)

-- Ten minutes.
abbrev pub default_execution_interval : ℕ
default_execution_interval = 10 * minute

-- Interval: the product is that of int64 values.
unfoldable pub interval : {J : Type 0} → Generator J → ℤ
interval g = elim g.config.execution_interval [
  | none ↦ pos default_execution_interval
  | some n ↦
      let i = wrap_int64 (scale n minute) in
      if ltb_ℤ i (pos default_execution_interval) then pos default_execution_interval else i
]
