-- ===== src/Command/Metadata.antt =====
-- The metadata loops of command/metadata.go: each plugin runs in a goroutine of its own
-- (`runEachMetadataLoop`) and sends what has changed to the loop that posts it
-- (`runMetadataLoop`).
pub mod Newest
pub mod Handled
use mackerel_agent.Prelude.{
  String, ℕ, zero, suc, Bool, true, false, Option, none, some, List, [], ◌∷◌, ◌++◌, Dict, lookup,
  insert, cut_prefix, append, is_nil, ltb, str_eq, if◌then◌else◌, Result, ok, err,
}
use mackerel_agent.Config.{MetadataPlugin}
use mackerel_agent.Mackerel.{ApiError, is_server_error}
use mackerel_agent.Metadata.{
  Json, Generator, Output, FetchError, Disk, fetch, is_changed, save, clear,
}

-- lookupPluginWorkDir
unfoldable pub lookup_plugin_work_dir : List String → String
lookup_plugin_work_dir [] = ""
lookup_plugin_work_dir (e ∷ env) = elim (cut_prefix "MACKEREL_PLUGIN_WORKDIR=" e) [
  | none ↦ lookup_plugin_work_dir env
  | some dir ↦ dir
]

module _ (join : String → String → String) where
  -- getCacheFileName
  unfoldable pub cache_file_name : String → String → MetadataPlugin → String
  unfolding lookup_plugin_work_dir
  cache_file_name name default_work_dir plugin =
      let dir = lookup_plugin_work_dir plugin.command.env in
      if is_nil dir
      then join default_work_dir name
      else join dir (append "mackerel-plugin-metadata-" name)

  -- The loop of metadataGenerators, in the order of a `range`.
  unfoldable pub each_metadata_generator :
      {J : Type 0} → String → Dict MetadataPlugin → List (Generator J)
  unfolding cache_file_name
  each_metadata_generator workdir [] = []
  each_metadata_generator workdir ((name, plugin) ∷ plugins) =
      record {
        name = name;
        config = plugin;
        cachefile = cache_file_name name workdir plugin;
        prev_metadata = none;
      }
      ∷ each_metadata_generator workdir plugins

  -- metadataGenerators, below the directory that pluginutil gives.
  unfoldable pub metadata_generators :
      {J : Type 0} → String → Dict MetadataPlugin → List (Generator J)
  unfolding each_metadata_generator
  metadata_generators plugin_work_dir plugins =
      each_metadata_generator (join plugin_work_dir "mackerel-metadata") plugins

pub record MetadataResult (J : Type 0) : Type 0 where
  pub namespace : String
  pub metadata : Option J
  pub created_at : ℕ

-- A goroutine's generator, the files, and what the goroutine sends, if anything.
pub record EachRan (J : Type 0) : Type 0 where
  pub generator : Generator J
  pub files : Dict String
  pub sent : Option (MetadataResult J)

module _ {J : Type 0} (json : Json J) where
  -- From `Save` on.
  unfoldable pub save_and_send : Disk → ℕ → Option J → Dict String → Generator J → EachRan J
  unfolding save
  save_and_send disk now metadata files g =
      let (g', r) = save json disk metadata files g in
      elim r [
        | err e ↦ record { generator = g'; files = files; sent = none }
        | ok files' ↦ record {
          generator = g';
          files = files';
          sent = some (record { namespace = g'.name; metadata = metadata; created_at = now });
        }
      ]

  -- One round of runEachMetadataLoop, after its timer.
  unfoldable pub each_round : Disk → ℕ → Output → Dict String → Generator J → EachRan J
  unfolding is_changed save_and_send
  each_round disk now output files g = elim (fetch json output) [
    | err e ↦ record { generator = g; files = files; sent = none }
    | ok metadata ↦
        let (changed, g') = is_changed json files metadata g in
        let saved = save_and_send disk now metadata files g' in
        if changed then saved else record { generator = g'; files = files; sent = none }
  ]

module _ {J : Type 0} where
  -- One `case result := <-resultCh`.
  unfoldable pub prefer_new : Dict (MetadataResult J) → MetadataResult J → Dict (MetadataResult J)
  prefer_new results result = elim (lookup result.namespace results) [
    | some prev ↦
        if ltb prev.created_at result.created_at
        then insert result.namespace result results
        else results
    | none ↦ insert result.namespace result results
  ]

  -- The loop at `ConsumeResults`, for the results that wait in the order of the list.
  unfoldable pub consume_results :
      Dict (MetadataResult J) → List (MetadataResult J) → Dict (MetadataResult J)
  consume_results results [] = results
  consume_results results (r ∷ rs) = consume_results (prefer_new results r) rs

  -- clearMetadataCache, where the removals of files succeed if `removes`.
  unfoldable pub clear_metadata_cache :
      Bool → String → List (Generator J) × Dict String → List (Generator J) × Dict String
  unfolding clear
  clear_metadata_cache removes namespace ([], files) = ([], files)
  clear_metadata_cache removes namespace (g ∷ gs, files) =
      let (gs', files') = clear_metadata_cache removes namespace (gs, files) in
      if str_eq g.name namespace
      then ((clear removes files g).0 ∷ gs, (clear removes files g).1)
      else (g ∷ gs', files')

-- The generators, the files, and the results that goroutines send again.
pub record Posted (J : Type 0) : Type 0 where
  pub generators : List (Generator J)
  pub files : Dict String
  pub again : List (MetadataResult J)

module _ {J : Type 0} where
  -- What a goroutine reads from the variable `result` of the loop, which all iterations share (the
  -- module is one of Go 1.12), when the loop has gone on by `lag` iterations before it reads.
  unfoldable pub captured : ℕ → MetadataResult J → Dict (MetadataResult J) → MetadataResult J
  captured zero result rest = result
  captured (suc lag) result [] = result
  captured (suc lag) result ((n, next) ∷ rest) = captured lag next rest

  -- What is done when the API has answered the post of a result, with an error if there is one.
  -- `read` is what the goroutine that sends again reads.
  unfoldable pub on_put :
      Bool → Option ApiError → MetadataResult J → MetadataResult J → Posted J → Posted J
  unfolding clear_metadata_cache
  on_put removes none result read p = p
  on_put removes (some e) result read p =
      if is_server_error e
      then record p { again = read ∷ p.again }
      else (let (gs, files) =
            clear_metadata_cache removes result.namespace (p.generators, p.files) in
          record p { generators = gs; files = files })

  -- The `range` over the results, in the order of the list. `put` is the API: its answer to each
  -- post. `lag` is the scheduler: how late the goroutine reads that sends a result again.
  unfoldable pub put_results :
      Bool
      → (MetadataResult J → Option ApiError)
      → (MetadataResult J → ℕ)
      → Dict (MetadataResult J)
      → Posted J
      → Posted J
  unfolding on_put captured
  put_results removes put lag [] p = p
  put_results removes put lag ((n, r) ∷ results) p =
      put_results removes put lag results (on_put removes (put r) r (captured (lag r) r results) p)

  -- One round of runMetadataLoop, for the results that wait on `resultCh`.
  unfoldable pub metadata_round :
      Bool
      → (MetadataResult J → Option ApiError)
      → (MetadataResult J → ℕ)
      → List (MetadataResult J)
      → Posted J
      → Posted J
  unfolding consume_results put_results
  metadata_round removes put lag waiting p =
      put_results removes put lag (consume_results [] waiting) p
