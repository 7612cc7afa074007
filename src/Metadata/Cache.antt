-- ===== src/Metadata/Cache.antt =====
-- What the cache of metadata/metadata.go keeps from being sent twice.
use mackerel_agent.Prelude.{
  String, true, false, Option, none, some, Dict, lookup, insert, ok, ◌≡◌, refl, arith,
  lookup-insert, lookup-erase, eq_refl, inl, inr, Option-cases,
}
use mackerel_agent.Metadata.{
  Json, Generator, Disk, deep_equal, load_from_file, is_changed, save_file, save, clear,
}

module _ {J : Type 0} (json : Json J) (refl_equal : (a : J) → json.equal a a ≡ true) where
  pub deep_equal_refl : (m : Option J) → deep_equal json m m ≡ true
  unfolding deep_equal
  deep_equal_refl none = refl
  deep_equal_refl (some a) = refl_equal a

  -- After `Save`, whether it fails or not, the generator takes the same metadata as unchanged, unless
  -- it is null.
  pub save-is_changed :
      (disk : Disk) (m : J) (files files' : Dict String) (g : Generator J)
      → (is_changed json files' (some m) ((save json disk (some m) files g).0)).0 ≡ false
  unfolding is_changed save
  save-is_changed disk m files files' g = ground (arith, refl_equal m)

  save_file-ok :
      (disk : Disk) (f contents : String) (files files' : Dict String)
      → save_file disk f contents files ≡ ok files'
      → files' ≡ insert f contents files
  unfolding save_file
  save_file-ok disk f contents files files' h = ground arith

  save-ok :
      (disk : Disk) (m : Option J) (files files' : Dict String) (g : Generator J)
      → (save json disk m files g).1 ≡ ok files'
      → (contents : String) × (json.encode m ≡ some contents)
        × (files' ≡ insert g.cachefile contents files)
  unfolding save
  save-ok disk m files files' g h = elim (Option-cases (json.encode m)) [
    | inl n ↦ absurd (ground arith)
    | inr (contents, e) ↦
        (contents, e, save_file-ok disk g.cachefile contents files files' (ground arith))
  ]

  load-found :
      (contents : String) (m : Option J) (files : Dict String) (g : Generator J)
      → json.decode contents ≡ some m
      → lookup g.cachefile files ≡ some contents
      → (load_from_file json files g).prev_metadata ≡ m
  unfolding load_from_file
  load-found contents m files g d l = ground arith

  -- `Save` and a new start: a generator that has nothing in memory and reads the file that a
  -- successful `Save` wrote takes the same metadata as unchanged, where decoding undoes encoding.
  pub save-restarted :
      (disk : Disk) (m : Option J) (files files' : Dict String) (g fresh : Generator J)
      → ((contents : String) → json.encode m ≡ some contents → json.decode contents ≡ some m)
      → (save json disk m files g).1 ≡ ok files'
      → fresh.cachefile ≡ g.cachefile
      → fresh.prev_metadata ≡ none
      → (is_changed json files' m fresh).0 ≡ false
  unfolding is_changed
  save-restarted disk m files files' g fresh round s c p =
      let (contents, e, f) = save-ok disk m files files' g s in
      let found : lookup fresh.cachefile files' ≡ some contents =
        ground (arith, lookup-insert g.cachefile g.cachefile contents files, eq_refl g.cachefile) in
      ground (arith, load-found contents m files' fresh (round contents e) found, deep_equal_refl m)

  -- After `Clear`, if the file could be removed, all metadata except null counts as changed.
  pub clear-is_changed :
      (m : J) (files : Dict String) (g : Generator J)
      → (is_changed json (clear true files g).1 (some m) ((clear true files g).0)).0 ≡ true
  unfolding is_changed clear
  clear-is_changed m files g =
      ground (arith, lookup-erase g.cachefile g.cachefile files, eq_refl g.cachefile)
