-- ===== src/Main/Init/Kept.antt =====
-- What the command `init` (do_init.go) does to the configuration file.
use mackerel_agent.Prelude.{
  Result, Result-cases, Bool-cases, refl, true, String, ℕ, append, Bool, false, ◌≡◌, ◌⊎◌, Option,
  none, some, Dict, lookup, insert, is_nil, arith, inl, inr, Option-cases, ok, err,
}
use text.Mathlib.TextLemmas.{append-nil}
use mackerel_agent.Config.{Config}
use mackerel_agent.Config.Load.{Loader, load_config}
use mackerel_agent.Main.Init.{
  apikey_line, InitDisk, write_file, prepend_apikey, do_initialize, do_init, InitError, make_dir,
}

-- The content of a file, which is empty where there is none.
abbrev pub text_of : Option String → String
text_of none = ""
text_of (some content) = content

module _ {Re : Type 0} (load : Dict String → Loader Re) (is_print : ℕ → Bool)
    (conffile : String) where
  -- The configuration file exists, is valid and has an API key, or lacks one.
  abbrev pub IsValid : Bool → Dict String → Type 0
  IsValid lacks files =
      (content : String) × (conf : Config Re) × (lookup conffile files ≡ some content)
      × (load_config (load files) conffile ≡ ok conf)
      × (is_nil conf.apikey ≡ lacks)

  abbrev pub HasApikey : Dict String → Type 0
  HasApikey = IsValid false

  -- There is no configuration file, or a valid one that lacks an API key.
  abbrev pub WantsApikey : Dict String → Type 0
  WantsApikey files = (lookup conffile files ≡ none) ⊎ IsValid true files

  -- The files with the API key written before what the configuration file has.
  abbrev pub with_apikey : String → Dict String → Dict String
  with_apikey apikey files =
      insert conffile (append (apikey_line is_print apikey) (text_of (lookup conffile files))) files

  -- What the command has done, by its result. A failure has a reason other than an API key that is
  -- set already.
  abbrev pub InitEnds : String → InitDisk → Result InitError (Dict String) → Type 0
  InitEnds apikey disk (ok files) =
      (is_nil apikey ≡ false)
      × (((files ≡ disk.files) × HasApikey disk.files)
          ⊎ ((files ≡ with_apikey apikey disk.files) × WantsApikey disk.files))
  InitEnds apikey disk (err e) =
      (is_nil apikey ≡ true) ⊎ (make_dir disk ≡ false) ⊎ ¬ (HasApikey disk.files)

  module _ (apikey : String) (disk : InitDisk) (files : Dict String) where
    prepend_apikey_lem :
        (content : String)
        → lookup conffile disk.files ≡ some content
        → prepend_apikey load is_print conffile apikey disk content ≡ ok files
        → (files ≡ with_apikey apikey disk.files) × WantsApikey disk.files
    unfolding prepend_apikey write_file
    prepend_apikey_lem content l h = elim (Result-cases (load_config (load disk.files) conffile)) [
      | inl (conf, c) ↦ (ground arith, inr (content, conf, l, c, ground arith))
      | inr (e, c) ↦ ground arith
    ]

    prepend_apikey-already_set :
        (content : String)
        → lookup conffile disk.files ≡ some content
        → prepend_apikey load is_print conffile apikey disk content
          ≡ err InitError.apikey_already_set
        → HasApikey disk.files
    unfolding prepend_apikey write_file
    prepend_apikey-already_set content l h =
        elim (Result-cases (load_config (load disk.files) conffile)) [
          | inl (conf, c) ↦ (content, conf, l, c, ground arith)
          | inr (e, c) ↦ ground arith
        ]

    do_initialize-written :
        do_initialize load is_print conffile apikey disk ≡ ok files
        → (files ≡ with_apikey apikey disk.files) × WantsApikey disk.files
    unfolding do_initialize write_file
    do_initialize-written h = elim (Option-cases (lookup conffile disk.files)) [
      | inl none_eq ↦ (ground (arith, append-nil (apikey_line is_print apikey)), inl none_eq)
      | inr (content, some_eq) ↦ prepend_apikey_lem content some_eq (ground arith)
    ]

    do_initialize-already_set :
        do_initialize load is_print conffile apikey disk ≡ err InitError.apikey_already_set
        → HasApikey disk.files
    unfolding do_initialize write_file
    do_initialize-already_set h = elim (Option-cases (lookup conffile disk.files)) [
      | inl none_eq ↦ ground arith
      | inr (content, some_eq) ↦ prepend_apikey-already_set content some_eq (ground arith)
    ]

    do_initialize-named :
        (r : Result InitError (Dict String))
        → do_initialize load is_print conffile apikey disk ≡ r
        → (r ≡ ok files) ⊎ (r ≡ err InitError.apikey_already_set)
        → is_nil apikey ≡ false
    unfolding do_initialize
    do_initialize-named r h o = elim (Bool-cases (is_nil apikey)) [
      | inl unnamed ↦ ground arith
      | inr named ↦ named
    ]

    ok-InitEnds :
        do_init load is_print conffile apikey disk ≡ ok files → InitEnds apikey disk (ok files)
    unfolding do_init
    ok-InitEnds h = elim (Result-cases (do_initialize load is_print conffile apikey disk)) [
      | inl (files', e) ↦ (
        do_initialize-named (ok files) (ground arith) (inl refl),
        inr (do_initialize-written (ground arith)),
      )
      | inr (failed, e) ↦ (
        do_initialize-named (err InitError.apikey_already_set) (ground arith) (inr refl),
        inl (ground arith, do_initialize-already_set (ground arith)),
      )
    ]

  set-do_init :
      (apikey : String) (disk : InitDisk)
      → is_nil apikey ≡ false
      → make_dir disk ≡ true
      → HasApikey disk.files
      → do_init load is_print conffile apikey disk ≡ ok disk.files
  unfolding do_init do_initialize prepend_apikey
  set-do_init apikey disk named there (content, conf, l, c, k) = ground arith

  err-InitEnds :
      (apikey : String) (disk : InitDisk) (e : InitError)
      → do_init load is_print conffile apikey disk ≡ err e
      → InitEnds apikey disk (err e)
  err-InitEnds apikey disk e h = elim (Bool-cases (is_nil apikey)) [
    | inl unnamed ↦ inl unnamed
    | inr named ↦ elim (Bool-cases (make_dir disk)) [
      | inl there ↦ inr (inr (λ set. ground (arith, set-do_init apikey disk named there set)))
      | inr missing ↦ inr (inl missing)
    ]
  ]

  -- When the command returns no error, the option -apikey was given, and a configuration file that is
  -- valid and has an API key is as it was; or there was no file, or a valid one that lacks an API key,
  -- and the API key is written before what the file has, all other files being as before. The command
  -- fails only where the option is missing, the directory is not there and cannot be made, or there is
  -- no valid file with an API key.
  pub do_init_lem :
      (apikey : String) (disk : InitDisk)
      → InitEnds apikey disk (do_init load is_print conffile apikey disk)
  do_init_lem apikey disk = elim (Result-cases (do_init load is_print conffile apikey disk)) [
    | inl (files, e) ↦ rw e (ok-InitEnds apikey disk files e)
    | inr (x, e) ↦ rw e (err-InitEnds apikey disk x e)
  ]
