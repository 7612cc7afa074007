-- ===== src/Command/Metadata/Handled.antt =====
-- What becomes of the results that `runMetadataLoop` of command/metadata.go posts.
use mackerel_agent.Prelude.{
  String, ℕ, ◌+◌, Bool, true, false, not, ◌||◌, ◌&&◌, Option, none, some, List, [], ◌∷◌, Dict,
  total, str_eq, if◌then◌else◌, ◌≡◌, refl, arith, eq_iff, ok,
}
use mackerel_agent.Mackerel.{ApiError, is_server_error}
use mackerel_agent.Metadata.{
  Generator, clear, Json, Disk, Output, fetch, deep_equal, is_changed, save,
}
use mackerel_agent.Metadata.Cache.{deep_equal_refl}
use mackerel_agent.Command.Metadata.{
  MetadataResult, Posted, captured, on_put, put_results, clear_metadata_cache, each_round,
  save_and_send,
}

-- Whether the answer to a post is a server error.
abbrev pub retried : Option ApiError → Bool
retried none = false
retried (some e) = is_server_error e

-- Whether it is another error.
abbrev pub refused : Option ApiError → Bool
refused none = false
refused (some e) = not (is_server_error e)

module _ {J : Type 0} where
  -- The posts of a round that met a server error.
  abbrev pub failed_posts :
      (MetadataResult J → Option ApiError) → (MetadataResult J → ℕ) → Dict (MetadataResult J) → ℕ
  failed_posts put w [] = 0
  failed_posts put w ((n, r) ∷ results) =
      (if retried (put r) then w r else 0) + failed_posts put w results

  on_put-again :
      (removes : Bool) (a : Option ApiError) (r read : MetadataResult J) (p : Posted J)
      (w : MetadataResult J → ℕ)
      → total w (on_put removes a r read p).again
        ≡ (if retried a then w read else 0) + total w p.again
  unfolding on_put
  on_put-again removes none r read p w = omega arith
  on_put-again removes (some e) r read p w = ground arith

  -- If every goroutine reads the variable `result` before the loop goes on, the results that are sent
  -- again after a round are those from before and those whose post met a server error, as often as
  -- they did: no other result is sent again, whatever their order.
  pub put_results-again :
      (removes : Bool) (put : MetadataResult J → Option ApiError) (w : MetadataResult J → ℕ)
      (results : Dict (MetadataResult J)) (p : Posted J)
      → total w (put_results removes put (λ r. 0) results p).again
        ≡ failed_posts put w results + total w p.again
  unfolding put_results captured
  put_results-again removes put w [] p = omega arith
  put_results-again removes put w ((n, r) ∷ results) p =
      grind (arith, put_results-again removes put w results, on_put-again removes (put r) r r p w)

  -- If the post of the first of two results meets a server error and the goroutine reads the variable
  -- `result` when the loop has gone on, the second one is sent again, which the server has accepted,
  -- and the first one is not.
  pub put_results_sends_other :
      (removes : Bool) (put : MetadataResult J → Option ApiError) (e : ApiError)
      (lag : MetadataResult J → ℕ) (first second : MetadataResult J) (m n : String) (p : Posted J)
      → put first ≡ some e
      → is_server_error e ≡ true
      → put second ≡ none
      → lag first ≡ 1
      → put_results removes put lag ((m, first) ∷ (n, second) ∷ []) p
        ≡ record p { again = second ∷ p.again }
  unfolding put_results on_put captured
  put_results_sends_other removes put e lag first second m n p f s a l = ground arith

  -- The generators of a name, in order.
  abbrev pub named : String → List (Generator J) → List (Generator J)
  named name [] = []
  named name (g ∷ gs) = let rest = named name gs in if str_eq g.name name then g ∷ rest else rest

  -- The first of some generators has nothing in memory.
  abbrev pub first_forgets : List (Generator J) → List (Generator J)
  first_forgets [] = []
  first_forgets (g ∷ gs) = record g { prev_metadata = none } ∷ gs

  first_forgets-twice :
      (gs : List (Generator J)) → first_forgets (first_forgets gs) ≡ first_forgets gs
  first_forgets-twice [] = refl
  first_forgets-twice (g ∷ gs) = refl

  clear-named :
      (removes : Bool) (name other : String) (gs : List (Generator J)) (files : Dict String)
      → named other (clear_metadata_cache removes name (gs, files)).0
        ≡ (if str_eq name other then first_forgets (named other gs) else named other gs)
  unfolding clear_metadata_cache clear
  clear-named removes name other [] files = ground arith
  clear-named removes name other (g ∷ gs) files = ground (
    arith,
    clear-named removes name other gs files,
    eq_iff g.name name,
    eq_iff g.name other,
    eq_iff name other,
  )

  -- Whether a post of the namespace was refused in a round.
  abbrev pub refused_post :
      (MetadataResult J → Option ApiError) → String → Dict (MetadataResult J) → Bool
  refused_post put name [] = false
  refused_post put name ((n, r) ∷ results) =
      (refused (put r) && str_eq r.namespace name) || refused_post put name results

  on_put-named :
      (removes : Bool) (a : Option ApiError) (r read : MetadataResult J) (p : Posted J)
      (name : String)
      → named name (on_put removes a r read p).generators ≡ (
          if refused a && str_eq r.namespace name
          then first_forgets (named name p.generators)
          else named name p.generators)
  unfolding on_put
  on_put-named removes none r read p name = refl
  on_put-named removes (some e) r read p name =
      ground (arith, clear-named removes r.namespace name p.generators p.files)

  -- Of the generators of a name: if the server refused metadata of the name with another error than
  -- its own, the first one forgets what it has in memory, and no other changes; if not, none changes.
  pub put_results-named :
      (removes : Bool) (put : MetadataResult J → Option ApiError) (lag : MetadataResult J → ℕ)
      (results : Dict (MetadataResult J)) (p : Posted J) (name : String)
      → named name (put_results removes put lag results p).generators ≡ (
          if refused_post put name results
          then first_forgets (named name p.generators)
          else named name p.generators)
  unfolding put_results
  put_results-named removes put lag [] p name = refl
  put_results-named removes put lag ((n, r) ∷ results) p name = ground (
    arith,
    put_results-named removes put lag results
        (on_put removes (put r) r (captured (lag r) r results) p) name,
    on_put-named removes (put r) r (captured (lag r) r results) p name,
    first_forgets-twice (named name p.generators),
  )

module _ {J : Type 0} (json : Json J) (refl_equal : (a : J) → json.equal a a ≡ true) where
  save_and_send-remembers :
      (disk : Disk) (now : ℕ) (m : Option J) (files : Dict String) (g : Generator J)
      → (save_and_send json disk now m files g).generator.prev_metadata ≡ m
  unfolding save_and_send save
  save_and_send-remembers disk now m files g = ground arith

  not_changed :
      (files : Dict String) (m : J) (g : Generator J)
      → deep_equal json g.prev_metadata (some m) ≡ true
      → (is_changed json files (some m) g).0 ≡ false
  unfolding is_changed deep_equal
  not_changed files m g h = ground arith

  loaded_equal :
      (files : Dict String) (m : Option J) (g : Generator J)
      → (is_changed json files m g).0 ≡ false
      → deep_equal json (is_changed json files m g).1.prev_metadata m ≡ true
  unfolding is_changed
  loaded_equal files m g h = ground arith

  round-remembers :
      (disk : Disk) (now : ℕ) (output : Output) (m : Option J) (files : Dict String)
      (g : Generator J)
      → fetch json output ≡ ok m
      → deep_equal json (each_round json disk now output files g).generator.prev_metadata m ≡ true
  unfolding each_round
  round-remembers disk now output m files g f = ground (
    arith,
    loaded_equal files m g,
    deep_equal_refl json refl_equal m,
    save_and_send-remembers disk now m files (is_changed json files m g).1,
  )

  unchanged-unsent :
      (disk : Disk) (now : ℕ) (output : Output) (m : Option J) (files : Dict String)
      (g : Generator J)
      → fetch json output ≡ ok m
      → (is_changed json files m g).0 ≡ false
      → (each_round json disk now output files g).sent ≡ none
  unfolding each_round
  unchanged-unsent disk now output m files g f c = ground arith

  -- After a round that fetches metadata that is not null, whether it sends it, takes it as unchanged or
  -- fails to save it, a later round of the generator, as that round left it, that fetches the same
  -- sends nothing, whatever the files hold by then: metadata that could not be saved is not sent when
  -- the file system has recovered.
  pub same_unsent :
      (disk disk' : Disk) (now later : ℕ) (output : Output) (m : J) (files files' : Dict String)
      (g : Generator J)
      → fetch json output ≡ ok (some m)
      → (each_round json disk' later output files'
          (each_round json disk now output files g).generator).sent
        ≡ none
  same_unsent disk disk' now later output m files files' g f =
      unchanged-unsent disk' later output (some m) files'
        (each_round json disk now output files g).generator f
        (not_changed files' m (each_round json disk now output files g).generator
          (round-remembers disk now output (some m) files g f))
