-- ===== src/Tests/Metadata.antt =====
-- A metadata plugin (metadata/metadata.go) and the loop that posts (command/metadata.go), on
-- concrete results.
use mathlib.Core.List.{Memᴰ}
use mackerel_agent.Prelude.{
  ◌+◌, ◌≤◌, String, ◌≡◌, refl, sym, true, false, Option, none, some, [], ◌∷◌, Dict, lookup, insert,
  total, str_eq, eq_refl, if◌then◌else◌, ok, ap,
}
use mackerel_agent.Prelude.Int.{pos}
use mackerel_agent.Mackerel.{ApiError, is_server_error}
use mackerel_agent.Metadata.{Json, Generator, exited, writes, write_failed, fetch, is_changed, save}
use mackerel_agent.Metadata.Cache.{save-restarted}
use mackerel_agent.Command.Metadata.{
  MetadataResult, Posted, consume_results, put_results, each_round,
}
use mackerel_agent.Command.Metadata.Newest.{consume_results-newest}
use mackerel_agent.Command.Metadata.Handled.{
  failed_posts, put_results-again, put_results_sends_other, named, first_forgets, refused_post,
  put_results-named, same_unsent,
}

-- JSON values that are written as themselves, and "null".
abbrev of_null : Option String → String
of_null none = "null"
of_null (some s) = s

abbrev json : Json String
json = record {
  decode = λ s. some (if str_eq s "null" then none else some s);
  encode = λ m. some (of_null m);
  equal = str_eq;
}

abbrev generator : Generator String
generator = record {
  name = "os";
  config = record {
    command = record { cmd = "os"; args = []; user = ""; env = []; timeout_duration = pos 0 };
    execution_interval = none;
  };
  cachefile = "/tmp/os";
  prev_metadata = none;
}

decoded : (contents : String) → "7" ≡ contents → json.decode contents ≡ some (some "7")
decoded contents h = ap json.decode (sym h)

saved : (save json writes (some "7") [] generator).1 ≡ ok (("/tmp/os", "7") ∷ [])
unfolding save insert
saved = refl

decode_encode :
    (contents : String)
    → json.encode (some "7") ≡ some contents
    → json.decode contents ≡ some (some "7")
decode_encode contents h = decoded contents (cc h)

save-restarted_example : (is_changed json (("/tmp/os", "7") ∷ []) (some "7") generator).0 ≡ false
save-restarted_example =
    save-restarted json eq_refl writes (some "7") [] (("/tmp/os", "7") ∷ []) generator generator
      decode_encode saved refl refl

fetched : fetch json (exited "7" (pos 0)) ≡ ok (some "7")
unfolding fetch
fetched = refl

same_unsent_example :
    (each_round json writes 2
      (exited "7" (pos 0))
      []
      (each_round json write_failed 1 (exited "7" (pos 0)) [] generator).generator).sent
    ≡ none
same_unsent_example =
    same_unsent json eq_refl write_failed writes 1 2 (exited "7" (pos 0)) "7" [] [] generator
      fetched

abbrev older : MetadataResult String
older = record { namespace = "os"; metadata = some "6"; created_at = 10 }

abbrev newer : MetadataResult String
newer = record { namespace = "os"; metadata = some "7"; created_at = 20 }

abbrev other : MetadataResult String
other = record { namespace = "disk"; metadata = some "8"; created_at = 15 }

consume_results-newest_example :
    (r' : MetadataResult String) × (lookup "os" (consume_results [] (newer ∷ other ∷ older ∷ []))
      ≡ some r')
    × Memᴰ r' (newer ∷ other ∷ older ∷ [])
    × (r'.namespace ≡ "os")
    × (10 ≤ r'.created_at)
consume_results-newest_example =
    consume_results-newest (newer ∷ other ∷ older ∷ []) older
      (Memᴰ.tail (Memᴰ.tail (Memᴰ.head refl)))

-- A server that fails for "os" and refuses "disk".
abbrev put : MetadataResult String → Option ApiError
put r =
    if str_eq r.namespace "os" then some (ApiError.api_error 503) else some (ApiError.api_error 400)

abbrev put_one : MetadataResult String → Option ApiError
put_one r = if str_eq r.namespace "os" then some (ApiError.api_error 503) else none

abbrev posted : Posted String
posted = record {
  generators =
      record generator { prev_metadata = some "7" }
      ∷ record generator { name = "disk"; prev_metadata = some "8" }
      ∷ [];
  files = [];
  again = [];
}

abbrev results : Dict (MetadataResult String)
results = ("os", newer) ∷ ("disk", other) ∷ []

put_results-again_example :
    total (λ r. r.created_at) (put_results true put (λ r. 0) results posted).again
    ≡ failed_posts put (λ r. r.created_at) results + total (λ r. r.created_at) posted.again
put_results-again_example = put_results-again true put (λ r. r.created_at) results posted

put_results-named_example :
    named "disk" (put_results true put (λ r. 0) results posted).generators ≡ (
      if refused_post put "disk" results
      then first_forgets (named "disk" posted.generators)
      else named "disk" posted.generators)
put_results-named_example = put_results-named true put (λ r. 0) results posted "disk"

server_error_503 : is_server_error (ApiError.api_error 503) ≡ true
unfolding is_server_error
server_error_503 = refl

put_results_sends_other_example :
    put_results true put_one (λ r. 1) (("os", newer) ∷ ("disk", other) ∷ []) posted
    ≡ record posted { again = other ∷ posted.again }
put_results_sends_other_example =
    put_results_sends_other true put_one (ApiError.api_error 503) (λ r. 1) newer other "os" "disk"
      posted refl server_error_503 refl refl
