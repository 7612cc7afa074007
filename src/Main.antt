-- ===== src/Main.antt =====
-- The command `mackerel-agent` (main.go): the configuration from the command line and the file, and
-- the roles. `Re` is the type of a compiled regular expression.
pub mod Roles
pub mod Resolved
pub mod Init
pub mod Commands
use mackerel_agent.Prelude.{
  String, ℕ, ◌+◌, Bool, true, false, not, ◌&&◌, ◌||◌, Option, none, some, List, [], ◌∷◌, ◌++◌, code,
  ◌==◌, leb, is_nil, append, split, is_empty, if◌then◌else◌, Result, ok, err, ◌>>=◌,
}
use Prim.Native.String
use mackerel_agent.Config.{Config, ConfigError}
use mackerel_agent.Config.Load.{Loader, load_config}

-- The classes of roleFullnamePattern: [a-zA-Z0-9], [-_a-zA-Z0-9] and \s.
unfoldable pub is_alnum : ℕ → Bool
is_alnum c = leb b'a' c && leb c b'z' || leb b'A' c && leb c b'Z' || leb b'0' c && leb c b'9'

unfoldable pub is_word : ℕ → Bool
unfolding is_alnum
is_word c = c == b'-' || c == b'_' || is_alnum c

unfoldable pub is_blank : ℕ → Bool
is_blank c = c == 9 || c == 10 || c == 12 || c == 13 || c == 32

-- [-_a-zA-Z0-9]*$
unfoldable pub match_words : String → Bool
unfolding is_word
match_words String.[] = true
match_words (String.◌∷◌ c s) = is_word (code c) && match_words s

-- \s*[a-zA-Z0-9][-_a-zA-Z0-9]*$
unfoldable pub match_role : String → Bool
unfolding match_words is_blank
match_role String.[] = false
match_role (String.◌∷◌ c s) =
    let rest = match_role s in
    if is_blank (code c) then rest else is_alnum (code c) && match_words s

-- [-_a-zA-Z0-9]*:\s*[a-zA-Z0-9][-_a-zA-Z0-9]*$
unfoldable pub match_service : String → Bool
unfolding match_role
match_service String.[] = false
match_service (String.◌∷◌ c s) =
    let rest = match_service s in if code c == b':' then match_role s else is_word (code c) && rest

-- roleFullnamePattern.MatchString
unfoldable pub match_role_fullname : String → Bool
unfolding match_service
match_role_fullname String.[] = false
match_role_fullname (String.◌∷◌ c s) = is_alnum (code c) && match_service s

-- (r *roleFullnamesFlag) Set, for each -role option in turn.
unfoldable pub set_roles : List String → List String → List String
set_roles r [] = r
set_roles r (input ∷ inputs) = set_roles (r ++ split b',' input) inputs

-- The command line: an option that it does not set is `none`, and `role` holds the inputs of all
-- -role options.
pub record Flags : Type 0 where
  pub conf : String
  pub apibase : Option String
  pub apikey : Option String
  pub pidfile : Option String
  pub root : Option String
  pub diagnostic : Option Bool
  pub verbose : Option Bool
  pub role : List String
  pub child : Bool

abbrev pub flag_or {ℓ} : {A : Type ℓ} → Option A → A → A
flag_or none a = a
flag_or (some b) a = b

unfoldable pub good_roles : List String → List String
good_roles [] = []
good_roles (r ∷ rs) = let rest = good_roles rs in if match_role_fullname r then r ∷ rest else rest

-- fs.Visit, and what follows it up to the roles.
unfoldable pub overwrite : {Re : Type 0} → Flags → Config Re → Config Re
unfolding set_roles good_roles
overwrite flags conf = record conf {
  conffile = flags.conf;
  apibase = flag_or flags.apibase conf.apibase;
  apikey = flag_or flags.apikey conf.apikey;
  pidfile = if flags.child then "" else flag_or flags.pidfile conf.pidfile;
  root = flag_or flags.root conf.root;
  diagnostic = flag_or flags.diagnostic conf.diagnostic;
  verbose = flag_or flags.verbose conf.verbose;
  roles = good_roles (if is_empty flags.role then conf.roles else set_roles [] flags.role);
}

pub data ResolveError : Type 0 where
  not_loaded : ConfigError → ResolveError
  no_apikey : ResolveError

-- resolveConfig
unfoldable pub resolve_config : {Re : Type 0} → Loader Re → Flags → Result ResolveError (Config Re)
unfolding overwrite
resolve_config l flags = elim (load_config l flags.conf) [
  | err e ↦ err (not_loaded e)
  | ok loaded ↦
      let conf = overwrite flags loaded in if is_nil conf.apikey then err no_apikey else ok conf
]

-- GODEBUG after main, by what it was before.
unfoldable pub set_godebug : String → String
set_godebug godebug =
    append (if is_nil godebug then godebug else append godebug ",") "http2client=0"

pub data LogLevel : Type 0 where
  unset error_level debug_level : LogLevel

-- setLogLevel: the level it sets last, if any.
unfoldable pub set_log_level : Bool → Bool → LogLevel
set_log_level silent verbose =
    if verbose then debug_level else if silent then error_level else unset
