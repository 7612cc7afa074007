-- ===== src/Config/Commands.antt =====
-- The command of a plugin in the configuration file (config/config.go): `ConvertToStrings`,
-- `CommandConfig.parse`, and how a command is printed.
use mackerel_agent.Prelude.{
  String, append, Option, none, some, List, [], ◌∷◌, Dict, is_nil, has_char, trim, ◌==◌,
  if◌then◌else◌, Result, ok, err, ◌>>=◌, is_empty,
}
use mackerel_agent.Prelude.Int.{wrap_int64, scale}
use mackerel_agent.Config.{
  Item, text, other_item, Raw, raw_nil, raw_string, raw_items, raw_strings, raw_other,
  CommandConfig, Command, ConfigError, bad_command, bad_env,
}

-- (e Env) ConvertToStrings, for a `range` that visits the entries in the order of the list.
unfoldable pub convert_to_strings : Dict String → Result ConfigError (List String)
convert_to_strings [] = ok []
convert_to_strings ((k, v) ∷ env) = if has_char b'=' k then err (bad_env k) else (do
  rest ← convert_to_strings env
  let key = trim (λ c. c == b' ') k
  if is_nil key then ok rest else ok (append key (append "=" v) ∷ rest))

-- The arguments, unless one is not a string.
unfoldable pub item_strings : List Item → Option (List String)
item_strings [] = some []
item_strings (text s ∷ items) = elim (item_strings items) [
  | none ↦ none
  | some rest ↦ some (s ∷ rest)
]
item_strings (other_item ∷ items) = none

-- The type switch of `parse`: the command and its arguments, or nil.
unfoldable pub parse_raw : Raw → Result ConfigError (Option (String × List String))
unfolding item_strings
parse_raw raw_nil = ok none
parse_raw (raw_string s) = ok (some (s, []))
parse_raw (raw_items []) = err bad_command
parse_raw (raw_items (i ∷ items)) = elim (item_strings (i ∷ items)) [
  | none ↦ err bad_command
  | some args ↦ ok (some ("", args))
]
parse_raw (raw_strings args) = ok (some ("", args))
parse_raw raw_other = err bad_command

abbrev finish_parse :
    CommandConfig → Option (String × List String) → Result ConfigError (Option Command)
finish_parse cc none = ok none
finish_parse cc (some (cmd, args)) = do
  env ← convert_to_strings cc.env
  ok (
      some (record {
        cmd = cmd;
        args = args;
        user = cc.user;
        env = env;
        timeout_duration = wrap_int64 (scale cc.timeout_seconds 1000000000);
      }))

-- (cc CommandConfig) parse
unfoldable pub parse_command : CommandConfig → Result ConfigError (Option Command)
unfolding parse_raw convert_to_strings
parse_command cc = do c ← parse_raw cc.raw; finish_parse cc c

-- strings.Join(args, " ")
unfoldable pub join_spaces : List String → String
join_spaces [] = ""
join_spaces (a ∷ []) = a
join_spaces (a ∷ b ∷ rest) = append a (append " " (join_spaces (b ∷ rest)))

-- (cmd *Command) CommandString
unfoldable pub command_string : Command → String
unfolding join_spaces
command_string c = if is_empty c.args then c.cmd else join_spaces c.args
