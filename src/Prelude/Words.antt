-- ===== src/Prelude/Words.antt =====
-- Texts cut into pieces: strings.Split at a character, and strings.Fields.
use Prim.Native.Nat.{ℕ}
use Prim.Native.Char.{code}
use Prim.Native.String.{String, ◌++◌ as append}
use mathlib.Core.Option.{Option, none, some}
use mathlib.Core.Bool.{Bool, ◌&&◌, ◌||◌}
use mathlib.Core.List.{List, [], ◌∷◌, map}
use mackerel_agent.Prelude.Tests.{◌==◌, leb, if◌then◌else◌}
use mackerel_agent.Prelude.Text.{is_nil, trim}

-- The piece at the front, and the pieces after it.
unfoldable pub split_pieces : ℕ → String → String × List String
split_pieces sep String.[] = (String.[], [])
split_pieces sep (String.◌∷◌ c s) =
    let (piece, pieces) = split_pieces sep s in
    if code c == sep then (String.[], piece ∷ pieces) else (String.◌∷◌ c piece, pieces)

-- strings.Split(s, string(sep))
unfoldable pub split : ℕ → String → List String
unfolding split_pieces
split sep s = let (piece, pieces) = split_pieces sep s in piece ∷ pieces

-- unicode.IsSpace
unfoldable pub is_space : ℕ → Bool
is_space c =
    c == 32
    || leb 9 c && leb c 13
    || c == 133
    || c == 160
    || c == 5760
    || leb 8192 c && leb c 8202
    || c == 8232
    || c == 8233
    || c == 8239
    || c == 8287
    || c == 12288

abbrev pub unless_nil : String → List String → List String
unless_nil w ws = if is_nil w then ws else w ∷ ws

-- The field that begins at the front, and the fields after it.
unfoldable pub field_pieces : String → String × List String
unfolding is_space
field_pieces String.[] = (String.[], [])
field_pieces (String.◌∷◌ c s) =
    let (w, ws) = field_pieces s in
    if is_space (code c) then (String.[], unless_nil w ws) else (String.◌∷◌ c w, ws)

-- strings.Fields
unfoldable pub fields : String → List String
unfolding field_pieces
fields s = let (w, ws) = field_pieces s in unless_nil w ws

-- A text without the carriage return at its end.
unfoldable pub drop_cr : String → String
drop_cr String.[] = String.[]
drop_cr (String.◌∷◌ c s) =
    let rest = drop_cr s in if code c == b'\r' && is_nil s then String.[] else String.◌∷◌ c rest

abbrev pub without_last_nil : List String → List String
without_last_nil [] = []
without_last_nil (w ∷ []) = if is_nil w then [] else w ∷ []
without_last_nil (w ∷ v ∷ ws) = w ∷ without_last_nil (v ∷ ws)

-- The lines of bufio.Scanner, none of which may be longer than 64 KB.
unfoldable pub scan_lines : String → List String
unfolding split drop_cr
scan_lines s = map drop_cr (without_last_nil (split b'\n' s))

-- strings.SplitN(s, string(sep), 2), if there are two pieces.
unfoldable pub cut_at : ℕ → String → Option (String × String)
cut_at sep String.[] = none
cut_at sep (String.◌∷◌ c s) =
    let rest = cut_at sep s in
    if code c == sep
    then some (String.[], s)
    else elim rest [ none ↦ none | some (front, back) ↦ some (String.◌∷◌ c front, back) ]

-- strings.TrimSpace
unfoldable pub trim_space : String → String
unfolding is_space trim
trim_space s = trim is_space s

-- strings.Join(ws, "")
unfoldable pub join : List String → String
join [] = ""
join (w ∷ ws) = append w (join ws)
