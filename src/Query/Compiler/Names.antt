-- ===== src/Query/Compiler/Names.antt =====
-- Entities, columns and identifiers in internal/query/compiler.go. Letters are those of ASCII.
use codeai.Base.{
  ℕ, ◌+◌, Bool, false, ◌&&◌, List, [], ◌∷◌, ◌++◌, map, Option, none, some, leb, ◌==◌, if◌then◌else◌,
}
use codeai.Query.Tokens.{bytes_eq, to_lower}
use codeai.Query.Ast.{EntityMeta}
use codeai.Query.Parser.Numbers.{any_byte}
use codeai.Query.Compiler.Sql.{SqlCompiler, Piece, raw}

-- `m[key]` of a map from texts.
unfoldable pub find : {V : Type 0} → List ℕ → List (List ℕ × V) → Option V
find key [] = none
find key ((k, v) ∷ rest) = let further = find key rest in if bytes_eq k key then some v else further

unfoldable pub find_lower : {V : Type 0} → List ℕ → List (List ℕ × V) → Option V
find_lower lower [] = none
find_lower lower ((k, v) ∷ rest) =
    let further = find_lower lower rest in
    if bytes_eq (map to_lower k) lower then some v else further

abbrev pub or_else : {V : Type 0} → Option V → Option V → Option V
or_else none further = further
or_else (some v) further = some v

-- An entity of the name itself comes first, and then any that differs by case.
unfoldable pub get_entity : SqlCompiler → List ℕ → Option EntityMeta
get_entity c name = or_else (find name c.entities) (find_lower (map to_lower name) c.entities)

abbrev pub is_upper : ℕ → Bool
is_upper ch = leb b'A' ch && leb ch b'Z'

abbrev pub snake_rest : List ℕ → List ℕ
snake_rest [] = []
snake_rest (ch ∷ rest) =
    if is_upper ch then b'_' ∷ (ch + 32) ∷ snake_rest rest else ch ∷ snake_rest rest

abbrev pub to_snake_case : List ℕ → List ℕ
to_snake_case [] = []
to_snake_case (ch ∷ rest) =
    if is_upper ch then (ch + 32) ∷ snake_rest rest else ch ∷ snake_rest rest

unfoldable pub map_column : EntityMeta → List ℕ → List ℕ
map_column entity field = elim (find field entity.columns) [
  | some column ↦ column
  | none ↦ to_snake_case field
]

-- `strings.ReplaceAll` of a quote by two.
unfoldable pub double_quotes : List ℕ → List ℕ
double_quotes [] = []
double_quotes (ch ∷ rest) =
    let more = double_quotes rest in if ch == b'"' then b'"' ∷ b'"' ∷ more else ch ∷ more

abbrev pub quote : List ℕ → List ℕ
quote part = b'"' ∷ (double_quotes part ++ b'"' ∷ [])

abbrev pub extend : ℕ → List (List ℕ) → List (List ℕ)
extend ch [] = (ch ∷ []) ∷ []
extend ch (part ∷ parts) = (ch ∷ part) ∷ parts

-- `strings.Split` at each point: one part more than points.
unfoldable pub split_dots : List ℕ → List (List ℕ)
split_dots [] = [] ∷ []
split_dots (ch ∷ rest) =
    let parts = split_dots rest in if ch == b'.' then [] ∷ parts else extend ch parts

unfoldable pub join_dots : List (List ℕ) → List ℕ
join_dots [] = []
join_dots (part ∷ []) = part
join_dots (part ∷ next ∷ rest) = part ++ b'.' ∷ join_dots (next ∷ rest)

unfoldable pub quote_ident : List ℕ → List ℕ
quote_ident ident =
    if any_byte (λ ch. ch == b'.') ident
    then join_dots (map quote (split_dots ident))
    else quote ident

-- The quoted column of a field.
unfoldable pub column : EntityMeta → List ℕ → Piece
column entity field = raw (quote_ident (map_column entity field))

abbrev pub is_true : Option Bool → Bool
is_true none = false
is_true (some b) = b

unfoldable pub is_json : EntityMeta → List ℕ → Bool
is_json entity field = is_true (find field entity.json_columns)
