-- ===== src/Pagination/Filter.antt =====
-- internal/pagination/filter.go: conditions from parameters such as `age[gte]=18`. Letters are those of
-- ASCII, and a map is a list in an order of iteration.
use codeai.Base.{
  ℕ, Bool, true, false, ◌&&◌, ◌||◌, List, [], ◌∷◌, map, reverse, Option, none, some, any, leb, ◌==◌,
  if◌then◌else◌,
}
use codeai.Query.Tokens.{codes, bytes_eq, to_lower}
use codeai.Query.Ast.{
  CompareOp, op_equals, op_not_equals, op_greater_than, op_greater_than_or_equal, op_less_than,
  op_less_than_or_equal, op_contains, op_starts_with, op_ends_with, op_in, op_is_null,
  op_is_not_null, logical_and, Value, text, boolean, null, array, Values, nil, cons, Condition,
  compare, WhereClause, clause, Conditions, empty, and_then,
}
use codeai.Query.Parser.Numbers.{any_byte, cut}
use codeai.Query.Compiler.Names.{find}

pub record FilterDef : Type 0 where
  pub field : List ℕ
  pub allowed_ops : List (List ℕ)

-- The definitions of a `FilterBuilder`.
abbrev pub Definitions : Type 0
Definitions = List (List ℕ × FilterDef)

abbrev pub supported_operators : List (List ℕ)
supported_operators =
    codes "eq"
    ∷ codes "ne"
    ∷ codes "gt"
    ∷ codes "gte"
    ∷ codes "lt"
    ∷ codes "lte"
    ∷ codes "contains"
    ∷ codes "in"
    ∷ codes "startswith"
    ∷ codes "endswith"
    ∷ codes "isnull"
    ∷ []

abbrev pub or_supported : List (List ℕ) → List (List ℕ)
or_supported [] = supported_operators
or_supported (op ∷ ops) = op ∷ ops

unfoldable pub assign : List ℕ → FilterDef → Definitions → Definitions
assign key new [] = (key, new) ∷ []
assign key new ((k, old) ∷ rest) =
    let further = (k, old) ∷ assign key new rest in
    if bytes_eq k key then (k, new) ∷ rest else further

unfoldable pub allow : List ℕ → List (List ℕ) → Definitions → Definitions
allow field ops defs = assign field (record { field = field; allowed_ops = or_supported ops }) defs

unfoldable pub allow_all : List (List ℕ) → Definitions → Definitions
allow_all [] defs = defs
allow_all (field ∷ fields) defs = allow_all fields (allow field [] defs)

pub data FilterError : Type 0 where
  not_allowed : List ℕ → List ℕ → FilterError
  unknown_operator : List ℕ → FilterError

abbrev pub trim_bracket : List ℕ → List ℕ
trim_bracket bytes = elim (reverse bytes) [
  | [] ↦ bytes
  | ch ∷ rest ↦ if ch == b']' then reverse rest else bytes
]

abbrev pub opening : ℕ → Bool
opening ch = ch == b'['

abbrev pub closing : ℕ → Bool
closing ch = ch == b']'

-- What stands behind the first opening bracket, up to the first closing one, if that comes later.
abbrev pub operator_of : Bool → List ℕ → List ℕ × Bool × List ℕ → List ℕ
operator_of true rest found = trim_bracket rest
operator_of false rest (op, true, behind) = op
operator_of false rest (op, false, behind) = trim_bracket rest

abbrev pub keyed : List ℕ × Bool × List ℕ → List ℕ × List ℕ
keyed (field, true, rest) = (field, operator_of (any_byte closing field) rest (cut closing rest))
keyed (field, false, rest) = (field, codes "eq")

unfoldable pub parse_filter_key : List ℕ → List ℕ × List ℕ
parse_filter_key key = keyed (cut opening key)

abbrev pub is_space : ℕ → Bool
is_space ch = ch == 32 || (leb 9 ch && leb ch 13)

abbrev pub trim_left : List ℕ → List ℕ
trim_left [] = []
trim_left (ch ∷ rest) = if is_space ch then trim_left rest else ch ∷ rest

abbrev pub trim_space : List ℕ → List ℕ
trim_space bytes = reverse (trim_left (reverse (trim_left bytes)))

abbrev pub add_byte : ℕ → Values → Values
add_byte ch nil = cons (text (ch ∷ [])) nil
add_byte ch (cons (text part) parts) = cons (text (ch ∷ part)) parts
add_byte ch (cons v parts) = cons v parts

-- `strings.Split` at commas, into texts.
unfoldable pub split_commas : List ℕ → Values
split_commas [] = cons (text []) nil
split_commas (ch ∷ rest) =
    let parts = split_commas rest in if ch == b',' then cons (text []) parts else add_byte ch parts

abbrev pub trimmed : Value → Value
trimmed (text part) = text (trim_space part)
trimmed v = v

abbrev pub trim_each : Values → Values
trim_each nil = nil
trim_each (cons v vs) = cons (trimmed v) (trim_each vs)

-- A text is a list of values behind IN.
abbrev pub listed : Value → Value
listed (text s) = array (trim_each (split_commas s))
listed v = v

abbrev pub null_test : Bool → CompareOp
null_test b = if b then op_is_null else op_is_not_null

abbrev pub null_operator : Value → CompareOp
null_operator (boolean b) = null_test b
null_operator (text s) = null_test (bytes_eq s (codes "true") || bytes_eq s (codes "1"))
null_operator v = op_is_null

-- The cases of the switch on the operator, in lower case.
pub data OperatorKind : Type 0 where
  plain : CompareOp → OperatorKind
  in_list is_null : OperatorKind

abbrev pub operator_kinds : List (List ℕ × OperatorKind)
operator_kinds =
    (codes "eq", plain op_equals)
    ∷ (codes "ne", plain op_not_equals)
    ∷ (codes "gt", plain op_greater_than)
    ∷ (codes "gte", plain op_greater_than_or_equal)
    ∷ (codes "lt", plain op_less_than)
    ∷ (codes "lte", plain op_less_than_or_equal)
    ∷ (codes "contains", plain op_contains)
    ∷ (codes "in", in_list)
    ∷ (codes "startswith", plain op_starts_with)
    ∷ (codes "endswith", plain op_ends_with)
    ∷ (codes "isnull", is_null)
    ∷ []

pub data Built (A : Type 0) : Type 0 where
  built : A → Built A
  refused : FilterError → Built A

abbrev pub condition_of : OperatorKind → List ℕ → Value → Condition
condition_of (plain op) field v = compare field op v false
condition_of in_list field v = compare field op_in (listed v) false
condition_of is_null field v = compare field (null_operator v) null false

abbrev pub build_as : Option OperatorKind → List ℕ → List ℕ → Value → Built Condition
build_as none field op v = refused (unknown_operator op)
build_as (some kind) field op v = built (condition_of kind field v)

unfoldable pub build_condition : List ℕ → List ℕ → Value → Built Condition
build_condition field op v = build_as (find (map to_lower op) operator_kinds) field op v

-- `strings.EqualFold` with one of them.
abbrev pub contains : List (List ℕ) → List ℕ → Bool
contains ops op = any (λ o. bytes_eq (map to_lower o) (map to_lower op)) ops

abbrev pub add_built : Built Condition → Built Conditions → Built Conditions
add_built (refused e) rest = refused e
add_built (built c) (refused e) = refused e
add_built (built c) (built cs) = built (and_then c cs)

-- A parameter on a field that is defined, before what the others give.
abbrev pub checked : FilterDef → List ℕ → List ℕ → Value → Built Conditions → Built Conditions
checked def field op v rest =
    if contains def.allowed_ops op
    then add_built (build_condition field op v) rest
    else refused (not_allowed op field)

abbrev pub build_param :
    Option FilterDef → List ℕ → List ℕ → Value → Built Conditions → Built Conditions
build_param none field op v rest = rest
build_param (some def) field op v rest = checked def field op v rest

-- The loop of `Build`.
unfoldable pub build_all : Definitions → List (List ℕ × Value) → Built Conditions
build_all defs [] = built empty
build_all defs ((key, v) ∷ params) =
    let (field, op) = parse_filter_key key in
    build_param (find field defs) field op v (build_all defs params)

abbrev pub all_of : Conditions → Option WhereClause
all_of empty = none
all_of (and_then c cs) = some (clause (and_then c cs) logical_and)

abbrev pub finish : Built Conditions → Built (Option WhereClause)
finish (refused e) = refused e
finish (built cs) = built (all_of cs)

unfoldable pub build : Definitions → List (List ℕ × Value) → Built (Option WhereClause)
build defs params = finish (build_all defs params)

abbrev pub append_conditions : Conditions → Conditions → Conditions
append_conditions empty ds = ds
append_conditions (and_then c cs) ds = and_then c (append_conditions cs ds)

abbrev pub conditions_of : Option WhereClause → Conditions
conditions_of none = empty
conditions_of (some (clause cs op)) = cs

abbrev pub merged : List (Option WhereClause) → Conditions
merged [] = empty
merged (w ∷ ws) = append_conditions (conditions_of w) (merged ws)

unfoldable pub merge_where_clauses : List (Option WhereClause) → Option WhereClause
merge_where_clauses ws = all_of (merged ws)
