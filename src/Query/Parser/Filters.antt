-- ===== src/Query/Parser/Filters.antt =====
-- internal/query/parser.go: the simple filters, such as `status:active`.
use codeai.Base.{ℕ, zero, suc, Bool, true, false, ◌||◌, List, [], Option, none, some, if◌then◌else◌}
use codeai.Query.Tokens.{
  TokenType, token_string, token_tilde, token_and, token_or, token_colon, token_equals,
  token_not_equals, token_greater, token_greater_eq, token_less, token_less_eq,
}
use codeai.Query.Ast.{
  QueryType, query_select, CompareOp, op_equals, op_not_equals, op_greater_than,
  op_greater_than_or_equal, op_less_than, op_less_than_or_equal, op_exact, op_fuzzy, logical_and,
  text, boolean, Condition, compare, WhereClause, clause, Conditions, empty, and_then, Query,
}
use codeai.Query.Parser.State.{
  Parser, Outcome, ok, out_of_fuel, ◌>>=◌, current, kind, advance, unexpected, is_eof,
  is_identifier_or_keyword,
}
use codeai.Query.Parser.Values.{parse_value, fuel}
use codeai.Query.Parser.Conditions.{skip_not, group_by_parser, parse_where_expr, glue, opening}

abbrev pub new_query : QueryType → Query
new_query type = record {
  query_type = type;
  entity = [];
  fields = [];
  condition = none;
  order_by = [];
  limit = none;
  offset = none;
  include = [];
  group_by = [];
  having = none;
  updates = [];
  agg_field = [];
}

-- The operator behind the field of a simple filter.
abbrev pub filter_operator : TokenType → Option CompareOp
filter_operator t = elim t [
  | token_colon ↦ some op_equals
  | token_equals ↦ some op_equals
  | token_not_equals ↦ some op_not_equals
  | token_greater ↦ some op_greater_than
  | token_greater_eq ↦ some op_greater_than_or_equal
  | token_less ↦ some op_less_than
  | token_less_eq ↦ some op_less_than_or_equal
  | _ ↦ none
]

-- A field with an operator and a value, or alone, and then it is true, and not negated.
unfoldable pub field_filter : List ℕ → Bool → Parser → Outcome (Condition × Parser)
field_filter field negated p = elim (filter_operator (kind p)) [
  | none ↦ ok (compare field op_equals (boolean true) false, p)
  | some op ↦ do (v, p') ← parse_value (advance p); ok (compare field op v negated, p')
]

-- The cases at the head of `parseSimpleFilter`.
pub data FilterStart : Type 0 where
  phrase tilde other_start : FilterStart

abbrev pub filter_start : TokenType → FilterStart
filter_start t = elim t [ token_string ↦ phrase | token_tilde ↦ tilde | _ ↦ other_start ]

abbrev pub is_string : TokenType → Bool
is_string t = elim t [ token_string ↦ true | _ ↦ false ]

abbrev pub is_and_or_or : TokenType → Bool
is_and_or_or t = elim t [ token_and ↦ true | token_or ↦ true | _ ↦ false ]

-- A condition of a text search has no field.
unfoldable pub fuzzy_filter : Parser → Outcome (Condition × Parser)
fuzzy_filter p =
    if is_identifier_or_keyword p || is_string (kind p)
    then ok (compare [] op_fuzzy (text (current p).value) false, advance p)
    else unexpected p "search term"

abbrev pub kept : Condition × Parser → Outcome (Option Condition × Parser)
kept (c, p) = ok (some c, p)

-- Behind `NOT`.
unfoldable pub plain_filter : Bool → Parser → Outcome (Option Condition × Parser)
plain_filter negated p = elim (glue (kind p)) [
  | opening ↦ group_by_parser parse_where_expr negated p >>= kept
  | _ ↦
      if is_identifier_or_keyword p
      then field_filter (current p).value negated (advance p) >>= kept
      else if is_and_or_or (kind p)
      then ok (none, advance p)
      else unexpected p "filter expression"
]

unfoldable pub parse_simple_filter : Parser → Outcome (Option Condition × Parser)
parse_simple_filter p = elim (filter_start (kind p)) [
  | phrase ↦ ok (some (compare [] op_exact (text (current p).value) false), advance p)
  | tilde ↦ fuzzy_filter (advance p) >>= kept
  | other_start ↦ let (negated, p') = skip_not p in plain_filter negated p'
]

abbrev pub add_condition : Option Condition → Conditions → Conditions
add_condition none cs = cs
add_condition (some c) cs = and_then c cs

-- The loop of `parseSimpleFilters`.
unfoldable pub filters_within : ℕ → Parser → Outcome Conditions
filters_within zero p = out_of_fuel
filters_within (suc n) p = elim (is_eof (kind p)) [
  | true ↦ ok empty
  | false ↦ do (c, p') ← parse_simple_filter p; cs ← filters_within n p'; ok (add_condition c cs)
]

abbrev pub all_of : Conditions → Option WhereClause
all_of empty = none
all_of (and_then c cs) = some (clause (and_then c cs) logical_and)

unfoldable pub parse_simple_filters : Parser → Outcome Query
parse_simple_filters p = do
  cs ← filters_within (fuel p) p
  ok (record (new_query query_select) { condition = all_of cs })
