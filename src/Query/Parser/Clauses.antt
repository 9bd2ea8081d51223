-- ===== src/Query/Parser/Clauses.antt =====
-- internal/query/parser.go: `parseIdentList`, `parseOrderBy`, `parseUpdateSets` and `parseClauses`.
use codeai.Base.{ℕ, zero, suc, Bool, true, false, List, [], ◌∷◌, some, if◌then◌else◌, String}
use codeai.Query.Tokens.{
  TokenType, token_with, token_include, token_where, token_order, token_group, token_group_by,
  token_having, token_limit, token_offset, token_by, token_asc, token_desc, token_equals,
}
use codeai.Query.Ast.{
  OrderDirection, order_asc, order_desc, OrderClause, update_set_value, UpdateSet, Query,
}
use codeai.Query.Parser.State.{
  Parser, Outcome, ok, out_of_fuel, ◌>>=◌, current, kind, advance, unexpected, is_eof,
  is_identifier_or_keyword,
}
use codeai.Query.Parser.Values.{separator, comma, parse_value, parse_int_token, fuel}
use codeai.Query.Parser.Conditions.{parse_where_expr}

-- The loop that the three lists share, with the parser of an entry and the name of what it expects:
-- a comma may end a list that has an entry.
unfoldable pub separated :
    {A : Type 0}
    → (Parser → Outcome (A × Parser))
    → String
    → ℕ
    → Bool
    → Parser
    → Outcome (List A × Parser)
separated entry expected zero starts p = out_of_fuel
separated entry expected (suc n) starts p = elim (is_identifier_or_keyword p) [
  | false ↦ if starts then unexpected p expected else ok ([], p)
  | true ↦ do
    (a, p₁) ← entry p
    elim (separator (kind p₁)) [
      | comma ↦ do (more, p₂) ← separated entry expected n false (advance p₁); ok (a ∷ more, p₂)
      | _ ↦ ok (a ∷ [], p₁)
    ]
]

abbrev pub ident_entry : Parser → Outcome (List ℕ × Parser)
ident_entry p = ok ((current p).value, advance p)

unfoldable pub parse_ident_list : Parser → Outcome (List (List ℕ) × Parser)
parse_ident_list p = separated ident_entry "identifier" (fuel p) true p

abbrev pub is_asc : TokenType → Bool
is_asc t = elim t [ token_asc ↦ true | _ ↦ false ]

abbrev pub is_desc : TokenType → Bool
is_desc t = elim t [ token_desc ↦ true | _ ↦ false ]

abbrev pub direction : Parser → OrderDirection × Parser
direction p =
    if is_asc (kind p)
    then (order_asc, advance p)
    else if is_desc (kind p)
    then (order_desc, advance p)
    else (order_asc, p)

abbrev pub order_entry : Parser → Outcome (OrderClause × Parser)
order_entry p =
    let (dir, p') = direction (advance p) in
    ok (record { field = (current p).value; direction = dir }, p')

unfoldable pub parse_order_by : Parser → Outcome (List OrderClause × Parser)
parse_order_by p = separated order_entry "field name" (fuel p) true p

abbrev pub is_equals : TokenType → Bool
is_equals t = elim t [ token_equals ↦ true | _ ↦ false ]

abbrev pub assigned : List ℕ → Parser → Outcome (UpdateSet × Parser)
assigned name p = do
  (v, p') ← parse_value p
  ok (record { field = name; value = v; op = update_set_value }, p')

unfoldable pub update_entry : Parser → Outcome (UpdateSet × Parser)
update_entry p =
    let after = advance p in
    if is_equals (kind after)
    then assigned (current p).value (advance after)
    else unexpected after "="

unfoldable pub parse_update_sets : Parser → Outcome (List UpdateSet × Parser)
parse_update_sets p = separated update_entry "field name" (fuel p) true p

-- The cases of the switch on the keyword of a clause.
pub data ClauseKind : Type 0 where
  include_clause where_clause order_clause group_clause group_by_clause : ClauseKind
  having_clause limit_clause offset_clause no_clause : ClauseKind

abbrev pub clause_kind : TokenType → ClauseKind
clause_kind t = elim t [
  | token_with ↦ include_clause
  | token_include ↦ include_clause
  | token_where ↦ where_clause
  | token_order ↦ order_clause
  | token_group ↦ group_clause
  | token_group_by ↦ group_by_clause
  | token_having ↦ having_clause
  | token_limit ↦ limit_clause
  | token_offset ↦ offset_clause
  | _ ↦ no_clause
]

abbrev pub is_by : TokenType → Bool
is_by t = elim t [ token_by ↦ true | _ ↦ false ]

abbrev pub skip_by : Parser → Parser
skip_by p = if is_by (kind p) then advance p else p

-- A clause, at its keyword, put into the query.
unfoldable pub parse_clause : Query → Parser → Outcome (Query × Parser)
parse_clause q p = elim (clause_kind (kind p)) [
  | include_clause ↦ do
    (names, p') ← parse_ident_list (advance p)
    ok (record q { include = names }, p')
  | where_clause ↦ do
    (w, p') ← parse_where_expr (advance p)
    ok (record q { condition = some w }, p')
  | order_clause ↦ do
    (orders, p') ← parse_order_by (skip_by (advance p))
    ok (record q { order_by = orders }, p')
  | group_clause ↦ do
    (names, p') ← parse_ident_list (skip_by (advance p))
    ok (record q { group_by = names }, p')
  | group_by_clause ↦ do
    (names, p') ← parse_ident_list (advance p)
    ok (record q { group_by = names }, p')
  | having_clause ↦ do (w, p') ← parse_where_expr (advance p); ok (record q { having = some w }, p')
  | limit_clause ↦ do (n, p') ← parse_int_token (advance p); ok (record q { limit = some n }, p')
  | offset_clause ↦ do (n, p') ← parse_int_token (advance p); ok (record q { offset = some n }, p')
  | no_clause ↦ unexpected p "clause keyword"
]

-- The loop of `parseClauses`. It ends where the tokens do.
unfoldable pub clauses_within : ℕ → Query → Parser → Outcome Query
clauses_within zero q p = out_of_fuel
clauses_within (suc n) q p = elim (is_eof (kind p)) [
  | true ↦ ok q
  | false ↦ do (q', p') ← parse_clause q p; clauses_within n q' p'
]

unfoldable pub parse_clauses : Query → Parser → Outcome Query
parse_clauses q p = clauses_within (fuel p) q p
