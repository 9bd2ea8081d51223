-- ===== src/Query/Parser/Conditions.antt =====
-- internal/query/parser.go: the conditions, `parseWhereExpr` and `parseCondition`.
use codeai.Base.{ℕ, zero, suc, ◌-◌, Bool, true, false, List, ltb, if◌then◌else◌}
use codeai.Query.Tokens.{
  TokenType, token_equals, token_not_equals, token_greater, token_greater_eq, token_less,
  token_less_eq, token_contains, token_starts_with, token_ends_with, token_like, token_ilike,
  token_in, token_is, token_between, token_and, token_or, token_not, token_null, token_l_paren,
  token_r_paren,
}
use codeai.Query.Ast.{
  CompareOp, op_equals, op_not_equals, op_greater_than, op_greater_than_or_equal, op_less_than,
  op_less_than_or_equal, op_contains, op_starts_with, op_ends_with, op_like, op_ilike, op_in,
  op_is_null, op_is_not_null, op_between, LogicalOp, logical_and, logical_or, null, range,
  Condition, compare, nested, WhereClause, clause, Conditions, empty, and_then,
}
use codeai.Query.Parser.State.{
  Parser, Outcome, ok, err, out_of_fuel, ◌>>=◌, nested_group_depth, max_depth, current, kind,
  advance, unexpected, is_identifier_or_keyword,
}
use codeai.Query.Parser.Values.{parse_value, fuel}

-- The tokens between conditions, and those that steer one.
pub data Glue : Type 0 where
  and_glue or_glue not_glue null_glue opening closing no_glue : Glue

abbrev pub glue : TokenType → Glue
glue t = elim t [
  | token_and ↦ and_glue
  | token_or ↦ or_glue
  | token_not ↦ not_glue
  | token_null ↦ null_glue
  | token_l_paren ↦ opening
  | token_r_paren ↦ closing
  | _ ↦ no_glue
]

-- The cases of the switch on the operator behind a field.
pub data Comparison : Type 0 where
  by_value : CompareOp → Comparison
  is_test between no_comparison : Comparison

abbrev pub comparison : TokenType → Comparison
comparison t = elim t [
  | token_equals ↦ by_value op_equals
  | token_not_equals ↦ by_value op_not_equals
  | token_greater ↦ by_value op_greater_than
  | token_greater_eq ↦ by_value op_greater_than_or_equal
  | token_less ↦ by_value op_less_than
  | token_less_eq ↦ by_value op_less_than_or_equal
  | token_contains ↦ by_value op_contains
  | token_starts_with ↦ by_value op_starts_with
  | token_ends_with ↦ by_value op_ends_with
  | token_like ↦ by_value op_like
  | token_ilike ↦ by_value op_ilike
  | token_in ↦ by_value op_in
  | token_is ↦ is_test
  | token_between ↦ between
  | _ ↦ no_comparison
]

-- Behind `IS`.
unfoldable pub parse_is : List ℕ → Bool → Parser → Outcome (Condition × Parser)
parse_is field negated p = elim (glue (kind p)) [
  | null_glue ↦ ok (compare field op_is_null null negated, advance p)
  | not_glue ↦
      let p' = advance p in
      elim (glue (kind p')) [
        | null_glue ↦ ok (compare field op_is_not_null null negated, advance p')
        | _ ↦ unexpected p' "NULL"
      ]
  | _ ↦ unexpected p "NULL or NOT NULL"
]

-- Behind `BETWEEN`.
unfoldable pub parse_between : List ℕ → Bool → Parser → Outcome (Condition × Parser)
parse_between field negated p = do
  (low, p₁) ← parse_value p
  elim (glue (kind p₁)) [
    | and_glue ↦ do
      (high, p₂) ← parse_value (advance p₁)
      ok (compare field op_between (range low high) negated, p₂)
    | _ ↦ unexpected p₁ "AND"
  ]

abbrev pub parse_operand : List ℕ → Bool → CompareOp → Parser → Outcome (Condition × Parser)
parse_operand field negated op p = do (v, p') ← parse_value p; ok (compare field op v negated, p')

-- The operator behind a field, and the operand behind it.
unfoldable pub parse_operator : List ℕ → Bool → Parser → Outcome (Condition × Parser)
parse_operator field negated p = elim (comparison (kind p)) [
  | by_value op ↦ parse_operand field negated op (advance p)
  | is_test ↦ parse_is field negated (advance p)
  | between ↦ parse_between field negated (advance p)
  | no_comparison ↦ unexpected p "comparison operator"
]

unfoldable pub parse_comparison : Bool → Parser → Outcome (Condition × Parser)
parse_comparison negated p =
    if is_identifier_or_keyword p
    then parse_operator (current p).value negated (advance p)
    else unexpected p "field name"

-- A parenthesis closes; the depth goes back by one.
abbrev pub close_group : Bool → WhereClause → Parser → Outcome (Condition × Parser)
close_group negated w p = elim (glue (kind p)) [
  | closing ↦ ok (nested negated w, record (advance p) { depth = p.depth - 1 })
  | _ ↦ unexpected p ")"
]

-- At an opening parenthesis, with a parser of what is inside.
unfoldable pub group_by_parser :
    (Parser → Outcome (WhereClause × Parser)) → Bool → Parser → Outcome (Condition × Parser)
group_by_parser inside negated p = elim (ltb max_depth (suc p.depth)) [
  | true ↦ err (nested_group_depth max_depth)
  | false ↦ do
    (w, p') ← inside (record (advance p) { depth = suc p.depth })
    close_group negated w p'
]

abbrev pub skip_not : Parser → Bool × Parser
skip_not p = elim (glue (kind p)) [ not_glue ↦ (true, advance p) | _ ↦ (false, p) ]

abbrev pub condition_by :
    (Parser → Outcome (WhereClause × Parser)) → Bool → Parser → Outcome (Condition × Parser)
condition_by inside negated p = elim (glue (kind p)) [
  | opening ↦ group_by_parser inside negated p
  | _ ↦ parse_comparison negated p
]

unfoldable mutual
  pub condition_within : ℕ → Parser → Outcome (Condition × Parser)
  condition_within zero p = out_of_fuel
  condition_within (suc n) p =
      let (negated, p') = skip_not p in condition_by (where_within n) negated p'

  pub where_within : ℕ → Parser → Outcome (WhereClause × Parser)
  where_within zero p = out_of_fuel
  where_within (suc n) p = do
    (c, p₁) ← condition_within n p
    (cs, op, p₂) ← more_conditions n logical_and p₁
    ok (clause (and_then c cs) op, p₂)

  -- The loop of `parseWhereExpr`, with the operator of the clause so far.
  pub more_conditions : ℕ → LogicalOp → Parser → Outcome (Conditions × LogicalOp × Parser)
  more_conditions zero op p = out_of_fuel
  more_conditions (suc n) op p = elim (glue (kind p)) [
    | and_glue ↦ do
      (c, p₁) ← condition_within n (advance p)
      (cs, op', p₂) ← more_conditions n op p₁
      ok (and_then c cs, op', p₂)
    | or_glue ↦ do
      (c, p₁) ← condition_within n (advance p)
      (cs, op', p₂) ← more_conditions n logical_or p₁
      ok (and_then c cs, op', p₂)
    | _ ↦ ok (empty, op, p)
  ]

unfoldable pub parse_where_expr : Parser → Outcome (WhereClause × Parser)
parse_where_expr p = where_within (fuel p) p

unfoldable pub parse_condition : Parser → Outcome (Condition × Parser)
parse_condition p = condition_within (fuel p) p
