-- ===== src/Query/Compiler/Conditions.antt =====
-- internal/query/compiler.go: conditions and clauses.
use codeai.Base.{ℕ, Bool, List, [], ◌∷◌, ◌++◌, String, if◌then◌else◌}
use codeai.Query.Tokens.{codes}
use codeai.Query.Ast.{
  CompareOp, op_equals, op_not_equals, op_greater_than, op_greater_than_or_equal, op_less_than,
  op_less_than_or_equal, op_contains, op_starts_with, op_ends_with, op_in, op_not_in, op_is_null,
  op_is_not_null, op_includes, op_like, op_ilike, op_between, op_fuzzy, op_exact, op_array_contains,
  LogicalOp, logical_and, logical_or, Value, text, array, range, Values, nil, cons, Condition,
  compare, nested, WhereClause, clause, Conditions, empty, and_then, EntityMeta,
}
use codeai.Query.Compiler.Sql.{
  Piece, raw, words, Sql, is_blank, join, Params, bind, latest, Compiled, compiled, failed, ◌>>=◌,
  array_required, range_required, unsupported_operator, no_text_search, sprint,
}
use codeai.Query.Compiler.Names.{quote_ident, column, is_json}

-- `NOT `, the column and an operator.
abbrev pub not_bytes : Bool → List ℕ
not_bytes negated = if negated then codes "NOT " else []

abbrev pub not_prefix : Bool → Piece
not_prefix negated = raw (not_bytes negated)

-- A column compared with a new parameter.
abbrev pub compared : Piece → Piece → String → String → Value → Params → Compiled (Sql × Params)
compared prefix col op suffix v s =
    let s' = bind v s in compiled (prefix ∷ col ∷ words op ∷ latest s' ∷ words suffix ∷ [], s')

-- A new parameter for each value of a list.
unfoldable pub placeholders_of : Values → Params → List Sql × Params
placeholders_of nil s = ([], s)
placeholders_of (cons v vs) s =
    let s' = bind v s in let (rest, s'') = placeholders_of vs s' in ((latest s' ∷ []) ∷ rest, s'')

abbrev pub percent : List ℕ
percent = codes "%"

-- A list of values in parentheses.
abbrev pub in_list : Piece → Piece → String → Values → Params → Compiled (Sql × Params)
in_list prefix col op values s =
    let (marks, s') = placeholders_of values s in
    compiled (prefix ∷ col ∷ words op ∷ (join (words ", ") marks ++ words ")" ∷ []), s')

abbrev pub compile_in : Bool → Piece → Piece → Value → Params → Compiled (Sql × Params)
compile_in negated prefix col (array nil) s =
    compiled (words (if negated then "TRUE" else "FALSE") ∷ [], s)
compile_in negated prefix col (array (cons v vs)) s = in_list prefix col " IN (" (cons v vs) s
compile_in negated prefix col v s = failed (array_required op_in)

abbrev pub compile_not_in : Piece → Piece → Value → Params → Compiled (Sql × Params)
compile_not_in prefix col (array nil) s = compiled (words "TRUE" ∷ [], s)
compile_not_in prefix col (array (cons v vs)) s = in_list prefix col " NOT IN (" (cons v vs) s
compile_not_in prefix col v s = failed (array_required op_not_in)

abbrev pub compile_between : Piece → Piece → Value → Params → Compiled (Sql × Params)
compile_between prefix col (range low high) s =
    let s₁ = bind low s in
    let s₂ = bind high s₁ in
    compiled (prefix ∷ col ∷ words " BETWEEN " ∷ latest s₁ ∷ words " AND " ∷ latest s₂ ∷ [], s₂)
compile_between prefix col v s = failed range_required

-- The switch on the operator.
abbrev pub compile_operator :
    (Value → List ℕ) → Bool → Bool → Piece → CompareOp → Value → Params → Compiled (Sql × Params)
compile_operator show negated json col op v s =
    let prefix = not_prefix negated in
    elim op [
      | op_equals ↦
          if json
          then compared prefix col " @> " "::jsonb" v s
          else compared prefix col " = " "" v s
      | op_not_equals ↦ compared prefix col " != " "" v s
      | op_greater_than ↦ compared prefix col " > " "" v s
      | op_greater_than_or_equal ↦ compared prefix col " >= " "" v s
      | op_less_than ↦ compared prefix col " < " "" v s
      | op_less_than_or_equal ↦ compared prefix col " <= " "" v s
      | op_contains ↦
          compared prefix col " ILIKE " "" (text (percent ++ sprint show v ++ percent)) s
      | op_ilike ↦ compared prefix col " ILIKE " "" (text (percent ++ sprint show v ++ percent)) s
      | op_like ↦ compared prefix col " LIKE " "" v s
      | op_starts_with ↦ compared prefix col " ILIKE " "" (text (sprint show v ++ percent)) s
      | op_ends_with ↦ compared prefix col " ILIKE " "" (text (percent ++ sprint show v)) s
      | op_in ↦ compile_in negated prefix col v s
      | op_not_in ↦ compile_not_in prefix col v s
      | op_is_null ↦ compiled (col ∷ words (if negated then " IS NOT NULL" else " IS NULL") ∷ [], s)
      | op_is_not_null ↦
          compiled (col ∷ words (if negated then " IS NULL" else " IS NOT NULL") ∷ [], s)
      | op_includes ↦ compared prefix col " @> " "" v s
      | op_array_contains ↦ compared prefix col " @> " "" v s
      | op_between ↦ compile_between prefix col v s
      | op_fuzzy ↦ failed (unsupported_operator op_fuzzy)
      | op_exact ↦ failed (unsupported_operator op_exact)
    ]

abbrev pub search_function : CompareOp → String
search_function op = elim op [
  | op_fuzzy ↦ " @@ to_tsquery('simple', "
  | op_exact ↦ " @@ phraseto_tsquery('simple', "
  | _ ↦ " @@ plainto_tsquery('simple', "
]

-- The first search column in an order of iteration.
abbrev pub compile_text_search :
    (Value → List ℕ) → CompareOp → Value → List (List ℕ × List ℕ) → Params → Compiled (Sql × Params)
compile_text_search show op v [] s = failed no_text_search
compile_text_search show op v ((field, tsv) ∷ rest) s =
    let s' = bind (text (sprint show v)) s in
    compiled (raw (quote_ident tsv) ∷ words (search_function op) ∷ latest s' ∷ words ")" ∷ [], s')

abbrev pub compile_comparison :
    (Value → List ℕ)
    → EntityMeta
    → List ℕ
    → CompareOp
    → Value
    → Bool
    → Params
    → Compiled (Sql × Params)
compile_comparison show entity [] op v negated s =
    compile_text_search show op v entity.tsv_columns s
compile_comparison show entity (ch ∷ field) op v negated s =
    compile_operator show negated (is_json entity (ch ∷ field)) (column entity (ch ∷ field)) op v s

abbrev pub logical : LogicalOp → Piece
logical logical_and = words " AND "
logical logical_or = words " OR "

-- One condition stands alone, more stand in parentheses.
abbrev pub joined : LogicalOp → List Sql → Sql
joined op [] = []
joined op (sql ∷ []) = sql
joined op (sql ∷ next ∷ rest) =
    words "(" ∷ (join (logical op) (sql ∷ next ∷ rest) ++ words ")" ∷ [])

abbrev pub negate_group : Bool → Sql → Sql
negate_group negated sql = if negated then words "NOT (" ∷ (sql ++ words ")" ∷ []) else sql

-- A condition that is empty is left out.
abbrev pub keep : Sql → List Sql → List Sql
keep sql rest = if is_blank sql then rest else sql ∷ rest

unfoldable mutual
  pub compile_condition :
      (Value → List ℕ) → EntityMeta → Condition → Params → Compiled (Sql × Params)
  compile_condition show entity (compare field op v negated) s =
      compile_comparison show entity field op v negated s
  compile_condition show entity (nested negated w) s = do
    (sql, s') ← compile_where show entity w s
    compiled (negate_group negated sql, s')

  pub compile_where : (Value → List ℕ) → EntityMeta → WhereClause → Params → Compiled (Sql × Params)
  compile_where show entity (clause conditions op) s = do
    (sqls, s') ← compile_conditions show entity conditions s
    compiled (joined op sqls, s')

  pub compile_conditions :
      (Value → List ℕ) → EntityMeta → Conditions → Params → Compiled (List Sql × Params)
  compile_conditions show entity empty s = compiled ([], s)
  compile_conditions show entity (and_then c cs) s = do
    (sql, s₁) ← compile_condition show entity c s
    (sqls, s₂) ← compile_conditions show entity cs s₁
    compiled (keep sql sqls, s₂)
