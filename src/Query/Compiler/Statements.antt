-- ===== src/Query/Compiler/Statements.antt =====
-- internal/query/compiler.go: `Compile` and the statements.
use codeai.Base.{ℕ, List, [], ◌∷◌, ◌++◌, map, Option, none, some, String, if◌then◌else◌}
use codeai.Query.Ast.{
  ℤ, QueryType, query_select, query_count, query_sum, query_avg, query_min, query_max, query_update,
  query_delete, OrderDirection, order_asc, order_desc, OrderClause, UpdateOp, update_set_value,
  update_increment, update_decrement, update_append, update_remove, UpdateSet, Value, WhereClause,
  Query, EntityMeta,
}
use codeai.Query.Decimal.{signed_decimal}
use codeai.Query.Compiler.Sql.{
  Piece, raw, words, Sql, is_blank, join, SqlCompiler, Params, no_params, bind, latest, Compiled,
  compiled, failed, ◌>>=◌, unknown_entity,
}
use codeai.Query.Compiler.Names.{get_entity, quote_ident, column}
use codeai.Query.Compiler.Conditions.{compile_where}

pub record CompiledQuery : Type 0 where
  pub sql : Sql
  pub params : List Value

-- `strings.Join` of columns.
abbrev pub listed : List Piece → Sql
listed pieces = join (words ", ") (map (λ p. p ∷ []) pieces)

abbrev pub columns_of : EntityMeta → List (List ℕ) → Sql
columns_of entity names = listed (map (column entity) names)

abbrev pub table : EntityMeta → Piece
table entity = raw (quote_ident entity.table_name)

abbrev pub optional_where :
    (Value → List ℕ) → EntityMeta → Option WhereClause → Params → Compiled (Sql × Params)
optional_where show entity none s = compiled ([], s)
optional_where show entity (some w) s = compile_where show entity w s

-- The condition that a row is not deleted.
abbrev pub not_deleted : List ℕ → Sql
not_deleted col = raw (quote_ident col) ∷ words " IS NULL" ∷ []

abbrev pub with_not_deleted : Sql → List ℕ → Sql
with_not_deleted sql [] = sql
with_not_deleted sql (ch ∷ col) =
    if is_blank sql
    then not_deleted (ch ∷ col)
    else words "(" ∷ (sql ++ words ") AND (" ∷ (not_deleted (ch ∷ col) ++ words ")" ∷ []))

unfoldable pub compile_where_with_soft_delete :
    (Value → List ℕ) → EntityMeta → Option WhereClause → Params → Compiled (Sql × Params)
compile_where_with_soft_delete show entity w s = do
  (sql, s') ← optional_where show entity w s
  compiled (with_not_deleted sql entity.soft_delete, s')

abbrev pub where_part : Sql → Sql
where_part sql = if is_blank sql then [] else words " WHERE " ∷ sql

-- A statement with its WHERE behind it.
unfoldable pub filtered : SqlCompiler → EntityMeta → Query → Sql → Params → Compiled (Sql × Params)
filtered c entity q head s = do
  (sql, s') ← compile_where_with_soft_delete c.show entity q.condition s
  compiled (head ++ where_part sql, s')

abbrev pub select_fields : EntityMeta → List (List ℕ) → Sql
select_fields entity [] = words "*" ∷ []
select_fields entity (f ∷ fs) = columns_of entity (f ∷ fs)

abbrev pub group_part : EntityMeta → List (List ℕ) → Sql
group_part entity [] = []
group_part entity (g ∷ gs) = words " GROUP BY " ∷ columns_of entity (g ∷ gs)

unfoldable pub having_part :
    (Value → List ℕ) → EntityMeta → Option WhereClause → Params → Compiled (Sql × Params)
having_part show entity none s = compiled ([], s)
having_part show entity (some w) s = do
  (sql, s') ← compile_where show entity w s
  compiled (words " HAVING " ∷ sql, s')

abbrev pub direction_name : OrderDirection → String
direction_name order_asc = " ASC"
direction_name order_desc = " DESC"

abbrev pub order_of : EntityMeta → OrderClause → Sql
order_of entity o = column entity o.field ∷ words (direction_name o.direction) ∷ []

abbrev pub order_part : EntityMeta → List OrderClause → Sql
order_part entity [] = []
order_part entity (o ∷ os) = words " ORDER BY " ∷ join (words ", ") (map (order_of entity) (o ∷ os))

abbrev pub number_part : String → Option ℤ → Sql
number_part keyword none = []
number_part keyword (some n) = words keyword ∷ raw (signed_decimal n) ∷ []

-- What stands behind the HAVING clause of a SELECT.
unfoldable pub select_tail : EntityMeta → Query → Sql
select_tail entity q =
    order_part entity q.order_by ++ number_part " LIMIT " q.limit ++ number_part " OFFSET " q.offset

unfoldable pub select_head : EntityMeta → Query → Sql
select_head entity q =
    words "SELECT " ∷ (select_fields entity q.fields ++ words " FROM " ∷ table entity ∷ [])

unfoldable pub compile_select : SqlCompiler → EntityMeta → Query → Params → Compiled (Sql × Params)
compile_select c entity q s = do
  (sql, s₁) ← filtered c entity q (select_head entity q) s
  (having, s₂) ← having_part c.show entity q.having s₁
  compiled (sql ++ group_part entity q.group_by ++ having ++ select_tail entity q, s₂)

unfoldable pub compile_count : SqlCompiler → EntityMeta → Query → Params → Compiled (Sql × Params)
compile_count c entity q s =
    filtered c entity q (words "SELECT COUNT(*) FROM " ∷ table entity ∷ []) s

abbrev pub func_name : QueryType → String
func_name type = elim type [
  | query_sum ↦ "SUM"
  | query_avg ↦ "AVG"
  | query_min ↦ "MIN"
  | query_max ↦ "MAX"
  | _ ↦ ""
]

unfoldable pub compile_aggregate_func :
    SqlCompiler → EntityMeta → Query → Params → Compiled (Sql × Params)
compile_aggregate_func c entity q s =
    filtered c entity q
      (words "SELECT "
        ∷ words (func_name q.query_type)
        ∷ words "("
        ∷ column entity q.agg_field
        ∷ words ") FROM "
        ∷ table entity
        ∷ [])
      s

-- The new value of a column, from its parameter.
abbrev pub assigned : UpdateOp → Piece → Piece → Sql
assigned update_set_value col mark = col ∷ words " = " ∷ mark ∷ []
assigned update_increment col mark = col ∷ words " = " ∷ col ∷ words " + " ∷ mark ∷ []
assigned update_decrement col mark = col ∷ words " = " ∷ col ∷ words " - " ∷ mark ∷ []
assigned update_append col mark =
    col ∷ words " = array_append(" ∷ col ∷ words ", " ∷ mark ∷ words ")" ∷ []
assigned update_remove col mark =
    col ∷ words " = array_remove(" ∷ col ∷ words ", " ∷ mark ∷ words ")" ∷ []

unfoldable pub compile_sets : EntityMeta → List UpdateSet → Params → List Sql × Params
compile_sets entity [] s = ([], s)
compile_sets entity (u ∷ us) s =
    let s' = bind u.value s in
    let (rest, s'') = compile_sets entity us s' in
    (assigned u.op (column entity u.field) (latest s') ∷ rest, s'')

unfoldable pub compile_update : SqlCompiler → EntityMeta → Query → Params → Compiled (Sql × Params)
compile_update c entity q s =
    let (sets, s') = compile_sets entity q.updates s in
    filtered c entity q (words "UPDATE " ∷ table entity ∷ words " SET " ∷ join (words ", ") sets) s'

-- A row is marked as deleted where the entity has a column for that.
unfoldable pub delete_head : EntityMeta → List ℕ → Sql
delete_head entity [] = words "DELETE FROM " ∷ table entity ∷ []
delete_head entity (ch ∷ col) =
    words "UPDATE "
    ∷ table entity
    ∷ words " SET "
    ∷ raw (quote_ident (ch ∷ col))
    ∷ words " = NOW()"
    ∷ []

unfoldable pub compile_delete : SqlCompiler → EntityMeta → Query → Params → Compiled (Sql × Params)
compile_delete c entity q s = filtered c entity q (delete_head entity entity.soft_delete) s

-- The switch on the type of a query.
unfoldable pub compile_as :
    QueryType → SqlCompiler → EntityMeta → Query → Params → Compiled (Sql × Params)
compile_as query_select c entity q s = compile_select c entity q s
compile_as query_count c entity q s = compile_count c entity q s
compile_as query_sum c entity q s = compile_aggregate_func c entity q s
compile_as query_avg c entity q s = compile_aggregate_func c entity q s
compile_as query_min c entity q s = compile_aggregate_func c entity q s
compile_as query_max c entity q s = compile_aggregate_func c entity q s
compile_as query_update c entity q s = compile_update c entity q s
compile_as query_delete c entity q s = compile_delete c entity q s

abbrev pub compile_found : SqlCompiler → Query → Option EntityMeta → Compiled CompiledQuery
compile_found c q none = failed (unknown_entity q.entity)
compile_found c q (some entity) = do
  (sql, s) ← compile_as q.query_type c entity q no_params
  compiled (record { sql = sql; params = s.params })

-- Each statement begins with the look-up of its entity.
unfoldable pub compile : SqlCompiler → Query → Compiled CompiledQuery
compile c q = compile_found c q (get_entity c q.entity)
