-- ===== src/Query/Compiler/Tests.antt =====
-- Runs of the compiler of queries, and its theorems at inputs.
use codeai.Base.{
  ℕ, ◌≡◌, refl, ap, sym, ◌∙◌, false, List, [], ◌∷◌, ◌++◌, some, inl, inr, length, In, map, ◌≢◌,
}
use codeai.Query.Tokens.{codes, to_lower}
use codeai.Query.Ast.{
  op_contains, op_in, op_exact, logical_and, logical_or, query_select, query_delete, text, integer,
  pos, array, nil, cons, compare, nested, WhereClause, clause, empty, and_then, Query, EntityMeta,
}
use codeai.Query.Decimal.{decimal, decimal_within}
use codeai.Query.Parser.Filters.{new_query}
use codeai.Query.Compiler.Sql.{Compiled, join, sprint, SqlCompiler, render, compiled, failed}
use codeai.Query.Compiler.Names.{
  double_quotes, column, map_column, is_json, get_entity, split_dots, join_dots, quote_ident, find,
  find_lower,
}
use codeai.Query.Compiler.Statements.{
  CompiledQuery, compile, compile_as, compile_select, filtered, select_head,
  compile_where_with_soft_delete, having_part, select_tail,
}
use codeai.Query.Compiler.Conditions.{compile_where, compile_condition, placeholders_of}
use codeai.Query.Compiler.Operands.{query_operands, placeholders, numbered, OnSuccess}
use codeai.Query.Compiler.Numbered.{compile-IsNumbered}
use codeai.Query.Compiler.Quoting.{read_name, read_name-quote_ident}
use codeai.Query.Compiler.SoftDelete.{Guarded, compile-Guarded}

abbrev users : EntityMeta
users = record {
  table_name = codes "app.users";
  primary_key = codes "id";
  soft_delete = codes "deleted_at";
  columns = (codes "name", codes "full_name") ∷ [];
  json_columns = [];
  tsv_columns = (codes "bio", codes "bio_tsv") ∷ [];
}

abbrev compiler : SqlCompiler
compiler = record { entities = (codes "Users", users) ∷ []; show = λ v. [] }

-- `name CONTAINS "a" AND (id IN [1, 2] OR "b")` in text search.
abbrev filter : WhereClause
filter =
    clause
      (and_then (compare (codes "name") op_contains (text (codes "a")) false) (
        and_then
          (nested false (
            clause
              (and_then
                (compare (codes "id") op_in
                  (array (cons (integer (pos 1)) (cons (integer (pos 2)) nil))) false)
                (and_then (compare [] op_exact (text (codes "b")) false) empty))
              logical_or))
          empty))
      logical_and

abbrev selection : Query
selection = record (new_query query_select) { entity = codes "users"; condition = some filter }

abbrev deletion : Query
deletion = record (new_query query_delete) { entity = codes "users"; condition = some filter }

compile-IsNumbered_example :
    OnSuccess
      (λ r.
        (r.params ≡ query_operands compiler.show selection)
        × (placeholders r.sql ≡ numbered 1 r.params))
      (compile compiler selection)
compile-IsNumbered_example = compile-IsNumbered compiler selection

read_name-quote_ident_example :
    (read_name
        (length (split_dots (codes "a\".b")))
        (quote_ident (codes "a\".b") ++ codes " IS NULL")
      ≡ some (split_dots (codes "a\".b"), codes " IS NULL"))
    × (join_dots (split_dots (codes "a\".b")) ≡ codes "a\".b")
read_name-quote_ident_example = read_name-quote_ident (codes "a\".b") (codes " IS NULL") refl refl

users_found : get_entity compiler (codes "users") ≡ some users
unfolding get_entity find find_lower to_lower
users_found = refl

compile-Guarded_example :
    OnSuccess (λ r. Guarded (codes "deleted_at") r.sql) (compile compiler selection)
compile-Guarded_example = compile-Guarded compiler users selection _ _ refl users_found

abbrev lost : Query
lost = record selection { entity = codes "teams" }

teams_are_absent :
    (k : List ℕ) (m : EntityMeta)
    → In (k, m) compiler.entities
    → map to_lower k ≢ map to_lower lost.entity
unfolding to_lower
teams_are_absent k m (inl e) t =
    let p : map to_lower (codes "Users") ≡ map to_lower (codes "teams") =
      ap (λ (r : List ℕ × EntityMeta). map to_lower r.0) (sym e) ∙ t in
    cc p
teams_are_absent k m (inr i) t = absurd i

abbrev rendered : Compiled CompiledQuery → List ℕ
rendered (compiled r) = render r.sql
rendered (failed e) = []

selection_text :
    rendered (compile compiler selection)
    ≡ codes
        "SELECT * FROM \"app\".\"users\" WHERE ((\"full_name\" ILIKE $1 AND (\"id\" IN ($2, $3) OR \"bio_tsv\" @@ phraseto_tsquery('simple', $4)))) AND (\"deleted_at\" IS NULL)"
unfolding compile get_entity find find_lower to_lower compile_as compile_select filtered select_head
    quote_ident split_dots join_dots double_quotes compile_where_with_soft_delete compile_where
    compile_condition column map_column is_json join placeholders_of decimal decimal_within
    having_part select_tail sprint
selection_text = refl
