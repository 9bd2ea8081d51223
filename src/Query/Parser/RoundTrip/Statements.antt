-- ===== src/Query/Parser/RoundTrip/Statements.antt =====
-- Statements with a condition are read back by internal/query/parser.go.
use codeai.Base.{
  ℕ, suc, ◌≡◌, ap, ◌∙◌, subst, List, [], ◌∷◌, some, append-nil, ◌+◌, ◌*◌, Bool, true, false, not,
  ◌&&◌, length, arith,
}
use codeai.Query.Tokens.{
  bytes_eq, codes, Token, token_select, token_count, token_delete, token_from, token_ident,
  token_where,
}
use codeai.Query.Ast.{query_select, query_count, query_delete, WhereClause, Query}
use codeai.Query.Parser.State.{ok, new_parser}
use codeai.Query.Parser.Conditions.{parse_where_expr}
use codeai.Query.Parser.Clauses.{parse_clause, clauses_within, parse_clauses}
use codeai.Query.Parser.Statements.{
  parse_from, parse_select, parse_aggregate, parse_delete, parse_tokens, starts_fields,
}
use codeai.Query.Parser.Filters.{new_query}
use codeai.Query.Parser.Returns.{switch_bool}
use codeai.Query.Parser.Print.{token, mark, print_where, WritableWhere}
use codeai.Query.Parser.RoundTrip.Values.{at}
use codeai.Query.Parser.RoundTrip.Conditions.{parse_where_expr-print}

parse_where_expr-last :
    (w : WhereClause)
    → WritableWhere 0 w
    → parse_where_expr (at (print_where w) 0) ≡ ok (w, at [] 0)
parse_where_expr-last w h =
    subst (λ ts. parse_where_expr (at ts 0) ≡ ok (w, at [] 0)) (append-nil (print_where w))
      (parse_where_expr-print w [] 0 h tt)

and-false : (b : Bool) → b && false ≡ true → ⊥
and-false true e = cc e
and-false false e = cc e

-- A query on an entity, under a clause, and the tokens of its name and the clause.
abbrev pub filtered : List ℕ → WhereClause → Query → Query
filtered entity w q = record q { entity = entity; condition = some w }

abbrev pub tail : List ℕ → WhereClause → List Token
tail entity w = token token_ident entity ∷ mark token_where ∷ print_where w

module _ (entity : List ℕ) (w : WhereClause) (h : WritableWhere 0 w) where
  clauses_within-where :
      (n : ℕ) (q : Query)
      → clauses_within (suc (suc n)) q (at (mark token_where ∷ print_where w) 0)
        ≡ ok (record q { condition = some w })
  unfolding clauses_within parse_clause
  clauses_within-where n q = rw (parse_where_expr-last w h)

  parse_clauses-where :
      (q : Query)
      → parse_clauses q (at (mark token_where ∷ print_where w) 0)
        ≡ ok (record q { condition = some w })
  unfolding parse_clauses
  parse_clauses-where q =
      ap (λ n. clauses_within n q (at (mark token_where ∷ print_where w) 0)) (omega arith)
      ∙ clauses_within-where (2 * length (mark token_where ∷ print_where w) + 1) q

  parse_from-where : (q : Query) → parse_from q (at (tail entity w) 0) ≡ ok (filtered entity w q)
  unfolding parse_from
  parse_from-where q = parse_clauses-where (record q { entity = entity })

  parse_select-where :
      parse_select (at (mark token_select ∷ tail entity w) 0)
      ≡ ok (filtered entity w (new_query query_select))
  unfolding parse_select
  parse_select-where =
      switch_bool (λ o. o ≡ ok (filtered entity w (new_query query_select)))
        (starts_fields (at (tail entity w) 0))
        (λ e. absurd (and-false (not (bytes_eq entity (codes "*"))) e)) (λ e. parse_from-where _)

  parse_delete-where :
      parse_delete (at (mark token_delete ∷ mark token_from ∷ tail entity w) 0)
      ≡ ok (filtered entity w (new_query query_delete))
  unfolding parse_delete parse_from
  parse_delete-where = parse_clauses-where (record (new_query query_delete) { entity = entity })

  -- The tokens of a SELECT, a COUNT or a DELETE of an entity, with a WHERE and a clause that can be
  -- written at depth 0, are read as the query of that type with the entity and the clause, and with
  -- nothing else in it.
  pub parse_tokens-where :
      (parse_tokens (new_parser (mark token_select ∷ tail entity w))
        ≡ ok (filtered entity w (new_query query_select)))
      × (parse_tokens (new_parser (mark token_count ∷ tail entity w))
          ≡ ok (filtered entity w (new_query query_count)))
      × (parse_tokens (new_parser (mark token_delete ∷ mark token_from ∷ tail entity w))
          ≡ ok (filtered entity w (new_query query_delete)))
  unfolding parse_tokens parse_aggregate parse_delete
  parse_tokens-where =
      (parse_select-where, parse_from-where (new_query query_count), parse_delete-where)
