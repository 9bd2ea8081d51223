-- ===== src/Query/Parser/Total/Statements.antt =====
-- The statements of internal/query/parser.go end on every list of tokens.
use codeai.Query.Consumed.{if_elim}
use codeai.Query.Ast.{QueryType, query_update, query_delete, Query}
use codeai.Query.Parser.State.{Parser, Outcome, ok, err, out_of_fuel, kind, advance, unexpected_eof}
use codeai.Query.Parser.Conditions.{glue}
use codeai.Query.Parser.Clauses.{parse_ident_list, parse_update_sets}
use codeai.Query.Parser.Statements.{
  is_ident, is_closing, is_set, is_count, starts_fields, skip_from, parse_entity, parse_from,
  parse_select, parse_agg_field, parse_aggregate, parse_sets, parse_update, parse_delete, Statement,
  nothing, select_statement, aggregate_statement, update_statement, delete_statement, filters,
  statement, parse_tokens,
}
use codeai.Query.Parser.Filters.{new_query, parse_simple_filters}
use codeai.Query.Parser.Returns.{Returns, Reads, switch_bool}
use codeai.Query.Parser.Total.Operators.{switch_glue}
use codeai.Query.Parser.Total.Filters.{Ends, Ends-bind, parse_simple_filters-Ends}
use codeai.Query.Parser.Total.Clauses.{
  parse_ident_list-Reads, parse_update_sets-Reads, parse_clauses-Ends,
}

Reads-Ends : {A : Type 0} (p : Parser) (m : Outcome (A × Parser)) → Returns (Reads p) m → Ends m
Reads-Ends p (ok a) h = tt
Reads-Ends p (err e) h = tt
Reads-Ends p out_of_fuel h = h

parse_entity-Ends : (q : Query) (p : Parser) → Ends (parse_entity q p)
parse_entity-Ends q p = if_elim Ends (is_ident (kind p)) (λ e. tt) (λ e. tt)

parse_from-Ends : (q : Query) (p : Parser) → Ends (parse_from q p)
unfolding parse_from
parse_from-Ends q p =
    Ends-bind (parse_entity q (skip_from p)) _ (parse_entity-Ends q (skip_from p))
      (λ (q', p'). parse_clauses-Ends q' p')

parse_select-Ends : (p : Parser) → Ends (parse_select p)
unfolding parse_select
parse_select-Ends p =
    let p₁ = advance p in
    switch_bool Ends (starts_fields p₁)
      (λ e.
        Ends-bind (parse_ident_list p₁) _
          (Reads-Ends p₁ (parse_ident_list p₁) (parse_ident_list-Reads p₁))
          (λ (names, p₂). parse_from-Ends _ p₂))
      (λ e. parse_from-Ends _ p₁)

parse_agg_field-Ends : (q : Query) (p : Parser) → Ends (parse_agg_field q p)
unfolding parse_agg_field
parse_agg_field-Ends q p =
    switch_glue Ends (glue (kind p)) tt tt tt tt
      (if_elim Ends (is_ident (kind (advance p)))
        (λ e. if_elim Ends (is_closing (kind (advance (advance p)))) (λ e'. tt) (λ e'. tt))
        (λ e. tt))
      tt tt

parse_aggregate-Ends : (type : QueryType) (p : Parser) → Ends (parse_aggregate type p)
unfolding parse_aggregate
parse_aggregate-Ends type p =
    switch_bool Ends (is_count type) (λ e. parse_from-Ends (new_query type) (advance p))
      (λ e.
        Ends-bind (parse_agg_field (new_query type) (advance p)) _
          (parse_agg_field-Ends (new_query type) (advance p)) (λ (q, p'). parse_from-Ends q p'))

parse_sets-Ends : (q : Query) (p : Parser) → Ends (parse_sets q p)
unfolding parse_sets
parse_sets-Ends q p =
    switch_bool Ends (is_set (kind p))
      (λ e.
        Ends-bind (parse_update_sets (advance p)) _
          (Reads-Ends (advance p) (parse_update_sets (advance p))
            (parse_update_sets-Reads (advance p)))
          (λ (sets, p'). parse_clauses-Ends _ p'))
      (λ e. tt)

parse_update-Ends : (p : Parser) → Ends (parse_update p)
unfolding parse_update
parse_update-Ends p =
    Ends-bind (parse_entity (new_query query_update) (advance p)) _
      (parse_entity-Ends (new_query query_update) (advance p)) (λ (q, p'). parse_sets-Ends q p')

pub parse_tokens-Ends : (p : Parser) → Ends (parse_tokens p)
unfolding parse_tokens parse_delete
parse_tokens-Ends p = by_statement (statement (kind p))
  where
    by_statement :
        (k : Statement)
        → Ends (elim k as (λ x. Outcome Query) [
          | nothing ↦ err (unexpected_eof "query")
          | select_statement ↦ parse_select p
          | aggregate_statement type ↦ parse_aggregate type p
          | update_statement ↦ parse_update p
          | delete_statement ↦ parse_delete p
          | filters ↦ parse_simple_filters p
        ])
    by_statement nothing = tt
    by_statement select_statement = parse_select-Ends p
    by_statement (aggregate_statement type) = parse_aggregate-Ends type p
    by_statement update_statement = parse_update-Ends p
    by_statement delete_statement = parse_from-Ends (new_query query_delete) (advance p)
    by_statement filters = parse_simple_filters-Ends p
