-- ===== src/Query/Parser/Statements.antt =====
-- internal/query/parser.go: the statements, `Parse` and `ParseSimple`.
use codeai.Base.{ℕ, Bool, true, false, not, ◌&&◌, List, Option, none, some, if◌then◌else◌}
use codeai.Query.Tokens.{
  TokenType, Token, token_eof, token_comma, token_from, token_ident, token_r_paren, token_set,
  token_select, token_count, token_sum, token_avg, token_min, token_max, token_update, token_delete,
  codes, bytes_eq,
}
use codeai.Query.Lexer.{LexerError, tokenize}
use codeai.Query.Ast.{
  QueryType, query_select, query_count, query_sum, query_avg, query_min, query_max, query_update,
  query_delete, Query,
}
use codeai.Query.Parser.State.{
  Parser, unexpected_eof, Outcome, ok, err, ◌>>=◌, current, kind, advance, peek, unexpected,
  new_parser,
}
use codeai.Query.Parser.Conditions.{glue, opening}
use codeai.Query.Parser.Filters.{new_query, parse_simple_filters}
use codeai.Query.Parser.Clauses.{parse_ident_list, parse_update_sets, parse_clauses}

abbrev pub is_ident : TokenType → Bool
is_ident t = elim t [ token_ident ↦ true | _ ↦ false ]

abbrev pub is_from : TokenType → Bool
is_from t = elim t [ token_from ↦ true | _ ↦ false ]

abbrev pub is_comma_or_from : TokenType → Bool
is_comma_or_from t = elim t [ token_comma ↦ true | token_from ↦ true | _ ↦ false ]

abbrev pub is_set : TokenType → Bool
is_set t = elim t [ token_set ↦ true | _ ↦ false ]

abbrev pub is_closing : TokenType → Bool
is_closing t = elim t [ token_r_paren ↦ true | _ ↦ false ]

abbrev pub skip_from : Parser → Parser
skip_from p = if is_from (kind p) then advance p else p

-- The name of an entity, put into the query.
abbrev pub parse_entity : Query → Parser → Outcome (Query × Parser)
parse_entity q p =
    if is_ident (kind p)
    then ok (record q { entity = (current p).value }, advance p)
    else unexpected p "entity name"

-- `FROM`, if it is there, the entity, and the clauses.
unfoldable pub parse_from : Query → Parser → Outcome Query
parse_from q p = do (q', p') ← parse_entity q (skip_from p); parse_clauses q' p'

-- A name that a comma or `FROM` follows begins a list of fields.
abbrev pub starts_fields : Parser → Bool
starts_fields p =
    is_ident (kind p)
    && not (bytes_eq (current p).value (codes "*"))
    && is_comma_or_from (peek p).token_type

unfoldable pub parse_select : Parser → Outcome Query
parse_select p =
    let p₁ = advance p in
    elim (starts_fields p₁) [
      | true ↦ do
        (names, p₂) ← parse_ident_list p₁
        parse_from (record (new_query query_select) { fields = names }) p₂
      | false ↦ parse_from (new_query query_select) p₁
    ]

abbrev pub is_count : QueryType → Bool
is_count type = elim type [ query_count ↦ true | _ ↦ false ]

-- The field of SUM, AVG, MIN and MAX, if a parenthesis opens.
unfoldable pub parse_agg_field : Query → Parser → Outcome (Query × Parser)
parse_agg_field q p = elim (glue (kind p)) [
  | opening ↦
      let p₁ = advance p in
      let p₂ = advance p₁ in
      if is_ident (kind p₁)
      then if is_closing (kind p₂)
        then ok (record q { agg_field = (current p₁).value }, advance p₂)
        else unexpected p₂ ")"
      else unexpected p₁ "field name"
  | _ ↦ ok (q, p)
]

unfoldable pub parse_aggregate : QueryType → Parser → Outcome Query
parse_aggregate type p = elim (is_count type) [
  | true ↦ parse_from (new_query type) (advance p)
  | false ↦ do (q, p') ← parse_agg_field (new_query type) (advance p); parse_from q p'
]

-- `SET`, the assignments and the clauses.
unfoldable pub parse_sets : Query → Parser → Outcome Query
parse_sets q p = elim (is_set (kind p)) [
  | true ↦ do
    (sets, p') ← parse_update_sets (advance p)
    parse_clauses (record q { updates = sets }) p'
  | false ↦ unexpected p "SET"
]

unfoldable pub parse_update : Parser → Outcome Query
parse_update p = do (q, p') ← parse_entity (new_query query_update) (advance p); parse_sets q p'

unfoldable pub parse_delete : Parser → Outcome Query
parse_delete p = parse_from (new_query query_delete) (advance p)

-- The cases of the switch on the first token.
pub data Statement : Type 0 where
  select_statement update_statement delete_statement filters nothing : Statement
  aggregate_statement : QueryType → Statement

abbrev pub statement : TokenType → Statement
statement t = elim t [
  | token_eof ↦ nothing
  | token_select ↦ select_statement
  | token_count ↦ aggregate_statement query_count
  | token_sum ↦ aggregate_statement query_sum
  | token_avg ↦ aggregate_statement query_avg
  | token_min ↦ aggregate_statement query_min
  | token_max ↦ aggregate_statement query_max
  | token_update ↦ update_statement
  | token_delete ↦ delete_statement
  | _ ↦ filters
]

unfoldable pub parse_tokens : Parser → Outcome Query
parse_tokens p = elim (statement (kind p)) [
  | nothing ↦ err (unexpected_eof "query")
  | select_statement ↦ parse_select p
  | aggregate_statement type ↦ parse_aggregate type p
  | update_statement ↦ parse_update p
  | delete_statement ↦ parse_delete p
  | filters ↦ parse_simple_filters p
]

-- The error of the lexer comes before any of the parser.
pub data Parsed : Type 0 where
  parsed : Outcome Query → Parsed
  not_lexed : LexerError → Parsed
  lexer_out_of_fuel : Parsed

abbrev pub with_tokens : (Parser → Outcome Query) → Option (List Token × Option LexerError) → Parsed
with_tokens run none = lexer_out_of_fuel
with_tokens run (some (tokens, some e)) = not_lexed e
with_tokens run (some (tokens, none)) = parsed (run (new_parser tokens))

unfoldable pub parse : List ℕ → Parsed
parse input = with_tokens parse_tokens (tokenize input)

unfoldable pub parse_simple : List ℕ → Parsed
parse_simple input = with_tokens parse_simple_filters (tokenize input)
