-- ===== src/Query/Parser/Tests.antt =====
-- Runs of the parser of queries, and its theorems at inputs.
use codeai.Base.{ℕ, suc, ◌≤◌, ◌≡◌, refl, true, false, List, [], arith, ◌∷◌, ◌++◌}
use codeai.Query.Tokens.{
  codes, to_lower, is_digit, is_letter, is_ident_start, is_ident_char, token_and, token_or,
  token_r_paren, token_select, token_count, token_delete, token_from,
}
use codeai.Query.Readers.{
  read_while, read_number, read_sign, number_of, read_fraction, read_exponent, read_identifier,
  skip_whitespace,
}
use codeai.Query.Lexer.{tokenize, tokenize_within, next_token, scan}
use codeai.Query.Ast.{
  op_equals, op_in, op_between, logical_and, logical_or, query_select, query_count, query_delete,
  text, integer, pos, negsuc, null, array, range, nil, cons, Condition, compare, nested,
  WhereClause, clause, empty, and_then,
}
use codeai.Query.Parser.State.{ok, new_parser}
use codeai.Query.Parser.Numbers.{parse_int, parse_digits, read_digits}
use codeai.Query.Parser.Values.{parse_value, value_within}
use codeai.Query.Parser.Clauses.{parse_clauses, clauses_within, parse_clause}
use codeai.Query.Parser.Conditions.{
  parse_where_expr, condition_within, parse_comparison, parse_operator,
}
use codeai.Query.Parser.Statements.{
  parsed, parse, parse_simple, parse_tokens, parse_aggregate, parse_from,
}
use codeai.Query.Parser.Filters.{new_query}
use codeai.Query.Parser.Print.{mark, print_condition, print_where, WritableWhere}
use codeai.Query.Parser.Settles.{IsSettled, parse-IsSettled}
use codeai.Query.Parser.Groups.{parse_where_expr-mixed}
use codeai.Query.Parser.RoundTrip.Values.{at}
use codeai.Query.Parser.RoundTrip.Conditions.{parse_where_expr-print}
use codeai.Query.Parser.RoundTrip.Statements.{filtered, tail, parse_tokens-where}

abbrev query_text : List ℕ
query_text = codes "select users where a = 1 and (b in [1,2] or not c is null)"

parse-IsSettled_example : IsSettled (parse query_text) × IsSettled (parse_simple query_text)
parse-IsSettled_example = parse-IsSettled query_text

-- `id = 7`, `name BETWEEN 'a' AND -3` and a group with an OR.
abbrev equality : Condition
equality = compare (codes "id") op_equals (integer (pos 7)) false

abbrev between : Condition
between = compare (codes "name") op_between (range (text (codes "a")) (integer (negsuc 2))) true

abbrev listed : Condition
listed = compare (codes "tag") op_in (array (cons (text (codes "x")) (cons null nil))) false

abbrev group : Condition
group = nested true (clause (and_then between (and_then listed empty)) logical_or)

abbrev filter : WhereClause
filter = clause (and_then equality (and_then group empty)) logical_and

filter-Writable : (d : ℕ) → suc d ≤ 10 → WritableWhere d filter
filter-Writable d h = (
  omega arith,
  (h, ((text (codes "a"), integer (negsuc 2), refl, tt, omega arith), (tt, (tt, tt)), tt)),
  tt,
)

parse_where_expr-print_example :
    parse_where_expr (at (print_where filter ++ mark token_r_paren ∷ []) 2)
    ≡ ok (filter, at (mark token_r_paren ∷ []) 2)
parse_where_expr-print_example =
    parse_where_expr-print filter (mark token_r_paren ∷ []) 2 (filter-Writable 2 (omega arith)) tt

-- `a = 1 AND b = 2 OR c = 3`
abbrev one : Condition
one = compare (codes "a") op_equals (integer (pos 1)) false

abbrev two : Condition
two = compare (codes "b") op_equals (integer (pos 2)) false

abbrev three : Condition
three = compare (codes "c") op_equals (integer (pos 3)) false

parse_where_expr-mixed_example :
    parse_where_expr (
      at
        (print_condition one
          ++ mark token_and
            ∷ (print_condition two ++ mark token_or ∷ (print_condition three ++ [])))
        0)
    ≡ ok (clause (and_then one (and_then two (and_then three empty))) logical_or, at [] 0)
parse_where_expr-mixed_example =
    parse_where_expr-mixed one two three [] 0 (omega arith) (omega arith) (omega arith) tt

parse_tokens-where_example :
    (parse_tokens (new_parser (mark token_select ∷ tail (codes "users") filter))
      ≡ ok (filtered (codes "users") filter (new_query query_select)))
    × (parse_tokens (new_parser (mark token_count ∷ tail (codes "users") filter))
        ≡ ok (filtered (codes "users") filter (new_query query_count)))
    × (parse_tokens (new_parser (mark token_delete ∷ mark token_from ∷ tail (codes "users") filter))
        ≡ ok (filtered (codes "users") filter (new_query query_delete)))
parse_tokens-where_example =
    parse_tokens-where (codes "users") filter (filter-Writable 0 (omega arith))

-- A text is read down to its tokens and its tree.
parse_text :
    parse (codes "count users where a = 1 and b = 2 or c = 3")
    ≡ parsed (
        ok (
          filtered
            (codes "users")
            (clause (and_then one (and_then two (and_then three empty))) logical_or)
            (new_query query_count)))
unfolding parse tokenize tokenize_within next_token skip_whitespace scan read_while read_number
    read_sign number_of read_fraction read_exponent read_identifier to_lower is_digit is_letter
    is_ident_start is_ident_char parse_tokens parse_aggregate parse_from parse_clauses
    clauses_within parse_clause parse_where_expr condition_within parse_comparison parse_operator
    parse_value value_within parse_int parse_digits read_digits
parse_text = refl
