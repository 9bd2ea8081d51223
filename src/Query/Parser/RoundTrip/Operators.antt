-- ===== src/Query/Parser/RoundTrip/Operators.antt =====
-- The operators and operands of internal/query/parser.go are read back.
use codeai.Base.{ℕ, ◌≡◌, sym, ap, subst, Bool, List, ◌∷◌, ◌++◌, append_assoc}
use codeai.Query.Tokens.{Token, token_ident, token_and}
use codeai.Query.Ast.{
  CompareOp, op_equals, op_not_equals, op_greater_than, op_greater_than_or_equal, op_less_than,
  op_less_than_or_equal, op_contains, op_starts_with, op_ends_with, op_in, op_not_in, op_is_null,
  op_is_not_null, op_includes, op_like, op_ilike, op_between, op_fuzzy, op_exact, op_array_contains,
  Value, range, compare,
}
use codeai.Query.Parser.State.{ok}
use codeai.Query.Parser.Conditions.{
  parse_is, parse_between, parse_operand, parse_operator, parse_comparison,
}
use codeai.Query.Parser.Print.{
  token, mark, print_value, IsPlain, writing, print_operand, IsWritable,
}
use codeai.Query.Parser.RoundTrip.Values.{at, parse_value-print}

module _ (field : List ℕ) (negated : Bool) (rest : List Token) (d : ℕ) where
  parse_operand-print :
      (op : CompareOp) (v : Value)
      → IsPlain v
      → parse_operand field negated op (at (print_value v ++ rest) d)
        ≡ ok (compare field op v negated, at rest d)
  parse_operand-print op v h = rw (parse_value-print v rest d h)

  parse_between-print :
      (low high : Value)
      → IsPlain low
      → IsPlain high
      → parse_between field negated
          (at ((print_value low ++ mark token_and ∷ print_value high) ++ rest) d)
        ≡ ok (compare field op_between (range low high) negated, at rest d)
  unfolding parse_between
  parse_between-print low high g h =
      subst
        (λ ts.
          parse_between field negated (at ts d)
          ≡ ok (compare field op_between (range low high) negated, at rest d))
        (sym (append_assoc (print_value low) (mark token_and ∷ print_value high) rest))
        (rw (parse_value-print low (mark token_and ∷ (print_value high ++ rest)) d g)
          (rw (parse_value-print high rest d h)))

  pub parse_operator-print :
      (op : CompareOp) (v : Value)
      → IsWritable (writing op) v
      → parse_operator field negated (at (print_operand (writing op) v ++ rest) d)
        ≡ ok (compare field op v negated, at rest d)
  unfolding parse_operator parse_is print_value
  parse_operator-print op_equals v h = parse_operand-print op_equals v h
  parse_operator-print op_not_equals v h = parse_operand-print op_not_equals v h
  parse_operator-print op_greater_than v h = parse_operand-print op_greater_than v h
  parse_operator-print op_greater_than_or_equal v h =
      parse_operand-print op_greater_than_or_equal v h
  parse_operator-print op_less_than v h = parse_operand-print op_less_than v h
  parse_operator-print op_less_than_or_equal v h = parse_operand-print op_less_than_or_equal v h
  parse_operator-print op_contains v h = parse_operand-print op_contains v h
  parse_operator-print op_starts_with v h = parse_operand-print op_starts_with v h
  parse_operator-print op_ends_with v h = parse_operand-print op_ends_with v h
  parse_operator-print op_like v h = parse_operand-print op_like v h
  parse_operator-print op_ilike v h = parse_operand-print op_ilike v h
  parse_operator-print op_in v h = parse_operand-print op_in v h
  parse_operator-print op_is_null v h =
      ap (λ u. ok (compare field op_is_null u negated, at rest d)) (sym h)
  parse_operator-print op_is_not_null v h =
      ap (λ u. ok (compare field op_is_not_null u negated, at rest d)) (sym h)
  parse_operator-print op_between v (low, high, e, g, h) =
      subst
        (λ u.
          parse_operator field negated (at (print_operand (writing op_between) u ++ rest) d)
          ≡ ok (compare field op_between u negated, at rest d))
        (sym e) (parse_between-print low high g h)
  parse_operator-print op_not_in v h = absurd h
  parse_operator-print op_includes v h = absurd h
  parse_operator-print op_fuzzy v h = absurd h
  parse_operator-print op_exact v h = absurd h
  parse_operator-print op_array_contains v h = absurd h

  pub parse_comparison-print :
      (op : CompareOp) (v : Value)
      → IsWritable (writing op) v
      → parse_comparison negated
          (at (token token_ident field ∷ (print_operand (writing op) v ++ rest)) d)
        ≡ ok (compare field op v negated, at rest d)
  unfolding parse_comparison
  parse_comparison-print op v h = parse_operator-print op v h
