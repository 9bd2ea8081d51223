-- ===== src/Query/Parser/Print.antt =====
-- The tokens that write a value or a condition, and which of them can be written: the reverse of
-- internal/query/parser.go. The tokens carry no positions.
use codeai.Base.{ℕ, suc, ◌≤◌, ◌≡◌, Bool, true, false, List, [], ◌∷◌, ◌++◌, some, if◌then◌else◌}
use codeai.Query.Tokens.{
  TokenType, Token, token_string, token_number, token_true, token_false, token_null, token_param,
  token_l_bracket, token_r_bracket, token_l_paren, token_r_paren, token_comma, token_ident,
  token_not, token_is, token_between, token_and, token_or, token_equals, token_not_equals,
  token_greater, token_greater_eq, token_less, token_less_eq, token_contains, token_starts_with,
  token_ends_with, token_like, token_ilike, token_in,
}
use codeai.Query.Ast.{
  CompareOp, op_equals, op_not_equals, op_greater_than, op_greater_than_or_equal, op_less_than,
  op_less_than_or_equal, op_contains, op_starts_with, op_ends_with, op_in, op_not_in, op_is_null,
  op_is_not_null, op_includes, op_like, op_ilike, op_between, op_fuzzy, op_exact, op_array_contains,
  LogicalOp, logical_and, logical_or, Value, text, integer, float, boolean, null, parameter, array,
  range, Values, nil, cons, Condition, compare, nested, WhereClause, clause, Conditions, empty,
  and_then,
}
use codeai.Query.Decimal.{signed_decimal, IsInt64}
use codeai.Query.Parser.Numbers.{is_float, parse_float}

abbrev pub token : TokenType → List ℕ → Token
token type value = record { token_type = type; value = value; pos = 0; line = 0; column = 0 }

abbrev pub mark : TokenType → Token
mark type = token type []

unfoldable mutual
  pub print_value : Value → List Token
  print_value (text s) = token token_string s ∷ []
  print_value (integer i) = token token_number (signed_decimal i) ∷ []
  print_value (float f) = token token_number f ∷ []
  print_value (boolean true) = mark token_true ∷ []
  print_value (boolean false) = mark token_false ∷ []
  print_value null = mark token_null ∷ []
  print_value (parameter s) = token token_param s ∷ []
  print_value (array vs) = mark token_l_bracket ∷ print_values vs
  print_value (range low high) = print_value low ++ mark token_and ∷ print_value high

  -- The entries of a list and its end.
  pub print_values : Values → List Token
  print_values nil = mark token_r_bracket ∷ []
  print_values (cons v nil) = print_value v ++ mark token_r_bracket ∷ []
  print_values (cons v (cons w ws)) = print_value v ++ mark token_comma ∷ print_values (cons w ws)

-- What a value of the language can be: a range stands behind `BETWEEN` only.
abbrev mutual
  pub IsPlain : Value → Type 0
  IsPlain (text s) = Unit
  IsPlain (integer i) = IsInt64 i
  IsPlain (float f) = (is_float f ≡ true) × (parse_float f ≡ some f)
  IsPlain (boolean b) = Unit
  IsPlain null = Unit
  IsPlain (parameter s) = Unit
  IsPlain (array vs) = ArePlain vs
  IsPlain (range low high) = ⊥

  pub ArePlain : Values → Type 0
  ArePlain nil = Unit
  ArePlain (cons v vs) = IsPlain v × ArePlain vs

-- How an operator is written behind its field.
pub data Writing : Type 0 where
  before_value : TokenType → Writing
  is_null is_not_null as_range no_writing : Writing

abbrev pub writing : CompareOp → Writing
writing op_equals = before_value token_equals
writing op_not_equals = before_value token_not_equals
writing op_greater_than = before_value token_greater
writing op_greater_than_or_equal = before_value token_greater_eq
writing op_less_than = before_value token_less
writing op_less_than_or_equal = before_value token_less_eq
writing op_contains = before_value token_contains
writing op_starts_with = before_value token_starts_with
writing op_ends_with = before_value token_ends_with
writing op_like = before_value token_like
writing op_ilike = before_value token_ilike
writing op_in = before_value token_in
writing op_is_null = is_null
writing op_is_not_null = is_not_null
writing op_between = as_range
writing op_not_in = no_writing
writing op_includes = no_writing
writing op_fuzzy = no_writing
writing op_exact = no_writing
writing op_array_contains = no_writing

abbrev pub print_operand : Writing → Value → List Token
print_operand (before_value t) v = mark t ∷ print_value v
print_operand is_null v = mark token_is ∷ mark token_null ∷ []
print_operand is_not_null v = mark token_is ∷ mark token_not ∷ mark token_null ∷ []
print_operand as_range v = mark token_between ∷ print_value v
print_operand no_writing v = []

abbrev pub IsWritable : Writing → Value → Type 0
IsWritable (before_value t) v = IsPlain v
IsWritable is_null v = v ≡ null
IsWritable is_not_null v = v ≡ null
IsWritable as_range v =
    (low : Value) × (high : Value) × (v ≡ range low high) × IsPlain low × IsPlain high
IsWritable no_writing v = ⊥

abbrev pub print_not : Bool → List Token
print_not b = if b then mark token_not ∷ [] else []

abbrev pub glue_token : LogicalOp → TokenType
glue_token logical_and = token_and
glue_token logical_or = token_or

unfoldable mutual
  pub print_condition : Condition → List Token
  print_condition (compare field op v negated) =
      print_not negated ++ token token_ident field ∷ print_operand (writing op) v
  print_condition (nested negated w) =
      print_not negated ++ mark token_l_paren ∷ (print_where w ++ mark token_r_paren ∷ [])

  pub print_where : WhereClause → List Token
  print_where (clause empty op) = []
  print_where (clause (and_then c cs) op) = print_condition c ++ print_more op cs

  pub print_more : LogicalOp → Conditions → List Token
  print_more op empty = []
  print_more op (and_then c cs) = mark (glue_token op) ∷ (print_condition c ++ print_more op cs)

-- A condition that can be written at a depth: at most `max_depth` parentheses are open, and each
-- clause has a condition, or two under OR.
abbrev mutual
  pub WritableCondition : ℕ → Condition → Type 0
  WritableCondition depth (compare field op v negated) = IsWritable (writing op) v
  WritableCondition depth (nested negated w) = (suc depth ≤ 10) × WritableWhere (suc depth) w

  pub WritableWhere : ℕ → WhereClause → Type 0
  WritableWhere depth (clause empty op) = ⊥
  WritableWhere depth (clause (and_then c empty) op) =
      (op ≡ logical_and) × WritableCondition depth c
  WritableWhere depth (clause (and_then c (and_then c' cs)) op) =
      WritableCondition depth c × WritableCondition depth c' × WritableMore depth cs

  pub WritableMore : ℕ → Conditions → Type 0
  WritableMore depth empty = Unit
  WritableMore depth (and_then c cs) = WritableCondition depth c × WritableMore depth cs
