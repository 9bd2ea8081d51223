-- ===== src/Query/Parser/Values.antt =====
-- internal/query/parser.go: the values, `parseValue`, `parseList` and `parseInt`. A loop runs on fuel.
use codeai.Base.{
  ℕ, zero, suc, ◌+◌, ◌*◌, Bool, true, false, List, [], ◌∷◌, none, some, length, if◌then◌else◌,
}
use codeai.Query.Tokens.{
  TokenType, Token, token_string, token_number, token_true, token_false, token_null, token_param,
  token_l_bracket, token_r_bracket, token_ident, token_comma, token_eof,
}
use codeai.Query.Ast.{
  ℤ, Value, text, integer, float, boolean, null, parameter, array, Values, nil, cons,
}
use codeai.Query.Parser.Numbers.{parse_int, parse_float, is_float}
use codeai.Query.Parser.State.{
  Parser, Outcome, ok, err, out_of_fuel, ◌>>=◌, number_error, invalid_value, current, kind, advance,
  unexpected,
}

-- The cases of the switch on the kind of a token.
pub data ValueKind : Type 0 where
  a_string a_number a_true a_false a_null a_param a_list an_ident no_value : ValueKind

abbrev pub value_kind : TokenType → ValueKind
value_kind t = elim t [
  | token_string ↦ a_string
  | token_number ↦ a_number
  | token_true ↦ a_true
  | token_false ↦ a_false
  | token_null ↦ a_null
  | token_param ↦ a_param
  | token_l_bracket ↦ a_list
  | token_ident ↦ an_ident
  | _ ↦ no_value
]

-- What stands behind an entry of a list.
pub data Separator : Type 0 where
  comma closing end_of_input other : Separator

abbrev pub separator : TokenType → Separator
separator t = elim t [
  | token_comma ↦ comma
  | token_r_bracket ↦ closing
  | token_eof ↦ end_of_input
  | _ ↦ other
]

abbrev pub is_comma : TokenType → Bool
is_comma t = elim t [ token_comma ↦ true | _ ↦ false ]

abbrev pub is_word_value : TokenType → Bool
is_word_value t = elim t [
  | token_ident ↦ true
  | token_string ↦ true
  | token_number ↦ true
  | _ ↦ false
]

abbrev pub read_float : List ℕ → Outcome Value
read_float literal = elim (parse_float literal) [
  | none ↦ err (number_error literal)
  | some f ↦ ok (float f)
]

abbrev pub read_int : List ℕ → Outcome Value
read_int literal = elim (parse_int literal) [
  | none ↦ err (number_error literal)
  | some i ↦ ok (integer i)
]

abbrev pub number_value : List ℕ → Outcome Value
number_value literal = if is_float literal then read_float literal else read_int literal

-- The values behind commas: a comma is taken also when no value is behind it.
unfoldable pub more_words : List Token → Values × List Token
more_words [] = (nil, [])
more_words (t ∷ []) = if is_comma t.token_type then (nil, []) else (nil, t ∷ [])
more_words (t ∷ v ∷ ts) =
    let (values, rest) = more_words ts in
    if is_comma t.token_type
    then if is_word_value v.token_type then (cons (text v.value) values, rest) else (nil, v ∷ ts)
    else (nil, t ∷ v ∷ ts)

-- An identifier alone, or a list with what is behind its commas.
abbrev pub ident_value : Parser → Value × Parser
ident_value p =
    let after = advance p in
    let (values, rest) = more_words after.tokens in
    if is_comma (kind after)
    then (array (cons (text (current p).value) values), record p { tokens = rest })
    else (text (current p).value, after)

-- An entry of a list and what stands behind it, with parsers of the entry and of the rest.
abbrev pub parse_item :
    (Parser → Outcome (Value × Parser))
    → (Parser → Outcome (Values × Parser))
    → Parser
    → Outcome (Values × Parser)
parse_item value more p = do
  (v, p') ← value p
  elim (separator (kind p')) [
    | comma ↦ do (vs, q) ← more (advance p'); ok (cons v vs, q)
    | closing ↦ do (vs, q) ← more p'; ok (cons v vs, q)
    | end_of_input ↦ unexpected p' ", or ]"
    | other ↦ unexpected p' ", or ]"
  ]

-- The loop of `parseList`.
unfoldable pub items_within :
    (Parser → Outcome (Value × Parser)) → ℕ → Parser → Outcome (Values × Parser)
items_within value zero p = out_of_fuel
items_within value (suc n) p = elim (separator (kind p)) [
  | comma ↦ parse_item value (items_within value n) p
  | closing ↦ ok (nil, p)
  | end_of_input ↦ ok (nil, p)
  | other ↦ parse_item value (items_within value n) p
]

abbrev pub close_list : Values → Parser → Outcome (Value × Parser)
close_list values p = elim (separator (kind p)) [
  | closing ↦ ok (array values, advance p)
  | _ ↦ unexpected p "]"
]

unfoldable pub value_within : ℕ → Parser → Outcome (Value × Parser)
value_within zero p = out_of_fuel
value_within (suc n) p = elim (value_kind (kind p)) [
  | a_string ↦ ok (text (current p).value, advance p)
  | a_number ↦ do v ← number_value (current p).value; ok (v, advance p)
  | a_true ↦ ok (boolean true, advance p)
  | a_false ↦ ok (boolean false, advance p)
  | a_null ↦ ok (null, advance p)
  | a_param ↦ ok (parameter (current p).value, advance p)
  | a_list ↦ do (values, p') ← items_within (value_within n) n (advance p); close_list values p'
  | an_ident ↦ ok (ident_value p)
  | no_value ↦ unexpected p "value"
]

-- Enough rounds for the tokens that are left.
abbrev pub fuel : Parser → ℕ
fuel p = 2 * length p.tokens + 3

unfoldable pub parse_value : Parser → Outcome (Value × Parser)
parse_value p = value_within (fuel p) p

unfoldable pub parse_int_token : Parser → Outcome (ℤ × Parser)
parse_int_token p = elim (value_kind (kind p)) [
  | a_number ↦ elim (parse_int (current p).value) [
    | none ↦ err (invalid_value (current p) "integer")
    | some i ↦ ok (i, advance p)
  ]
  | _ ↦ unexpected p "integer"
]
