-- ===== src/Query/Parser/State.antt =====
-- The state of the parser of internal/query/parser.go, its errors, and a result that a bind chains.
use codeai.Base.{ℕ, Bool, true, false, List, [], ◌∷◌, String}
use codeai.Query.Tokens.{
  TokenType, token_eof, token_count, token_sum, token_avg, token_min, token_max, token_from,
  token_where, token_and, token_or, token_not, token_in, token_is, token_null, token_order,
  token_by, token_asc, token_desc, token_limit, token_offset, token_with, token_include, token_set,
  token_true, token_false, token_like, token_ilike, token_between, token_having, token_group,
  token_contains, token_starts_with, token_ends_with, token_select, token_update, token_delete,
  token_ident, Token,
}

-- The tokens from `pos` on; there is no way back in them.
pub record Parser : Type 0 where
  pub tokens : List Token
  pub depth : ℕ

abbrev pub max_depth : ℕ
max_depth = 10

-- A token error names the token and what was expected in its place.
pub data ParseError : Type 0 where
  unexpected_eof : String → ParseError
  unexpected_token : Token → String → ParseError
  nested_group_depth : ℕ → ParseError
  invalid_value : Token → String → ParseError
  -- The error of `strconv` for a literal.
  number_error : List ℕ → ParseError

pub data Outcome {ℓ} (A : Type ℓ) : Type ℓ where
  ok : A → Outcome A
  err : ParseError → Outcome A
  out_of_fuel : Outcome A

infixl 5 ◌>>=◌
abbrev pub ◌>>=◌ {ℓ κ} : {A : Type ℓ} {B : Type κ} → Outcome A → (A → Outcome B) → Outcome B
ok a >>= f = f a
err e >>= f = err e
out_of_fuel >>= f = out_of_fuel

abbrev pub no_token : Token
no_token = record { token_type = token_eof; value = []; pos = 0; line = 0; column = 0 }

abbrev pub first : List Token → Token
first [] = no_token
first (t ∷ ts) = t

abbrev pub current : Parser → Token
current p = first p.tokens

abbrev pub kind : Parser → TokenType
kind p = (current p).token_type

abbrev pub behind : List Token → List Token
behind [] = []
behind (t ∷ ts) = ts

abbrev pub advance : Parser → Parser
advance p = record p { tokens = behind p.tokens }

abbrev pub peek : Parser → Token
peek p = first (behind p.tokens)

abbrev pub new_parser : List Token → Parser
new_parser tokens = record { tokens = tokens; depth = 0 }

abbrev pub is_eof : TokenType → Bool
is_eof t = elim t [ token_eof ↦ true | _ ↦ false ]

abbrev pub unexpected {ℓ} : {A : Type ℓ} → Parser → String → Outcome A
unexpected p expected = err (unexpected_token (current p) expected)

abbrev pub is_word : TokenType → Bool
is_word t = elim t [
  | token_ident ↦ true
  | token_count ↦ true
  | token_sum ↦ true
  | token_avg ↦ true
  | token_min ↦ true
  | token_max ↦ true
  | token_from ↦ true
  | token_where ↦ true
  | token_and ↦ true
  | token_or ↦ true
  | token_not ↦ true
  | token_in ↦ true
  | token_is ↦ true
  | token_null ↦ true
  | token_order ↦ true
  | token_by ↦ true
  | token_asc ↦ true
  | token_desc ↦ true
  | token_limit ↦ true
  | token_offset ↦ true
  | token_with ↦ true
  | token_include ↦ true
  | token_set ↦ true
  | token_true ↦ true
  | token_false ↦ true
  | token_like ↦ true
  | token_ilike ↦ true
  | token_between ↦ true
  | token_having ↦ true
  | token_group ↦ true
  | token_contains ↦ true
  | token_starts_with ↦ true
  | token_ends_with ↦ true
  | token_select ↦ true
  | token_update ↦ true
  | token_delete ↦ true
  | _ ↦ false
]

-- Whether the current token serves as an identifier.
abbrev pub is_identifier_or_keyword : Parser → Bool
is_identifier_or_keyword p = is_word (kind p)
