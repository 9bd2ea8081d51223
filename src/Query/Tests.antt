-- ===== src/Query/Tests.antt =====
-- The lexer of internal/query/tokens.go on concrete texts.
use codeai.Base.{ℕ, ◌≡◌, refl, inr, List, [], ◌∷◌, ◌++◌, Option, none, some, map}
use codeai.Query.Tokens.{
  TokenType, token_error, token_ident, token_greater_eq, token_number, token_and, token_string,
  token_equals, Token, codes, to_lower, is_digit, is_letter, is_ident_start, is_ident_char,
}
use codeai.Query.Readers.{
  skip_whitespace, read_while, read_body, read_string, number_of, read_number, read_sign,
  read_fraction, read_exponent_sign, read_exponent, read_identifier, read_param,
}
use codeai.Query.Lexer.{
  LexerError, tokenize, tokenize_within, next_token, scan, read_bang, read_greater, read_less,
  new_cursor,
}
use codeai.Query.Tokenized.{IsTokenized, tokenize-IsTokenized}
use codeai.Query.Strings.{escape, IsString, next_token-escape}

types : Option (List Token × Option LexerError) → List TokenType
types none = []
types (some (tokens, err)) = map (λ (t : Token). t.token_type) tokens

lines : Option (List Token × Option LexerError) → List ℕ
lines none = []
lines (some (tokens, err)) = map (λ (t : Token). t.line) tokens

abbrev query : List ℕ
query = codes "age >= 1.5e3 And name='x' @"

splits_query :
    types (tokenize query)
    ≡ token_ident ∷ token_greater_eq ∷ token_number ∷ token_and ∷ token_ident ∷ token_equals
      ∷ token_string ∷ token_error ∷ []
unfolding types tokenize tokenize_within next_token skip_whitespace scan read_while read_body
    read_string number_of read_number read_sign read_fraction read_exponent_sign read_exponent
    read_identifier read_param read_bang read_greater read_less to_lower is_digit is_letter
    is_ident_start is_ident_char
splits_query = refl

-- A line break behind a backslash is not counted: `b` stands on the second line.
counts_no_escaped_line : lines (tokenize (b'"' ∷ b'\\' ∷ 10 ∷ b'"' ∷ codes "b")) ≡ 1 ∷ 1 ∷ 1 ∷ []
unfolding lines tokenize tokenize_within next_token skip_whitespace scan read_while read_body
    read_string number_of read_number read_identifier to_lower is_digit is_letter is_ident_start
    is_ident_char
counts_no_escaped_line = refl

tokenize-IsTokenized_example : IsTokenized query 0 (tokenize query)
tokenize-IsTokenized_example = tokenize-IsTokenized query

next_token-escape_example :
    IsString
      (codes "it's")
      (codes " b")
      new_cursor
      (next_token (b'\'' ∷ escape b'\'' (codes "it's") ++ b'\'' ∷ codes " b") new_cursor)
next_token-escape_example =
    next_token-escape b'\'' (codes "it's") (codes " b") new_cursor (inr refl)
