-- ===== src/Query/Lexer.antt =====
-- internal/query/tokens.go: `nextToken` and `Tokenize`, on the readers beside this file.
use codeai.Base.{
  ℕ, zero, suc, Bool, true, false, ◌&&◌, ◌||◌, List, [], ◌∷◌, ◌++◌, Option, none, some, ◌==◌,
  if◌then◌else◌, length,
}
use codeai.Query.Tokens.{
  TokenType, token_eof, token_error, token_equals, token_not_equals, token_greater,
  token_greater_eq, token_less, token_less_eq, token_l_paren, token_r_paren, token_l_bracket,
  token_r_bracket, token_comma, token_dot, token_colon, token_tilde, Token, codes, is_digit,
  is_ident_start, utf8,
}
use codeai.Query.Readers.{
  Cursor, advance, Scanned, make, skip_whitespace, read_string, read_number, read_identifier,
  read_param,
}

-- The cases of the switch with a token of one byte.
abbrev pub single_bytes : List (ℕ × TokenType)
single_bytes =
    (b'(', token_l_paren)
    ∷ (b')', token_r_paren)
    ∷ (b'[', token_l_bracket)
    ∷ (b']', token_r_bracket)
    ∷ (b',', token_comma)
    ∷ (b'.', token_dot)
    ∷ (b':', token_colon)
    ∷ (b'~', token_tilde)
    ∷ (b'=', token_equals)
    ∷ []

abbrev pub find_byte : ℕ → List (ℕ × TokenType) → Option TokenType
find_byte ch [] = none
find_byte ch ((b, t) ∷ rest) = if ch == b then some t else find_byte ch rest

-- Behind `!`, `>` and `<`, which stood at `start`.
unfoldable pub read_bang : List ℕ → Cursor → Scanned
read_bang [] start = make token_error (codes "unexpected character '!'") start [] (advance start)
read_bang (ch ∷ rest) start =
    if ch == b'='
    then make token_not_equals (codes "!=") start rest (advance (advance start))
    else make token_error (codes "unexpected character '!'") start (ch ∷ rest) (advance start)

unfoldable pub read_greater : List ℕ → Cursor → Scanned
read_greater [] start = make token_greater (codes ">") start [] (advance start)
read_greater (ch ∷ rest) start =
    if ch == b'='
    then make token_greater_eq (codes ">=") start rest (advance (advance start))
    else make token_greater (codes ">") start (ch ∷ rest) (advance start)

unfoldable pub read_less : List ℕ → Cursor → Scanned
read_less [] start = make token_less (codes "<") start [] (advance start)
read_less (ch ∷ rest) start =
    if ch == b'='
    then make token_less_eq (codes "<=") start rest (advance (advance start))
    else if ch == b'>'
    then make token_not_equals (codes "<>") start rest (advance (advance start))
    else make token_less (codes "<") start (ch ∷ rest) (advance start)

abbrev pub starts_with_digit : List ℕ → Bool
starts_with_digit [] = false
starts_with_digit (ch ∷ rest) = is_digit ch

-- `nextToken` behind the blanks, with a byte left.
unfoldable pub scan : ℕ → List ℕ → Cursor → Scanned
scan ch rest c = elim (find_byte ch single_bytes) [
  | some t ↦ make t (ch ∷ []) c rest (advance c)
  | none ↦
      if ch == b'!'
      then read_bang rest c
      else if ch == b'>'
      then read_greater rest c
      else if ch == b'<'
      then read_less rest c
      else if ch == b'"' || ch == b'\''
      then read_string ch rest c
      else if ch == b'@' || ch == b'$'
      then read_param rest c
      else if is_digit ch || (ch == b'-' && starts_with_digit rest)
      then read_number (ch ∷ rest) c
      else if is_ident_start ch
      then read_identifier (ch ∷ rest) c
      else make token_error (codes "unexpected character '" ++ utf8 ch ++ codes "'") c rest
          (advance c)
]

unfoldable pub next_token : List ℕ → Cursor → Scanned
next_token input c =
    let (input', c') = skip_whitespace input c in
    elim input' [ [] ↦ make token_eof [] c' [] c' | ch ∷ rest ↦ scan ch rest c' ]

-- The error of `Tokenize` names the line, the column and the value of the error token.
pub record LexerError : Type 0 where
  pub line : ℕ
  pub column : ℕ
  pub text : List ℕ

abbrev pub error_at : Token → LexerError
error_at t = record { line = t.line; column = t.column; text = t.value }

abbrev pub is_eof : TokenType → Bool
is_eof t = elim t [ token_eof ↦ true | _ ↦ false ]

abbrev pub is_error : TokenType → Bool
is_error t = elim t [ token_error ↦ true | _ ↦ false ]

abbrev pub prepend_token : Token → List Token × Option LexerError → List Token × Option LexerError
prepend_token t (tokens, err) = (t ∷ tokens, err)

-- The body of the loop of `Tokenize`, with what the rounds behind it give.
abbrev pub after_token :
    Token → Option (List Token × Option LexerError) → Option (List Token × Option LexerError)
after_token tok rest =
    if is_eof tok.token_type
    then some (tok ∷ [], none)
    else if is_error tok.token_type
    then some (tok ∷ [], some (error_at tok))
    else elim rest [ none ↦ none | some out ↦ some (prepend_token tok out) ]

-- The loop of `Tokenize`, of at most `fuel` rounds.
unfoldable pub tokenize_within : ℕ → List ℕ → Cursor → Option (List Token × Option LexerError)
tokenize_within zero input c = none
tokenize_within (suc fuel) input c =
    let next = next_token input c in
    after_token next.token (tokenize_within fuel next.rest next.cursor)

abbrev pub new_cursor : Cursor
new_cursor = record { pos = 0; line = 1; column = 1 }

-- `Tokenize` of a new lexer.
unfoldable pub tokenize : List ℕ → Option (List Token × Option LexerError)
tokenize input = tokenize_within (suc (length input)) input new_cursor
