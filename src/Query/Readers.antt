-- ===== src/Query/Readers.antt =====
-- internal/query/tokens.go: the readers of the lexer. Its input and position are held as the bytes from
-- the position on, beside a cursor with the position, the line and the column, so `l.pos <
-- len(l.input)` is whether bytes are left.
use codeai.Base.{
  ℕ, suc, Bool, true, false, ◌&&◌, ◌||◌, List, [], ◌∷◌, ◌++◌, Option, none, some, map, ◌==◌,
  if◌then◌else◌,
}
use codeai.Query.Tokens.{
  TokenType, token_error, token_ident, token_string, token_number, token_param, Token, codes,
  keywords, find_keyword, to_lower, is_digit, is_ident_start, is_ident_char,
}

pub record Cursor : Type 0 where
  pub pos : ℕ
  pub line : ℕ
  pub column : ℕ

-- `advance`, where a byte is left.
abbrev pub advance : Cursor → Cursor
advance c = record c { pos = suc c.pos; column = suc c.column }

-- Some bytes read, and where the lexer stands then.
pub record Piece : Type 0 where
  pub value : List ℕ
  pub rest : List ℕ
  pub cursor : Cursor

-- A token, and where the lexer stands then.
pub record Scanned : Type 0 where
  pub token : Token
  pub rest : List ℕ
  pub cursor : Cursor

abbrev pub make : TokenType → List ℕ → Cursor → List ℕ → Cursor → Scanned
make t value start rest cursor = record {
  token = record {
    token_type = t;
    value = value;
    pos = start.pos;
    line = start.line;
    column = start.column;
  };
  rest = rest;
  cursor = cursor;
}

abbrev pub is_blank : ℕ → Bool
is_blank ch = ch == b' ' || ch == 9 || ch == 13

abbrev pub newline : ℕ
newline = 10

abbrev pub past_blank : ℕ → Cursor → Cursor
past_blank ch c =
    if ch == newline then record (advance c) { line = suc c.line; column = 1 } else advance c

unfoldable pub skip_whitespace : List ℕ → Cursor → List ℕ × Cursor
skip_whitespace [] c = ([], c)
skip_whitespace (ch ∷ rest) c =
    let next = skip_whitespace rest (past_blank ch c) in
    if is_blank ch || ch == newline then next else (ch ∷ rest, c)

-- The loop that takes bytes of a class into the builder.
unfoldable pub read_while : (ℕ → Bool) → List ℕ → Cursor → Piece
read_while p [] c = record { value = []; rest = []; cursor = c }
read_while p (ch ∷ rest) c =
    let more = read_while p rest (advance c) in
    if p ch
    then record { value = ch ∷ more.value; rest = more.rest; cursor = more.cursor }
    else record { value = []; rest = ch ∷ rest; cursor = c }

abbrev pub unescape : ℕ → ℕ
unescape next =
    if next == b'n' then 10 else if next == b't' then 9 else if next == b'r' then 13 else next

abbrev pub past_char : ℕ → Cursor → Cursor
past_char ch c =
    if ch == newline then record c { pos = suc c.pos; line = suc c.line; column = 1 } else advance c

-- The body of a string, up to its closing quote: its value, or none if there is no such quote.
pub record Body : Type 0 where
  pub value : Option (List ℕ)
  pub rest : List ℕ
  pub cursor : Cursor

abbrev pub prepend : ℕ → Body → Body
prepend ch body = record body {
  value = elim body.value [ none ↦ none | some value ↦ some (ch ∷ value) ];
}

unfoldable pub read_body : ℕ → List ℕ → Cursor → Body
read_body quote [] c = record { value = none; rest = []; cursor = c }
read_body quote (ch ∷ []) c =
    if ch == quote
    then record { value = some []; rest = []; cursor = advance c }
    else record { value = none; rest = []; cursor = past_char ch c }
read_body quote (ch ∷ next ∷ rest) c =
    if ch == quote
    then record { value = some []; rest = next ∷ rest; cursor = advance c }
    else elim (ch == b'\\') [
      | true ↦ prepend (unescape next) (read_body quote rest (advance (advance c)))
      | false ↦ prepend ch (read_body quote (next ∷ rest) (past_char ch c))
    ]

-- From behind the opening quote, which stood at `start`.
unfoldable pub read_string : ℕ → List ℕ → Cursor → Scanned
read_string quote rest start =
    let body = read_body quote rest (advance start) in
    elim body.value [
      | none ↦ make token_error (codes "unterminated string") start body.rest body.cursor
      | some value ↦ make token_string value start body.rest body.cursor
    ]

-- The parts of a number: its sign, and what may stand behind its digits.
unfoldable pub read_sign : List ℕ → Cursor → Piece
read_sign [] c = record { value = []; rest = []; cursor = c }
read_sign (ch ∷ rest) c =
    if ch == b'-'
    then record { value = ch ∷ []; rest = rest; cursor = advance c }
    else record { value = []; rest = ch ∷ rest; cursor = c }

-- Two pieces, the second behind the first.
abbrev pub join : Piece → Piece → Piece
join first second = record {
  value = first.value ++ second.value;
  rest = second.rest;
  cursor = second.cursor;
}

unfoldable pub read_fraction : List ℕ → Cursor → Piece
read_fraction [] c = record { value = []; rest = []; cursor = c }
read_fraction (dot ∷ []) c = record { value = []; rest = dot ∷ []; cursor = c }
read_fraction (dot ∷ digit ∷ rest) c =
    let point : Piece = record { value = dot ∷ []; rest = digit ∷ rest; cursor = advance c } in
    if dot == b'.' && is_digit digit
    then join point (read_while is_digit (digit ∷ rest) (advance c))
    else record { value = []; rest = dot ∷ digit ∷ rest; cursor = c }

unfoldable pub read_exponent_sign : List ℕ → Cursor → Piece
read_exponent_sign [] c = record { value = []; rest = []; cursor = c }
read_exponent_sign (ch ∷ rest) c =
    if ch == b'+' || ch == b'-'
    then record { value = ch ∷ []; rest = rest; cursor = advance c }
    else record { value = []; rest = ch ∷ rest; cursor = c }

unfoldable pub read_exponent : List ℕ → Cursor → Piece
read_exponent [] c = record { value = []; rest = []; cursor = c }
read_exponent (ch ∷ rest) c =
    let letter : Piece = record { value = ch ∷ []; rest = rest; cursor = advance c } in
    let sign = read_exponent_sign rest (advance c) in
    if ch == b'e' || ch == b'E'
    then join letter (join sign (read_while is_digit sign.rest sign.cursor))
    else record { value = []; rest = ch ∷ rest; cursor = c }

unfoldable pub number_of : List ℕ → Cursor → Piece
number_of input c =
    let sign = read_sign input c in
    let digits = read_while is_digit sign.rest sign.cursor in
    let fraction = read_fraction digits.rest digits.cursor in
    let exponent = read_exponent fraction.rest fraction.cursor in
    join sign (join digits (join fraction exponent))

unfoldable pub read_number : List ℕ → Cursor → Scanned
read_number input c =
    let number = number_of input c in make token_number number.value c number.rest number.cursor

abbrev pub identifier_type : List ℕ → TokenType
identifier_type value = elim (find_keyword (map to_lower value) keywords) [
  | none ↦ token_ident
  | some t ↦ t
]

unfoldable pub read_identifier : List ℕ → Cursor → Scanned
read_identifier input c =
    let word = read_while is_ident_char input c in
    make (identifier_type word.value) word.value c word.rest word.cursor

-- From behind the `@` or `$`, which stood at `start`.
unfoldable pub read_param : List ℕ → Cursor → Scanned
read_param [] start = make token_error (codes "expected parameter name") start [] (advance start)
read_param (ch ∷ rest) start =
    let name = read_while is_ident_char (ch ∷ rest) (advance start) in
    if is_ident_start ch
    then make token_param name.value start name.rest name.cursor
    else make token_error (codes "expected parameter name") start (ch ∷ rest) (advance start)
