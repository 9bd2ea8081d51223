-- ===== src/Query/Strings.antt =====
-- The string literals of internal/query/tokens.go, read and written.
use codeai.Base.{
  ℕ, ◌≡◌, refl, sym, ap, ◌⊎◌, inl, inr, Bool, true, false, ◌||◌, Bool-cases, List, [], ◌∷◌, ◌++◌,
  some, ◌==◌, if◌then◌else◌, arith, subst,
}
use codeai.Query.Tokens.{token_string}
use codeai.Query.Readers.{
  Cursor, Body, advance, past_char, unescape, prepend, read_body, read_string, Scanned,
  skip_whitespace,
}
use codeai.Query.Lexer.{scan, next_token}
use codeai.Query.Consumed.{if_elim}
use codeai.Query.Progress.{eq→≡, or_split}

-- A text as the body of a literal: a backslash in front of each quote and backslash.
unfoldable pub escape : ℕ → List ℕ → List ℕ
escape quote [] = []
escape quote (ch ∷ s) =
    let rest = escape quote s in if ch == quote || ch == b'\\' then b'\\' ∷ ch ∷ rest else ch ∷ rest

-- The body was read whole, up to `rest`.
record Closes (s rest : List ℕ) (b : Body) : Type 0 where
  value_eq : b.value ≡ some s
  rest_eq : b.rest ≡ rest

read_body-close :
    (quote : ℕ) (rest : List ℕ) (c : Cursor) → Closes [] rest (read_body quote (quote ∷ rest) c)
unfolding read_body
read_body-close quote [] c =
    if_elim (Closes [] []) (quote == quote) (λ t. record { value_eq = refl; rest_eq = refl })
      (λ t. ground arith)
read_body-close quote (ch ∷ rest) c =
    if_elim (Closes [] (ch ∷ rest)) (quote == quote)
      (λ t. record { value_eq = refl; rest_eq = refl }) (λ t. ground arith)

Closes-prepend_as :
    (byte ch : ℕ) (s rest : List ℕ) (b : Body)
    → byte ≡ ch
    → Closes s rest b
    → Closes (ch ∷ s) rest (prepend byte b)
Closes-prepend_as byte ch s rest b e h = record {
  value_eq = rw (h.value_eq, e) refl;
  rest_eq = h.rest_eq;
}

read_body-plain :
    (quote ch next : ℕ) (input : List ℕ) (c : Cursor)
    → (ch == quote) ≡ false
    → (ch == b'\\') ≡ false
    → read_body quote (ch ∷ next ∷ input) c
      ≡ prepend ch (read_body quote (next ∷ input) (past_char ch c))
unfolding read_body
read_body-plain quote ch next input c h k = rw (h, k, read_body) refl

read_body-escaped :
    (quote ch : ℕ) (input : List ℕ) (c : Cursor)
    → (b'\\' == quote) ≡ false
    → read_body quote (b'\\' ∷ ch ∷ input) c
      ≡ prepend (unescape ch) (read_body quote input (advance (advance c)))
unfolding read_body
read_body-escaped quote ch input c h = rw (h, read_body) refl

escape-special :
    (quote ch : ℕ) (s : List ℕ)
    → (ch == quote) || (ch == b'\\') ≡ true
    → escape quote (ch ∷ s) ≡ b'\\' ∷ ch ∷ escape quote s
unfolding escape
escape-special quote ch s h = rw (h, escape) refl

escape-plain :
    (quote ch : ℕ) (s : List ℕ)
    → (ch == quote) || (ch == b'\\') ≡ false
    → escape quote (ch ∷ s) ≡ ch ∷ escape quote s
unfolding escape
escape-plain quote ch s h = rw (h, escape) refl

-- What follows a character of a literal is not empty.
escape-cons :
    (quote : ℕ) (s rest : List ℕ)
    → (next : ℕ) × (more : List ℕ) × (escape quote s ++ quote ∷ rest ≡ next ∷ more)
unfolding escape
escape-cons quote [] rest = (quote, rest, refl)
escape-cons quote (ch ∷ s) rest = elim (Bool-cases (ch == quote || ch == b'\\')) [
  | inl e ↦ (
    b'\\',
    ch ∷ escape quote s ++ quote ∷ rest,
    ap (λ body. body ++ quote ∷ rest) (escape-special quote ch s e),
  )
  | inr e ↦ (
    ch,
    escape quote s ++ quote ∷ rest,
    ap (λ body. body ++ quote ∷ rest) (escape-plain quote ch s e),
  )
]

or_false : (a b : Bool) → a || b ≡ false → (a ≡ false) × (b ≡ false)
or_false true b h = cc h
or_false false b h = (refl, h)

module _ (quote : ℕ) (not_backslash : (b'\\' == quote) ≡ false)
    (itself : unescape quote ≡ quote) where
  unescape-special : (ch : ℕ) → (ch == quote) || (ch == b'\\') ≡ true → unescape ch ≡ ch
  unescape-special ch h = elim (or_split (ch == quote) (ch == b'\\') h) [
    | inl e ↦ rw (eq→≡ ch quote e) itself
    | inr e ↦ rw (eq→≡ ch b'\\' e) refl
  ]

  read_body-escape :
      (s rest : List ℕ) (c : Cursor)
      → Closes s rest (read_body quote (escape quote s ++ quote ∷ rest) c)
  unfolding escape
  read_body-escape [] rest c = read_body-close quote rest c
  read_body-escape (ch ∷ s) rest c = elim (Bool-cases (ch == quote || ch == b'\\')) [
    | inl e ↦
        let ih = read_body-escape s rest (advance (advance c)) in
        Literal (escape-special quote ch s e) (
          subst (Closes (ch ∷ s) rest)
            (sym (read_body-escaped quote ch (escape quote s ++ quote ∷ rest) c not_backslash))
            (Closes-prepend_as (unescape ch) ch s rest _ (unescape-special ch e) ih))
    | inr e ↦
        let (next, more, shape) = escape-cons quote s rest in
        let (not_quote, plain) = or_false (ch == quote) (ch == b'\\') e in
        let ih = read_body-escape s rest (past_char ch c) in
        Literal (escape-plain quote ch s e) (
          subst (λ i. Closes (ch ∷ s) rest (read_body quote (ch ∷ i) c)) (sym shape)
            (subst (Closes (ch ∷ s) rest)
              (sym (read_body-plain quote ch next more c not_quote plain))
              (Closes-prepend_as ch ch s rest _ refl
                (subst (λ i. Closes s rest (read_body quote i (past_char ch c))) shape ih))))
  ]
    where
      Literal :
          {body : List ℕ}
          → escape quote (ch ∷ s) ≡ body
          → Closes (ch ∷ s) rest (read_body quote (body ++ quote ∷ rest) c)
          → Closes (ch ∷ s) rest (read_body quote (escape quote (ch ∷ s) ++ quote ∷ rest) c)
      Literal e h =
          subst (λ body. Closes (ch ∷ s) rest (read_body quote (body ++ quote ∷ rest) c)) (sym e) h

-- The string token with the value `s`, from `c` on, with `rest` behind it.
pub record IsString (s rest : List ℕ) (c : Cursor) (scanned : Scanned) : Type 0 where
  pub type_eq : scanned.token.token_type ≡ token_string
  pub value_eq : scanned.token.value ≡ s
  pub pos_eq : scanned.token.pos ≡ c.pos
  pub rest_eq : scanned.rest ≡ rest

read_string-IsString :
    (quote : ℕ) (body s rest : List ℕ) (c : Cursor)
    → Closes s rest (read_body quote body (advance c))
    → IsString s rest c (read_string quote body c)
unfolding read_string
read_string-IsString quote body s rest c h =
    rw (h.value_eq, read_string)
      (record { type_eq = refl; value_eq = refl; pos_eq = refl; rest_eq = h.rest_eq })

-- Any bytes, written between double or between single quotes with a backslash in front of each such
-- quote and each backslash, are read back by nextToken: it gives a string token at the cursor with
-- those bytes as its value, and the lexer stands behind the closing quote.
pub next_token-escape :
    (quote : ℕ) (s rest : List ℕ) (c : Cursor)
    → (quote ≡ b'"') ⊎ (quote ≡ b'\'')
    → IsString s rest c (next_token (quote ∷ escape quote s ++ quote ∷ rest) c)
unfolding next_token skip_whitespace scan
next_token-escape quote s rest c (inl e) =
    subst (λ q. IsString s rest c (next_token (q ∷ escape q s ++ q ∷ rest) c)) (sym e)
      (read_string-IsString b'"' (escape b'"' s ++ b'"' ∷ rest) s rest c
        (read_body-escape b'"' refl refl s rest (advance c)))
next_token-escape quote s rest c (inr e) =
    subst (λ q. IsString s rest c (next_token (q ∷ escape q s ++ q ∷ rest) c)) (sym e)
      (read_string-IsString b'\'' (escape b'\'' s ++ b'\'' ∷ rest) s rest c
        (read_body-escape b'\'' refl refl s rest (advance c)))
