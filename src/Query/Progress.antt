-- ===== src/Query/Progress.antt =====
-- The bytes that strings, numbers and words take in internal/query/tokens.go, and that some are taken.
use codeai.Base.{
  ℕ, ◌<◌, ◌≡◌, refl, ◌⊎◌, inl, inr, Bool, true, false, ◌&&◌, ◌||◌, List, [], ◌∷◌, Option, none,
  some, map, ◌==◌, length, length-append, Bool-cases, all, arith,
}
use codeai.Query.Tokens.{
  TokenType, token_ident, keywords, find_keyword, bytes_eq, to_lower, is_digit, is_letter,
  is_ident_start, is_ident_char,
}
use codeai.Query.Readers.{Cursor, Piece, make, read_while, read_sign, number_of, identifier_type}
use codeai.Query.Lexer.{starts_with_digit}
use codeai.Query.Consumed.{
  Shape, whole, quoted, prefixed, unspelled, empty, shape_of, Reads, Scans, if_elim,
}

pub eq→≡ : (a b : ℕ) → (a == b) ≡ true → a ≡ b
eq→≡ a b h = ground arith

-- A token whose bytes are its value.
pub Scans-piece :
    (t : TokenType) (input : List ℕ) (c : Cursor) (p : Piece)
    → shape_of t ≡ whole
    → Reads input c p
    → 0 < length p.value
    → Scans input c (make t p.value c p.rest p.cursor)
Scans-piece t input c p w r more = record {
  takes = record { taken = p.value; split = r.split; moved = r.moved };
  progress = more;
  placed = refl;
  spelled = rw w refl;
}

unfoldable pub is_whole : Shape → Bool
is_whole shape = elim shape [ whole ↦ true | _ ↦ false ]

pub is_whole→eq : (shape : Shape) → is_whole shape ≡ true → shape ≡ whole
unfolding is_whole
is_whole→eq whole h = refl
is_whole→eq quoted h = cc h
is_whole→eq prefixed h = cc h
is_whole→eq unspelled h = cc h
is_whole→eq empty h = cc h

pub and_split : (a b : Bool) → a && b ≡ true → (a ≡ true) × (b ≡ true)
and_split true b h = (refl, h)
and_split false b h = cc h

pub find_keyword-whole :
    (word : List ℕ) (table : List (List ℕ × TokenType))
    → all (λ (row : List ℕ × TokenType). is_whole (shape_of row.1)) table ≡ true
    → shape_of (elim (find_keyword word table) [ none ↦ token_ident | some t ↦ t ]) ≡ whole
find_keyword-whole word [] h = refl
find_keyword-whole word ((k, t) ∷ rest) h =
    let (here, later) = and_split (is_whole (shape_of t)) _ h in
    if_elim
      (λ (o : Option TokenType). shape_of (elim o [ none ↦ token_ident | some s ↦ s ]) ≡ whole)
      (bytes_eq k word) (λ e. is_whole→eq (shape_of t) here)
      (λ e. find_keyword-whole word rest later)

pub identifier_type-whole : (value : List ℕ) → shape_of (identifier_type value) ≡ whole
unfolding is_whole
identifier_type-whole value = find_keyword-whole (map to_lower value) keywords refl

pub or_split : (a b : Bool) → a || b ≡ true → (a ≡ true) ⊎ (b ≡ true)
or_split true b h = inl refl
or_split false b h = inr h

pub is_ident_start→char : (ch : ℕ) → is_ident_start ch ≡ true → is_ident_char ch ≡ true
unfolding is_ident_start is_ident_char
is_ident_start→char ch h = elim (or_split (is_letter ch) (ch == b'_') h) [
  | inl e ↦ rw e refl
  | inr e ↦ ground (arith, e)
]

pub read_while-progress :
    (p : ℕ → Bool) (ch : ℕ) (rest : List ℕ) (c : Cursor)
    → p ch ≡ true
    → 0 < length (read_while p (ch ∷ rest) c).value
unfolding read_while
read_while-progress p ch rest c h = rw h (omega arith)

pub number_of-progress :
    (ch : ℕ) (rest : List ℕ) (c : Cursor)
    → is_digit ch || (ch == b'-' && starts_with_digit rest) ≡ true
    → 0 < length (number_of (ch ∷ rest) c).value
unfolding number_of read_sign
number_of-progress ch rest c h = elim (Bool-cases (ch == b'-')) [
  | inl e ↦ rw e (omega arith)
  | inr e ↦
      let digit : is_digit ch ≡ true =
        elim (or_split (is_digit ch) (ch == b'-' && starts_with_digit rest) h) [
          | inl d ↦ d
          | inr d ↦ cc ((and_split (ch == b'-') (starts_with_digit rest) d).0, e)
        ] in
      let some_digit = read_while-progress is_digit ch rest c digit in
      rw e
        (rw (length-append (read_while is_digit (ch ∷ rest) c).value _) (omega (arith, some_digit)))
]
