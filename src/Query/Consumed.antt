-- ===== src/Query/Consumed.antt =====
-- What the readers of internal/query/tokens.go take from the input, and how that spells a token.
use codeai.Base.{
  ℕ, ◌≢◌, ◌+◌, ◌<◌, ◌≡◌, refl, sym, ap, ◌∙◌, ◌⊎◌, Bool, true, false, ◌&&◌, ◌||◌, List, [], ◌∷◌,
  ◌++◌, ◌==◌, if◌then◌else◌, length, length-append, append_assoc, arith,
}
use codeai.Query.Tokens.{TokenType, token_eof, token_error, token_string, token_param, is_digit}
use codeai.Query.Readers.{
  Cursor, advance, Piece, Scanned, read_while, read_sign, join, read_fraction, read_exponent_sign,
  read_exponent, number_of,
}

-- How the bytes of a token spell its value.
pub data Shape : Type 0 where
  whole : Shape
  quoted : Shape
  prefixed : Shape
  unspelled : Shape
  empty : Shape

abbrev pub shape_of : TokenType → Shape
shape_of t = elim t [
  | token_eof ↦ empty
  | token_error ↦ unspelled
  | token_string ↦ quoted
  | token_param ↦ prefixed
  | _ ↦ whole
]

-- What a character behind a backslash stands for.
pub data Escape : ℕ → ℕ → Type 0 where
  line_feed : Escape b'n' 10
  tab : Escape b't' 9
  carriage_return : Escape b'r' 13
  itself : {ch : ℕ} → ch ≢ b'n' → ch ≢ b't' → ch ≢ b'r' → Escape ch ch

-- The bytes behind an opening quote, with the closing one, and the text that they stand for.
pub data Quoted (quote : ℕ) : List ℕ → List ℕ → Type 0 where
  closing : Quoted quote (quote ∷ []) []
  plain :
      {ch : ℕ} {bytes value : List ℕ}
      → ch ≢ quote
      → ch ≢ b'\\'
      → Quoted quote bytes value
      → Quoted quote (ch ∷ bytes) (ch ∷ value)
  escaped :
      {next ch : ℕ} {bytes value : List ℕ}
      → Escape next ch
      → Quoted quote bytes value
      → Quoted quote (b'\\' ∷ next ∷ bytes) (ch ∷ value)

-- The bytes are the value; or a body between two quotes, which stands for it; or the value behind `@` or `$`; or some bytes; or none.
abbrev pub Spells : Shape → List ℕ → List ℕ → Type 0
Spells whole bytes value = bytes ≡ value
Spells quoted bytes value =
    (quote : ℕ) × (body : List ℕ) × (bytes ≡ quote ∷ body)
    × Quoted quote body value
    × ((quote ≡ b'"') ⊎ (quote ≡ b'\''))
Spells prefixed bytes value =
    (sigil : ℕ) × (bytes ≡ sigil ∷ value) × ((sigil ≡ b'@') ⊎ (sigil ≡ b'$'))
Spells unspelled bytes value = Unit
Spells empty bytes value = bytes ≡ []

-- A piece's value is what it took from the input.
pub record Reads (input : List ℕ) (c : Cursor) (p : Piece) : Type 0 where
  pub split : input ≡ p.value ++ p.rest
  pub moved : p.cursor.pos ≡ c.pos + length p.value

-- From `c` on, the bytes `taken` are behind the lexer.
pub record Takes (input : List ℕ) (c : Cursor) (rest : List ℕ) (c' : Cursor) : Type 0 where
  pub taken : List ℕ
  pub split : input ≡ taken ++ rest
  pub moved : c'.pos ≡ c.pos + length taken

-- A token begins at the cursor, takes a byte or more, and spells its value by them.
pub record Scans (input : List ℕ) (c : Cursor) (s : Scanned) : Type 0 where
  pub takes : Takes input c s.rest s.cursor
  pub progress : 0 < length takes.taken
  pub placed : s.token.pos ≡ c.pos
  pub spelled : Spells (shape_of s.token.token_type) takes.taken s.token.value

pub if_elim {ℓ κ} :
    {A : Type ℓ} (P : A → Type κ) (b : Bool) {x y : A}
    → (b ≡ true → P x)
    → (b ≡ false → P y)
    → P (if b then x else y)
if_elim P true f g = f refl
if_elim P false f g = g refl

Reads-nothing :
    (input : List ℕ) (c : Cursor) → Reads input c (record { value = []; rest = input; cursor = c })
Reads-nothing input c = record { split = refl; moved = omega arith }

Reads-one :
    (ch : ℕ) (rest : List ℕ) (c : Cursor)
    → Reads (ch ∷ rest) c (record { value = ch ∷ []; rest = rest; cursor = advance c })
Reads-one ch rest c = record { split = refl; moved = omega arith }

Reads-join :
    (input : List ℕ) (c : Cursor) (p q : Piece)
    → Reads input c p
    → Reads p.rest p.cursor q
    → Reads input c (join p q)
Reads-join input c p q r s = record {
  split =
      r.split ∙ ap (λ rest. p.value ++ rest) s.split ∙ sym (append_assoc p.value q.value q.rest);
  moved = omega (arith, r.moved, s.moved, length-append p.value q.value);
}

pub read_while-Reads :
    (p : ℕ → Bool) (input : List ℕ) (c : Cursor) → Reads input c (read_while p input c)
unfolding read_while
read_while-Reads p [] c = Reads-nothing [] c
read_while-Reads p (ch ∷ rest) c =
    let more = read_while p rest (advance c) in
    if_elim (Reads (ch ∷ rest) c) (p ch)
      (λ t.
        Reads-join (ch ∷ rest) c _ more (Reads-one ch rest c) (read_while-Reads p rest (advance c)))
      (λ t. Reads-nothing (ch ∷ rest) c)

read_sign-Reads : (input : List ℕ) (c : Cursor) → Reads input c (read_sign input c)
unfolding read_sign
read_sign-Reads [] c = Reads-nothing [] c
read_sign-Reads (ch ∷ rest) c =
    if_elim (Reads (ch ∷ rest) c) (ch == b'-') (λ t. Reads-one ch rest c)
      (λ t. Reads-nothing (ch ∷ rest) c)

read_exponent_sign-Reads :
    (input : List ℕ) (c : Cursor) → Reads input c (read_exponent_sign input c)
unfolding read_exponent_sign
read_exponent_sign-Reads [] c = Reads-nothing [] c
read_exponent_sign-Reads (ch ∷ rest) c =
    if_elim (Reads (ch ∷ rest) c) (ch == b'+' || ch == b'-') (λ t. Reads-one ch rest c)
      (λ t. Reads-nothing (ch ∷ rest) c)

read_fraction-Reads : (input : List ℕ) (c : Cursor) → Reads input c (read_fraction input c)
unfolding read_fraction
read_fraction-Reads [] c = Reads-nothing [] c
read_fraction-Reads (dot ∷ []) c = Reads-nothing (dot ∷ []) c
read_fraction-Reads (dot ∷ digit ∷ rest) c =
    if_elim (Reads (dot ∷ digit ∷ rest) c) (dot == b'.' && is_digit digit)
      (λ t.
        Reads-join (dot ∷ digit ∷ rest) c _ _ (Reads-one dot (digit ∷ rest) c)
          (read_while-Reads is_digit (digit ∷ rest) (advance c)))
      (λ t. Reads-nothing (dot ∷ digit ∷ rest) c)

read_exponent-Reads : (input : List ℕ) (c : Cursor) → Reads input c (read_exponent input c)
unfolding read_exponent
read_exponent-Reads [] c = Reads-nothing [] c
read_exponent-Reads (ch ∷ rest) c =
    let sign = read_exponent_sign rest (advance c) in
    let digits = read_while is_digit sign.rest sign.cursor in
    if_elim (Reads (ch ∷ rest) c) (ch == b'e' || ch == b'E')
      (λ t. Reads-join (ch ∷ rest) c _ (join sign digits) (Reads-one ch rest c) (
        Reads-join rest (advance c) sign digits (read_exponent_sign-Reads rest (advance c))
          (read_while-Reads is_digit sign.rest sign.cursor)))
      (λ t. Reads-nothing (ch ∷ rest) c)

pub number_of-Reads : (input : List ℕ) (c : Cursor) → Reads input c (number_of input c)
unfolding number_of
number_of-Reads input c =
    let sign = read_sign input c in
    let digits = read_while is_digit sign.rest sign.cursor in
    let fraction = read_fraction digits.rest digits.cursor in
    let exponent = read_exponent fraction.rest fraction.cursor in
    Reads-join input c sign (join digits (join fraction exponent)) (read_sign-Reads input c) (
      Reads-join sign.rest sign.cursor digits (join fraction exponent)
        (read_while-Reads is_digit sign.rest sign.cursor)
        (Reads-join digits.rest digits.cursor fraction exponent
          (read_fraction-Reads digits.rest digits.cursor)
          (read_exponent-Reads fraction.rest fraction.cursor)))
