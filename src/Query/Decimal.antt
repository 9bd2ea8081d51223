-- ===== src/Query/Decimal.antt =====
-- Decimal digits, as `fmt` writes them, and what internal/query/parser.go reads of them.
use codeai.Base.{
  ℕ, zero, suc, ◌+◌, ◌*◌, ◌/◌, ◌%◌, ◌^◌, ◌<◌, ◌≡◌, refl, ap, ◌∙◌, Bool, true, false, ◌||◌, List, [],
  ◌∷◌, some, ltb, leb, ◌==◌, if◌then◌else◌, arith,
}
use codeai.Query.Tokens.{is_digit}
use codeai.Query.Lexer.{starts_with_digit}
use codeai.Query.Consumed.{if_elim}
use codeai.Query.Ast.{ℤ, pos, negsuc}
use codeai.Query.Parser.Numbers.{
  read_digits, parse_digits, non_negative, negative, parse_int, any_byte, is_float,
}

-- The digits of `n` in front of `behind`.
unfoldable pub decimal_within : ℕ → ℕ → List ℕ → List ℕ
decimal_within zero n behind = behind
decimal_within (suc fuel) n behind =
    let digits = (b'0' + n % 10) ∷ behind in
    let more = decimal_within fuel (n / 10) digits in if ltb n 10 then digits else more

unfoldable pub decimal : ℕ → List ℕ
decimal n = decimal_within (suc n) n []

abbrev pub signed_decimal : ℤ → List ℕ
signed_decimal (pos n) = decimal n
signed_decimal (negsuc n) = b'-' ∷ decimal (suc n)

digit-is_digit : (n : ℕ) → is_digit (b'0' + n % 10) ≡ true
unfolding is_digit
digit-is_digit n = ground arith

read_digits-digit :
    (acc n : ℕ) (rest : List ℕ)
    → read_digits acc ((b'0' + n % 10) ∷ rest) ≡ read_digits (acc * 10 + n % 10) rest
unfolding read_digits
read_digits-digit acc n rest = rw (digit-is_digit n) (ap (λ a. read_digits a rest) (omega arith))

parse_digits-decimal_within :
    (fuel n : ℕ) (behind : List ℕ)
    → n < fuel
    → parse_digits (decimal_within fuel n behind) ≡ read_digits n behind
unfolding decimal_within parse_digits
parse_digits-decimal_within zero n behind h = elim h [ ]
parse_digits-decimal_within (suc fuel) n behind h =
    if_elim (λ digits. parse_digits digits ≡ read_digits n behind) (ltb n 10)
      (λ e. read_digits-digit 0 n behind ∙ ap (λ a. read_digits a behind) (ground arith))
      (λ e.
        parse_digits-decimal_within fuel (n / 10) ((b'0' + n % 10) ∷ behind) (ground arith)
        ∙ read_digits-digit (n / 10) n behind
        ∙ ap (λ a. read_digits a behind) (ground arith))

pub parse_digits-decimal : (n : ℕ) → parse_digits (decimal n) ≡ some n
unfolding decimal read_digits
parse_digits-decimal n = parse_digits-decimal_within (suc n) n [] (omega arith)

-- What holds of each digit holds of the first, and what no digit has, none has.
starts_with_digit-decimal : (n : ℕ) → starts_with_digit (decimal n) ≡ true
unfolding decimal decimal_within
starts_with_digit-decimal n = within (suc n) n [] (omega arith)
  where
    within :
        (fuel n : ℕ) (behind : List ℕ)
        → n < fuel
        → starts_with_digit (decimal_within fuel n behind) ≡ true
    within zero n behind h = elim h [ ]
    within (suc fuel) n behind h =
        if_elim (λ digits. starts_with_digit digits ≡ true) (ltb n 10) (λ e. digit-is_digit n)
          (λ e. within fuel (n / 10) ((b'0' + n % 10) ∷ behind) (ground arith))

abbrev marks_float : ℕ → Bool
marks_float ch = ch == b'.' || ch == b'e' || ch == b'E'

is_float-decimal_within :
    (fuel n : ℕ) (behind : List ℕ)
    → any_byte marks_float behind ≡ false
    → any_byte marks_float (decimal_within fuel n behind) ≡ false
unfolding decimal_within
is_float-decimal_within zero n behind h = h
is_float-decimal_within (suc fuel) n behind h =
    let plain : marks_float (b'0' + n % 10) ≡ false = ground arith in
    if_elim (λ digits. any_byte marks_float digits ≡ false) (ltb n 10) (λ e. rw plain h)
      (λ e. is_float-decimal_within fuel (n / 10) ((b'0' + n % 10) ∷ behind) (rw plain h))

pub is_float-signed_decimal : (i : ℤ) → is_float (signed_decimal i) ≡ false
unfolding decimal
is_float-signed_decimal (pos n) = is_float-decimal_within (suc n) n [] refl
is_float-signed_decimal (negsuc n) = is_float-decimal_within (suc (suc n)) (suc n) [] refl

parse_int-digits :
    (digits : List ℕ)
    → starts_with_digit digits ≡ true
    → parse_int digits ≡ non_negative (parse_digits digits)
unfolding parse_int is_digit
parse_int-digits [] h = cc h
parse_int-digits (ch ∷ rest) h =
    let plain : (ch == b'-' ≡ false) × (ch == b'+' ≡ false) = ground arith in rw (plain.0, plain.1)

-- The numbers of 64 bits.
abbrev pub IsInt64 : ℤ → Type 0
IsInt64 (pos n) = n < 2 ^ 63
IsInt64 (negsuc n) = n < 2 ^ 63

-- `strconv.ParseInt` reads what `fmt` writes, for each number of 64 bits.
pub parse_int-signed_decimal : (i : ℤ) → IsInt64 i → parse_int (signed_decimal i) ≡ some i
unfolding parse_int
parse_int-signed_decimal (pos n) h =
    let in_range : ltb n (2 ^ 63) ≡ true = ground arith in
    parse_int-digits (decimal n) (starts_with_digit-decimal n)
    ∙ ap non_negative (parse_digits-decimal n)
    ∙ rw in_range
parse_int-signed_decimal (negsuc n) h =
    let in_range : leb (suc n) (2 ^ 63) ≡ true = ground arith in
    ap negative (parse_digits-decimal (suc n)) ∙ rw in_range
