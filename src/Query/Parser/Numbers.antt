-- ===== src/Query/Parser/Numbers.antt =====
-- `strconv.ParseInt` in base 10 with 64 bits, which `strconv.Atoi` is too, and the literals that
-- `strconv.ParseFloat` accepts, of those that the lexer reads.
use codeai.Base.{
  ℕ, zero, suc, ◌+◌, ◌-◌, ◌*◌, ◌^◌, Bool, true, false, ◌||◌, List, [], ◌∷◌, ◌++◌, Option, none,
  some, leb, ltb, ◌==◌, if◌then◌else◌, length,
}
use codeai.Query.Tokens.{is_digit}
use codeai.Query.Ast.{ℤ, pos, negsuc}

-- The number that decimal digits write, behind the digits of `acc`; none at another byte.
unfoldable pub read_digits : ℕ → List ℕ → Option ℕ
read_digits acc [] = some acc
read_digits acc (ch ∷ rest) =
    let further = read_digits (acc * 10 + (ch - b'0')) rest in if is_digit ch then further else none

-- At least one digit.
unfoldable pub parse_digits : List ℕ → Option ℕ
parse_digits [] = none
parse_digits (ch ∷ rest) = read_digits 0 (ch ∷ rest)

abbrev pub non_negative : Option ℕ → Option ℤ
non_negative none = none
non_negative (some n) = if ltb n (2 ^ 63) then some (pos n) else none

abbrev pub opposite : ℕ → ℤ
opposite zero = pos zero
opposite (suc n) = negsuc n

abbrev pub negative : Option ℕ → Option ℤ
negative none = none
negative (some n) = if leb n (2 ^ 63) then some (opposite n) else none

unfoldable pub parse_int : List ℕ → Option ℤ
parse_int [] = none
parse_int (ch ∷ rest) =
    if ch == b'-'
    then negative (parse_digits rest)
    else if ch == b'+'
    then non_negative (parse_digits rest)
    else non_negative (parse_digits (ch ∷ rest))

abbrev pub any_byte : (ℕ → Bool) → List ℕ → Bool
any_byte p [] = false
any_byte p (ch ∷ rest) = p ch || any_byte p rest

-- A point or an exponent makes a number a float.
abbrev pub is_float : List ℕ → Bool
is_float literal = any_byte (λ ch. ch == b'.' || ch == b'e' || ch == b'E') literal

-- The digits before and behind the first byte that `p` takes, and whether there is one.
abbrev pub cut : (ℕ → Bool) → List ℕ → List ℕ × Bool × List ℕ
cut p [] = ([], false, [])
cut p (ch ∷ rest) =
    let (before, found, after) = cut p rest in
    if p ch then ([], true, rest) else (ch ∷ before, found, after)

-- The mantissa `n` with `places` digits behind the point, times ten to an exponent, is below the
-- bound from which a float64 is rounded to infinity.
abbrev pub infinity : ℕ
infinity = 2 ^ 1024 - 2 ^ 970

abbrev pub below_infinity : ℕ → ℕ → ℤ → Bool
below_infinity n places (pos x) = ltb (n * 10 ^ x) (infinity * 10 ^ places)
below_infinity n places (negsuc x) = ltb n (infinity * 10 ^ (places + suc x))

abbrev pub exponent : Bool → List ℕ → Option ℤ
exponent false digits = some (pos 0)
exponent true [] = none
exponent true (ch ∷ rest) =
    if ch == b'-'
    then elim (parse_digits rest) [ none ↦ none | some n ↦ some (opposite n) ]
    else if ch == b'+'
    then elim (parse_digits rest) [ none ↦ none | some n ↦ some (pos n) ]
    else elim (parse_digits (ch ∷ rest)) [ none ↦ none | some n ↦ some (pos n) ]

-- Digits with a point somewhere among them, at least one digit, and an exponent.
abbrev pub fits_float64 : List ℕ → Bool
fits_float64 literal =
    let (mantissa, scaled, power) = cut (λ ch. ch == b'e' || ch == b'E') literal in
    let (whole, pointed, fraction) = cut (λ ch. ch == b'.') mantissa in
    elim (parse_digits (whole ++ fraction)) [
      | none ↦ false
      | some n ↦ elim (exponent scaled power) [
        | none ↦ false
        | some x ↦ below_infinity n (length fraction) x
      ]
    ]

abbrev pub unsigned : List ℕ → List ℕ
unsigned [] = []
unsigned (ch ∷ rest) = if ch == b'-' || ch == b'+' then rest else ch ∷ rest

unfoldable pub parse_float : List ℕ → Option (List ℕ)
parse_float literal = if fits_float64 (unsigned literal) then some literal else none
