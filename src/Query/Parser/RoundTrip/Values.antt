-- ===== src/Query/Parser/RoundTrip/Values.antt =====
-- `parseValue` of internal/query/parser.go reads the tokens of a value back.
use codeai.Base.{
  ℕ, zero, suc, ◌<◌, ◌≡◌, refl, sym, subst, true, false, List, [], ◌∷◌, ◌++◌, length, length-append,
  append_assoc, arith,
}
use codeai.Query.Tokens.{Token, token_r_bracket, token_comma}
use codeai.Query.Ast.{
  ℤ, Value, text, integer, float, boolean, null, parameter, array, range, Values, nil, cons,
}
use codeai.Query.Decimal.{
  signed_decimal, IsInt64, parse_int-signed_decimal, is_float-signed_decimal,
}
use codeai.Query.Parser.State.{Parser, Outcome, ok, kind, advance}
use codeai.Query.Parser.Values.{
  separator, comma, closing, other, number_value, read_int, read_float, parse_item, items_within,
  value_within, parse_value,
}
use codeai.Query.Parser.Total.Values.{switch_separator}
use codeai.Query.Parser.Print.{mark, print_value, print_values, IsPlain, ArePlain}

abbrev pub at : List Token → ℕ → Parser
at tokens depth = record { tokens = tokens; depth = depth }

pub print_value-nonempty : (v : Value) → IsPlain v → 0 < length (print_value v)
unfolding print_value
print_value-nonempty (text s) h = omega arith
print_value-nonempty (integer i) h = omega arith
print_value-nonempty (float f) h = omega arith
print_value-nonempty (boolean true) h = omega arith
print_value-nonempty (boolean false) h = omega arith
print_value-nonempty null h = omega arith
print_value-nonempty (parameter s) h = omega arith
print_value-nonempty (array vs) h = omega arith
print_value-nonempty (range low high) h = absurd h

-- No value begins with a comma or the end of a list.
separator-print_value :
    (v : Value) (rest : List Token) (d : ℕ)
    → IsPlain v
    → separator (kind (at (print_value v ++ rest) d)) ≡ other
unfolding print_value
separator-print_value (text s) rest d h = refl
separator-print_value (integer i) rest d h = refl
separator-print_value (float f) rest d h = refl
separator-print_value (boolean true) rest d h = refl
separator-print_value (boolean false) rest d h = refl
separator-print_value null rest d h = refl
separator-print_value (parameter s) rest d h = refl
separator-print_value (array vs) rest d h = refl
separator-print_value (range low high) rest d h = absurd h

-- A round of the loop of a list, before a comma and before the end.
items_within-comma :
    (value : Parser → Outcome (Value × Parser)) (n : ℕ) (p q r : Parser) (v : Value) (vs : Values)
    → separator (kind p) ≡ other
    → value p ≡ ok (v, q)
    → separator (kind q) ≡ comma
    → items_within value n (advance q) ≡ ok (vs, r)
    → items_within value (suc n) p ≡ ok (cons v vs, r)
unfolding items_within
items_within-comma value n p q r v vs e f g h =
    let item : parse_item value (items_within value n) p ≡ ok (cons v vs, r) = rw f (
      switch_separator (λ o. o ≡ ok (cons v vs, r)) (separator (kind q)) (λ c. rw h) (λ c. cc)
        (λ c. cc) (λ c. cc)) in
    switch_separator (λ o. o ≡ ok (cons v vs, r)) (separator (kind p)) (λ c. item) (λ c. cc)
      (λ c. cc) (λ c. item)

items_within-closing :
    (value : Parser → Outcome (Value × Parser)) (n : ℕ) (p q r : Parser) (v : Value) (vs : Values)
    → separator (kind p) ≡ other
    → value p ≡ ok (v, q)
    → separator (kind q) ≡ closing
    → items_within value n q ≡ ok (vs, r)
    → items_within value (suc n) p ≡ ok (cons v vs, r)
unfolding items_within
items_within-closing value n p q r v vs e f g h =
    let item : parse_item value (items_within value n) p ≡ ok (cons v vs, r) = rw f (
      switch_separator (λ o. o ≡ ok (cons v vs, r)) (separator (kind q)) (λ c. cc) (λ c. rw h)
        (λ c. cc) (λ c. cc)) in
    switch_separator (λ o. o ≡ ok (cons v vs, r)) (separator (kind p)) (λ c. item) (λ c. cc)
      (λ c. cc) (λ c. item)

items_within-end :
    (value : Parser → Outcome (Value × Parser)) (n : ℕ) (rest : List Token) (d : ℕ)
    → 0 < n
    → items_within value n (at (mark token_r_bracket ∷ rest) d)
      ≡ ok (nil, at (mark token_r_bracket ∷ rest) d)
unfolding items_within
items_within-end value zero rest d h = elim h [ ]
items_within-end value (suc n) rest d h = refl

number_value-integer : (i : ℤ) → IsInt64 i → number_value (signed_decimal i) ≡ ok (integer i)
number_value-integer i h =
    rw (is_float-signed_decimal i) (rw (parse_int-signed_decimal i h, read_int))

number_value-float : (f : List ℕ) → IsPlain (float f) → number_value f ≡ ok (float f)
number_value-float f h = rw h.0 (rw (h.1, read_float))

mutual
  unfolding print_value value_within

  value_within-print :
      (n : ℕ) (v : Value) (rest : List Token) (d : ℕ)
      → IsPlain v
      → length (print_value v) < n
      → value_within n (at (print_value v ++ rest) d) ≡ ok (v, at rest d)
  value_within-print zero v rest d h l = elim l [ ]
  value_within-print (suc n) (text s) rest d h l = refl
  value_within-print (suc n) (integer i) rest d h l = rw (number_value-integer i h)
  value_within-print (suc n) (float f) rest d h l = rw (number_value-float f h)
  value_within-print (suc n) (boolean true) rest d h l = refl
  value_within-print (suc n) (boolean false) rest d h l = refl
  value_within-print (suc n) null rest d h l = refl
  value_within-print (suc n) (parameter s) rest d h l = refl
  value_within-print (suc n) (array vs) rest d h l =
      rw (items_within-print n n vs rest d h (omega (arith, l)) (omega (arith, l)))
  value_within-print (suc n) (range low high) rest d h l = absurd h

  -- The loop stops at the end of the list.
  items_within-print :
      (n m : ℕ) (vs : Values) (rest : List Token) (d : ℕ)
      → ArePlain vs
      → length (print_values vs) < n
      → length (print_values vs) < m
      → items_within (value_within n) m (at (print_values vs ++ rest) d)
        ≡ ok (vs, at (mark token_r_bracket ∷ rest) d)
  items_within-print n zero vs rest d h l k = elim k [ ]
  items_within-print n (suc m) nil rest d h l k =
      items_within-end (value_within n) (suc m) rest d (omega arith)
  items_within-print n (suc m) (cons v nil) rest d h l k =
      let size = length-append (print_value v) (mark token_r_bracket ∷ []) in
      let first = print_value-nonempty v h.0 in
      let q = at (mark token_r_bracket ∷ rest) d in
      subst (λ ts. items_within (value_within n) (suc m) (at ts d) ≡ ok (cons v nil, q))
        (sym (append_assoc (print_value v) (mark token_r_bracket ∷ []) rest))
        (items_within-closing (value_within n) m _ q q v nil (separator-print_value v _ d h.0)
          (value_within-print n v (mark token_r_bracket ∷ rest) d h.0 (omega (arith, l, size))) refl
          (items_within-end (value_within n) m rest d (omega (arith, k, size, first))))
  items_within-print n (suc m) (cons v (cons w ws)) rest d h l k =
      let more = mark token_comma ∷ print_values (cons w ws) in
      let size = length-append (print_value v) more in
      let q = at (more ++ rest) d in
      let r = at (mark token_r_bracket ∷ rest) d in
      subst (λ ts. items_within (value_within n) (suc m) (at ts d) ≡ ok (cons v (cons w ws), r))
        (sym (append_assoc (print_value v) more rest))
        (items_within-comma (value_within n) m _ q r v (cons w ws) (separator-print_value v _ d h.0)
          (value_within-print n v (more ++ rest) d h.0 (omega (arith, l, size))) refl
          (items_within-print n m (cons w ws) rest d h.1 (omega (arith, l, size))
            (omega (arith, k, size))))

pub parse_value-print :
    (v : Value) (rest : List Token) (d : ℕ)
    → IsPlain v
    → parse_value (at (print_value v ++ rest) d) ≡ ok (v, at rest d)
unfolding parse_value
parse_value-print v rest d h =
    value_within-print _ v rest d h (omega (arith, length-append (print_value v) rest))
