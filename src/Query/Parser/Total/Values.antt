-- ===== src/Query/Parser/Total/Values.antt =====
-- `parseValue` of internal/query/parser.go ends, having taken a token or more.
use codeai.Base.{
  ℕ, zero, suc, ◌<◌, ◌≤◌, ◌≡◌, refl, List, [], Option, none, some, ◌∙◌, ◌⊎◌, inl, inr, ◌∷◌, length,
  arith,
}
use codeai.Query.Tokens.{Token, token_eof}
use codeai.Query.Consumed.{if_elim}
use codeai.Query.Ast.{ℤ, Value, Values, float, integer}
use codeai.Query.Parser.Numbers.{parse_int, parse_float, is_float}
use codeai.Query.Parser.State.{
  Parser, Outcome, ok, err, kind, first, behind, current, advance, ParseError, number_error,
}
use codeai.Query.Parser.Values.{
  ValueKind, a_string, a_number, a_true, a_false, a_null, a_param, a_list, an_ident, no_value,
  value_kind, Separator, comma, closing, end_of_input, other, separator, is_word_value, is_comma,
  more_words, number_value, ident_value, parse_item, items_within, close_list, value_within,
  parse_value, parse_int_token,
}
use codeai.Query.Parser.Returns.{Returns, Returns-bind, Steps, Steps-trans, Reads}

-- The input is at its end, or a token is there to be taken.
pub end_or_step : (p : Parser) → (kind p ≡ token_eof) ⊎ Steps p (advance p)
end_or_step p = of_tokens p.tokens p.depth
  where
    of_tokens :
        (ts : List Token) (d : ℕ)
        → ((first ts).token_type ≡ token_eof)
          ⊎ Steps (record { tokens = ts; depth = d }) (record { tokens = behind ts; depth = d })
    of_tokens [] d = inl refl
    of_tokens (t ∷ ts) d = inr (record { fewer = omega arith; level = refl })

more_words-le : (ts : List Token) → length (more_words ts).1 ≤ length ts
unfolding more_words
more_words-le [] = omega arith
more_words-le (t ∷ []) =
    if_elim (λ (r : Values × List Token). length r.1 ≤ 1) (is_comma t.token_type) (λ e. omega arith)
      (λ e. omega arith)
more_words-le (t ∷ v ∷ ts) =
    let ih = more_words-le ts in
    if_elim (λ (r : Values × List Token). length r.1 ≤ suc (suc (length ts)))
      (is_comma t.token_type)
      (λ e.
        if_elim (λ (r : Values × List Token). length r.1 ≤ suc (suc (length ts)))
          (is_word_value v.token_type) (λ e'. omega (arith, ih)) (λ e'. omega arith))
      (λ e. omega arith)

Option-Returns :
    {A : Type 0} (o : Option A) (e : ParseError) (f : A → Value)
    → Returns (λ v. Unit {0}) (elim o as (λ x. Outcome Value) [ none ↦ err e | some a ↦ ok (f a) ])
Option-Returns none e f = tt
Option-Returns (some a) e f = tt

pub number_value-Returns : (literal : List ℕ) → Returns (λ v. Unit) (number_value literal)
number_value-Returns literal =
    if_elim (Returns (λ v. Unit)) (is_float literal)
      (λ t. Option-Returns (parse_float literal) (number_error literal) float)
      (λ t. Option-Returns (parse_int literal) (number_error literal) integer)

ident_value-Reads : (p : Parser) → Steps p (advance p) → Reads p (ident_value p)
ident_value-Reads p s =
    let le = more_words-le (behind p.tokens) in
    if_elim (Reads p) (is_comma (kind (advance p)))
      (λ e. record { fewer = omega (arith, le, s.fewer); level = refl }) (λ e. s)

-- A switch on what stands behind an entry, with a property of each case.
pub switch_separator :
    {A : Type 0} (P : A → Type 0) (s : Separator) {a b c d : A}
    → (s ≡ comma → P a)
    → (s ≡ closing → P b)
    → (s ≡ end_of_input → P c)
    → (s ≡ other → P d)
    → P (elim s as (λ x. A) [ comma ↦ a | closing ↦ b | end_of_input ↦ c | other ↦ d ])
switch_separator P comma f g h k = f refl
switch_separator P closing f g h k = g refl
switch_separator P end_of_input f g h k = h refl
switch_separator P other f g h k = k refl

pub comma-taken : (p : Parser) → separator (kind p) ≡ comma → Steps p (advance p)
comma-taken p e = elim (end_or_step p) [ inl eof ↦ cc (rw eof at e) | inr s ↦ s ]

-- What stops at a parser that is as far as `p`, or farther.
abbrev pub AtLeast : {A : Type 0} → Parser → A × Parser → Type 0
AtLeast p (a, q) = (length q.tokens ≤ length p.tokens) × (q.depth ≡ p.depth)

parse_item-AtLeast :
    (value : Parser → Outcome (Value × Parser)) (more : Parser → Outcome (Values × Parser))
    (p : Parser)
    → Returns (Reads p) (value p)
    → ((q : Parser) → Steps p q → Returns (AtLeast q) (more q))
    → Returns (AtLeast p) (parse_item value more p)
parse_item-AtLeast value more p v m = Returns-bind (Reads p) (AtLeast p) (value p) _ v (λ (a, q) s.
    switch_separator (Returns (AtLeast p)) (separator (kind q))
      (λ e.
        let t = Steps-trans p q (advance q) s (comma-taken q e) in
        Returns-bind (AtLeast (advance q)) (AtLeast p) (more (advance q)) _ (m (advance q) t)
          (λ (b, r) l. (omega (arith, l.0, t.fewer), l.1 ∙ t.level)))
      (λ e.
        Returns-bind (AtLeast q) (AtLeast p) (more q) _ (m q s)
          (λ (b, r) l. (omega (arith, l.0, s.fewer), l.1 ∙ s.level)))
      (λ e. tt) (λ e. tt))

-- The loop of a list ends when an entry does for each number of tokens that is left.
items_within-AtLeast :
    (value : Parser → Outcome (Value × Parser)) (bound n : ℕ) (p : Parser)
    → ((q : Parser) → length q.tokens ≤ bound → Returns (Reads q) (value q))
    → length p.tokens ≤ bound
    → length p.tokens < n
    → Returns (AtLeast p) (items_within value n p)
unfolding items_within
items_within-AtLeast value bound zero p v l h = elim h [ ]
items_within-AtLeast value bound (suc n) p v l h =
    let shorter : (q : Parser) → Steps p q → length q.tokens ≤ bound =
      λ q s. omega (arith, s.fewer, l) in
    let item =
      parse_item-AtLeast value (items_within value n) p (v p l)
        (λ q s. items_within-AtLeast value bound n q v (shorter q s) (omega (arith, s.fewer, h))) in
    switch_separator (Returns (AtLeast p)) (separator (kind p)) (λ e. item)
      (λ e. (omega arith, refl)) (λ e. (omega arith, refl)) (λ e. item)

close_list-Reads :
    (p q : Parser) (values : Values)
    → AtLeast p (values, q)
    → Returns (Reads p) (close_list values q)
close_list-Reads p q values l = elim (end_or_step q) [
  | inl eof ↦ rw (eof, Returns) tt
  | inr s ↦
      switch_separator (Returns (Reads p)) (separator (kind q)) (λ e. tt)
        (λ e. record { fewer = omega (arith, l.0, s.fewer); level = l.1 }) (λ e. tt) (λ e. tt)
]

pub switch_value_kind :
    {A : Type 0} (P : A → Type 0) (k : ValueKind) {a b c d e f g h i : A}
    → P a
    → P b
    → P c
    → P d
    → P e
    → P f
    → P g
    → P h
    → P i
    → P (elim k as (λ x. A) [
      | a_string ↦ a
      | a_number ↦ b
      | a_true ↦ c
      | a_false ↦ d
      | a_null ↦ e
      | a_param ↦ f
      | a_list ↦ g
      | an_ident ↦ h
      | no_value ↦ i
    ])
switch_value_kind P a_string a b c d e f g h i = a
switch_value_kind P a_number a b c d e f g h i = b
switch_value_kind P a_true a b c d e f g h i = c
switch_value_kind P a_false a b c d e f g h i = d
switch_value_kind P a_null a b c d e f g h i = e
switch_value_kind P a_param a b c d e f g h i = f
switch_value_kind P a_list a b c d e f g h i = g
switch_value_kind P an_ident a b c d e f g h i = h
switch_value_kind P no_value a b c d e f g h i = i

pub value_within-Reads :
    (n : ℕ) (p : Parser) → length p.tokens < n → Returns (Reads p) (value_within n p)
unfolding value_within
value_within-Reads zero p h = elim h [ ]
value_within-Reads (suc n) p h = elim (end_or_step p) [
  | inl eof ↦ rw (eof, Returns) tt
  | inr s ↦
      let q = advance p in
      switch_value_kind (Returns (Reads p)) (value_kind (kind p)) s
        (Returns-bind (λ v. Unit) (Reads p) (number_value (current p).value) _
          (number_value-Returns (current p).value) (λ v u. s))
        s s s s
        (Returns-bind (AtLeast q) (Reads p) (items_within (value_within n) n q) _
          (items_within-AtLeast (value_within n) (length q.tokens) n q
            (λ r l. value_within-Reads n r (omega (arith, l, h, s.fewer))) (omega arith)
            (omega (arith, h, s.fewer)))
          (λ (vs, r) l. close_list-Reads p r vs (omega (arith, l.0, s.fewer), l.1)))
        (ident_value-Reads p s) tt
]

pub parse_value-Reads : (p : Parser) → Returns (Reads p) (parse_value p)
unfolding parse_value
parse_value-Reads p = value_within-Reads _ p (omega arith)

Option-Reads :
    (o : Option ℤ) (p q : Parser) (e : ParseError)
    → Steps p q
    → Returns
        (Reads p)
        (elim o as (λ x. Outcome (ℤ × Parser)) [ none ↦ err e | some i ↦ ok (i, q) ])
Option-Reads none p q e s = tt
Option-Reads (some i) p q e s = s

pub parse_int_token-Reads : (p : Parser) → Returns (Reads p) (parse_int_token p)
unfolding parse_int_token
parse_int_token-Reads p = elim (end_or_step p) [
  | inl eof ↦ rw (eof, Returns) tt
  | inr s ↦
      switch_value_kind (Returns (Reads p)) (value_kind (kind p)) tt
        (Option-Reads (parse_int (current p).value) p (advance p) _ s) tt tt tt tt tt tt tt
]
