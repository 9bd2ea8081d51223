-- ===== src/Query/Parser/Total/Filters.antt =====
-- The simple filters of internal/query/parser.go end on every list of tokens.
use codeai.Base.{
  ℕ, zero, suc, ◌<◌, ◌≡◌, refl, List, length, ◌∙◌, inl, inr, Bool, true, ◌||◌, Option, none, some,
  arith,
}
use codeai.Query.Consumed.{if_elim}
use codeai.Query.Ast.{Condition}
use codeai.Query.Parser.State.{
  Parser, Outcome, ok, err, out_of_fuel, ◌>>=◌, kind, current, advance, is_eof,
  is_identifier_or_keyword,
}
use codeai.Query.Parser.Values.{parse_value}
use codeai.Query.Parser.Conditions.{glue, skip_not, group_by_parser, parse_where_expr}
use codeai.Query.Parser.Filters.{
  filter_operator, field_filter, FilterStart, phrase, tilde, other_start, filter_start, is_string,
  is_and_or_or, fuzzy_filter, kept, plain_filter, parse_simple_filter, filters_within,
  parse_simple_filters,
}
use codeai.Query.Parser.Returns.{Returns, Returns-bind, Steps, Reads, switch_bool}
use codeai.Query.Parser.Total.Values.{end_or_step, AtLeast, parse_value-Reads}
use codeai.Query.Parser.Total.Conditions.{
  Returns-AtLeast, skip_not-AtLeast, group_by_parser-Reads, parse_where_expr-Reads,
}
use codeai.Query.Parser.Total.Operators.{word-step, switch_glue}

-- The parser gives a query or an error.
abbrev pub Ends : {A : Type 0} → Outcome A → Type 0
Ends m = Returns (λ a. Unit) m

pub Ends-bind :
    {A B : Type 0} (m : Outcome A) (f : A → Outcome B)
    → Ends m
    → ((a : A) → Ends (f a))
    → Ends (m >>= f)
Ends-bind m f h k = Returns-bind (λ a. Unit) (λ b. Unit) m f h (λ a u. k a)

switch_Option :
    {A B : Type 0} (P : B → Type 0) (o : Option A) {b : B} {f : A → B}
    → P b
    → ((a : A) → P (f a))
    → P (elim o as (λ x. B) [ none ↦ b | some a ↦ f a ])
switch_Option P none h k = h
switch_Option P (some a) h k = k a

-- Behind a field, a filter may take no token more.
field_filter-AtLeast :
    (field : List ℕ) (negated : Bool) (p : Parser)
    → Returns (AtLeast p) (field_filter field negated p)
unfolding field_filter
field_filter-AtLeast field negated p = elim (end_or_step p) [
  | inl eof ↦ rw (eof, Returns) (omega arith, refl)
  | inr s ↦
      let q = advance p in
      switch_Option (Returns (AtLeast p)) (filter_operator (kind p)) (omega arith, refl)
        (λ op.
          Returns-bind (Reads q) (AtLeast p) (parse_value q) _ (parse_value-Reads q)
            (λ (v, r) t. (omega (arith, t.fewer, s.fewer), t.level)))
]

AtLeast-Reads :
    {A : Type 0} (p q : Parser) (m : Outcome (A × Parser))
    → Steps p q
    → Returns (AtLeast q) m
    → Returns (Reads p) m
AtLeast-Reads p q (ok (a, r)) s l = record {
  fewer = omega (arith, s.fewer, l.0);
  level = l.1 ∙ s.level;
}
AtLeast-Reads p q (err e) s l = tt
AtLeast-Reads p q out_of_fuel s l = l

kept-Reads :
    (p : Parser) (m : Outcome (Condition × Parser))
    → Returns (Reads p) m
    → Returns (Reads p) (m >>= kept)
kept-Reads p m h = Returns-bind (Reads p) (Reads p) m kept h (λ (c, q) s. s)

fuzzy_filter-AtLeast : (p : Parser) → Returns (AtLeast p) (fuzzy_filter p)
unfolding fuzzy_filter
fuzzy_filter-AtLeast p =
    if_elim (Returns (AtLeast p)) (is_identifier_or_keyword p || is_string (kind p))
      (λ e. elim (end_or_step p) [
        | inl eof ↦ cc (rw eof at e)
        | inr s ↦ (omega (arith, s.fewer), s.level)
      ])
      (λ e. tt)

and_or_or-step : (p : Parser) → is_and_or_or (kind p) ≡ true → Steps p (advance p)
and_or_or-step p e = elim (end_or_step p) [ inl eof ↦ cc (rw eof at e) | inr s ↦ s ]

plain_filter-Reads : (negated : Bool) (p : Parser) → Returns (Reads p) (plain_filter negated p)
unfolding plain_filter
plain_filter-Reads negated p =
    let q = advance p in
    let plain =
      if_elim (Returns (Reads p)) (is_identifier_or_keyword p)
        (λ e.
          kept-Reads p (field_filter (current p).value negated q) (
            AtLeast-Reads p q _ (word-step p e) (field_filter-AtLeast (current p).value negated q)))
        (λ e. if_elim (Returns (Reads p)) (is_and_or_or (kind p)) (and_or_or-step p) (λ e'. tt)) in
    elim (end_or_step p) [
      | inl eof ↦ rw (eof, Returns) plain
      | inr s ↦
          switch_glue (Returns (Reads p)) (glue (kind p)) plain plain plain plain
            (kept-Reads p (group_by_parser parse_where_expr negated p) (
              group_by_parser-Reads parse_where_expr negated p s (λ r l. parse_where_expr-Reads r)))
            plain plain
    ]

switch_start :
    {A : Type 0} (P : A → Type 0) (k : FilterStart) {a b c : A}
    → P a
    → P b
    → P c
    → P (elim k as (λ x. A) [ phrase ↦ a | tilde ↦ b | other_start ↦ c ])
switch_start P phrase a b c = a
switch_start P tilde a b c = b
switch_start P other_start a b c = c

parse_simple_filter-Reads : (p : Parser) → Returns (Reads p) (parse_simple_filter p)
unfolding parse_simple_filter
parse_simple_filter-Reads p =
    let q = (skip_not p).1 in
    let plain = Returns-AtLeast p q _ (skip_not-AtLeast p) (plain_filter-Reads (skip_not p).0 q) in
    elim (end_or_step p) [
      | inl eof ↦ rw (eof, Returns) plain
      | inr s ↦
          switch_start (Returns (Reads p)) (filter_start (kind p)) s
            (kept-Reads p (fuzzy_filter (advance p))
              (AtLeast-Reads p (advance p) _ s (fuzzy_filter-AtLeast (advance p))))
            plain
    ]

filters_within-Ends : (n : ℕ) (p : Parser) → length p.tokens < n → Ends (filters_within n p)
unfolding filters_within
filters_within-Ends zero p h = elim h [ ]
filters_within-Ends (suc n) p h =
    switch_bool Ends (is_eof (kind p)) (λ e. tt)
      (λ e.
        Returns-bind (Reads p) (λ a. Unit) (parse_simple_filter p) _ (parse_simple_filter-Reads p)
          (λ (c, q) s.
            Ends-bind (filters_within n q) _ (filters_within-Ends n q (omega (arith, h, s.fewer)))
              (λ cs. tt)))

pub parse_simple_filters-Ends : (p : Parser) → Ends (parse_simple_filters p)
unfolding parse_simple_filters
parse_simple_filters-Ends p =
    Ends-bind (filters_within _ p) _ (filters_within-Ends _ p (omega arith)) (λ cs. tt)
