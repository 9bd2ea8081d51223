-- ===== src/Query/Parser/Total/Operators.antt =====
-- The comparisons of internal/query/parser.go end, having taken a token or more.
use codeai.Base.{ℕ, ◌≡◌, List, inl, inr, Bool, true}
use codeai.Query.Consumed.{if_elim}
use codeai.Query.Ast.{CompareOp, op_between, range, compare}
use codeai.Query.Parser.State.{
  Parser, Outcome, ok, err, out_of_fuel, ◌>>=◌, kind, current, advance, is_identifier_or_keyword,
}
use codeai.Query.Parser.Values.{parse_value}
use codeai.Query.Parser.Conditions.{
  Glue, and_glue, or_glue, not_glue, null_glue, opening, closing, no_glue, glue, Comparison,
  by_value, is_test, between, no_comparison, comparison, parse_is, parse_between, parse_operator,
  parse_comparison,
}
use codeai.Query.Parser.Returns.{Returns, Returns-bind, Steps, Steps-trans, Reads}
use codeai.Query.Parser.Total.Values.{end_or_step, parse_value-Reads}

-- Behind parts that took a token or more, the result is behind the whole.
pub Returns-Steps :
    {A : Type 0} (p q : Parser) (m : Outcome (A × Parser))
    → Steps p q
    → Returns (Reads q) m
    → Returns (Reads p) m
Returns-Steps p q (ok (a, r)) s h = Steps-trans p q r s h
Returns-Steps p q (err e) s h = tt
Returns-Steps p q out_of_fuel s h = h

-- One part after another.
pub Reads-bind :
    {A B : Type 0} (p : Parser) (m : Outcome (A × Parser)) (f : A × Parser → Outcome (B × Parser))
    → Returns (Reads p) m
    → ((a : A) (q : Parser) → Steps p q → Returns (Reads q) (f (a, q)))
    → Returns (Reads p) (m >>= f)
Reads-bind p m f h k =
    Returns-bind (Reads p) (Reads p) m f h (λ (a, q) s. Returns-Steps p q (f (a, q)) s (k a q s))

-- One part, and then a result at its end.
pub Reads-map :
    {A B : Type 0} (p : Parser) (m : Outcome (A × Parser)) (f : A → B)
    → Returns (Reads p) m
    → Returns (Reads p) (m >>= λ (a, q). ok (f a, q))
Reads-map p m f h = Returns-bind (Reads p) (Reads p) m _ h (λ (a, q) s. s)

-- A switch on the tokens between conditions.
pub switch_glue :
    {A : Type 0} (P : A → Type 0) (g : Glue) {a b c d e f h : A}
    → P a
    → P b
    → P c
    → P d
    → P e
    → P f
    → P h
    → P (elim g as (λ x. A) [
      | and_glue ↦ a
      | or_glue ↦ b
      | not_glue ↦ c
      | null_glue ↦ d
      | opening ↦ e
      | closing ↦ f
      | no_glue ↦ h
    ])
switch_glue P and_glue a b c d e f h = a
switch_glue P or_glue a b c d e f h = b
switch_glue P not_glue a b c d e f h = c
switch_glue P null_glue a b c d e f h = d
switch_glue P opening a b c d e f h = e
switch_glue P closing a b c d e f h = f
switch_glue P no_glue a b c d e f h = h

parse_is-Reads :
    (field : List ℕ) (negated : Bool) (p : Parser) → Returns (Reads p) (parse_is field negated p)
unfolding parse_is
parse_is-Reads field negated p = elim (end_or_step p) [
  | inl eof ↦ rw (eof, Returns) tt
  | inr s ↦
      switch_glue (Returns (Reads p)) (glue (kind p)) tt tt
        (elim (end_or_step (advance p)) [
          | inl eof ↦ rw (eof, Returns) tt
          | inr s' ↦
              switch_glue (Returns (Reads p)) (glue (kind (advance p))) tt tt tt
                (Steps-trans p (advance p) (advance (advance p)) s s') tt tt tt
        ])
        s tt tt tt
]

parse_between-Reads :
    (field : List ℕ) (negated : Bool) (p : Parser)
    → Returns (Reads p) (parse_between field negated p)
unfolding parse_between
parse_between-Reads field negated p =
    Reads-bind p (parse_value p) _ (parse_value-Reads p) (λ low q s. elim (end_or_step q) [
      | inl eof ↦ rw (eof, Returns) tt
      | inr s' ↦
          switch_glue (Returns (Reads q)) (glue (kind q))
            (Returns-Steps q (advance q) _ s' (
              Reads-map (advance q) (parse_value (advance q))
                (λ high. compare field op_between (range low high) negated)
                (parse_value-Reads (advance q))))
            tt tt tt tt tt tt
    ])

switch_comparison :
    {A : Type 0} (P : A → Type 0) (c : Comparison) {f : CompareOp → A} {a b d : A}
    → ((op : CompareOp) → P (f op))
    → P a
    → P b
    → P d
    → P (elim c as (λ x. A) [ by_value op ↦ f op | is_test ↦ a | between ↦ b | no_comparison ↦ d ])
switch_comparison P (by_value op) f a b d = f op
switch_comparison P is_test f a b d = a
switch_comparison P between f a b d = b
switch_comparison P no_comparison f a b d = d

parse_operator-Reads :
    (field : List ℕ) (negated : Bool) (p : Parser)
    → Returns (Reads p) (parse_operator field negated p)
unfolding parse_operator
parse_operator-Reads field negated p = elim (end_or_step p) [
  | inl eof ↦ rw (eof, Returns) tt
  | inr s ↦
      let q = advance p in
      switch_comparison (Returns (Reads p)) (comparison (kind p))
        (λ op.
          Returns-Steps p q _ s
            (Reads-map q (parse_value q) (λ v. compare field op v negated) (parse_value-Reads q)))
        (Returns-Steps p q _ s (parse_is-Reads field negated q))
        (Returns-Steps p q _ s (parse_between-Reads field negated q)) tt
]

-- A word is there to be taken.
pub word-step : (p : Parser) → is_identifier_or_keyword p ≡ true → Steps p (advance p)
word-step p e = elim (end_or_step p) [ inl eof ↦ cc (rw eof at e) | inr s ↦ s ]

pub parse_comparison-Reads :
    (negated : Bool) (p : Parser) → Returns (Reads p) (parse_comparison negated p)
unfolding parse_comparison
parse_comparison-Reads negated p =
    if_elim (Returns (Reads p)) (is_identifier_or_keyword p)
      (λ e.
        Returns-Steps p (advance p) _ (word-step p e)
          (parse_operator-Reads (current p).value negated (advance p)))
      (λ e. tt)
