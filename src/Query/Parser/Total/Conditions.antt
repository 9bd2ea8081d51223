-- ===== src/Query/Parser/Total/Conditions.antt =====
-- `parseWhereExpr` of internal/query/parser.go ends, having taken a token or more.
use codeai.Base.{
  ℕ, zero, suc, ◌+◌, ◌*◌, ◌<◌, ◌≤◌, ◌≡◌, refl, length, ◌∙◌, inl, inr, Bool, ltb, arith,
}
use codeai.Query.Ast.{LogicalOp, logical_and, logical_or, WhereClause, Conditions, empty, and_then}
use codeai.Query.Parser.State.{
  Parser, Outcome, ok, err, out_of_fuel, ◌>>=◌, kind, advance, max_depth,
}
use codeai.Query.Parser.Conditions.{
  glue, close_group, group_by_parser, skip_not, condition_by, condition_within, where_within,
  more_conditions, parse_where_expr,
}
use codeai.Query.Parser.Returns.{Returns, Returns-bind, Steps, Reads, switch_bool}
use codeai.Query.Parser.Total.Operators.{switch_glue, parse_comparison-Reads}
use codeai.Query.Parser.Total.Values.{end_or_step, AtLeast}

-- What is inside of a parenthesis is one level deeper.
close_group-Reads :
    (negated : Bool) (w : WhereClause) (p q : Parser)
    → length q.tokens < length p.tokens
    → q.depth ≡ suc p.depth
    → Returns (Reads p) (close_group negated w q)
close_group-Reads negated w p q l e = elim (end_or_step q) [
  | inl eof ↦ rw (eof, Returns) tt
  | inr s ↦
      switch_glue (Returns (Reads p)) (glue (kind q)) tt tt tt tt tt
        (record { fewer = omega (arith, l, s.fewer); level = omega (arith, e) }) tt
]

pub group_by_parser-Reads :
    (inside : Parser → Outcome (WhereClause × Parser)) (negated : Bool) (p : Parser)
    → Steps p (advance p)
    → ((q : Parser) → length q.tokens < length p.tokens → Returns (Reads q) (inside q))
    → Returns (Reads p) (group_by_parser inside negated p)
unfolding group_by_parser
group_by_parser-Reads inside negated p s h =
    let deeper : Parser = record (advance p) { depth = suc p.depth } in
    switch_bool (Returns (Reads p)) (ltb max_depth (suc p.depth)) (λ e. tt)
      (λ e.
        Returns-bind (Reads deeper) (Reads p) (inside deeper) _ (h deeper s.fewer)
          (λ (w, q) t. close_group-Reads negated w p q (omega (arith, t.fewer, s.fewer)) t.level))

pub skip_not-AtLeast : (p : Parser) → AtLeast p (skip_not p)
skip_not-AtLeast p = elim (end_or_step p) [
  | inl eof ↦ rw (eof, skip_not) (omega arith, refl)
  | inr s ↦
      switch_glue (AtLeast p) (glue (kind p)) (omega arith, refl) (omega arith, refl)
        (omega (arith, s.fewer), s.level) (omega arith, refl) (omega arith, refl)
        (omega arith, refl) (omega arith, refl)
]

condition_by-Reads :
    (inside : Parser → Outcome (WhereClause × Parser)) (negated : Bool) (p : Parser)
    → ((q : Parser) → length q.tokens < length p.tokens → Returns (Reads q) (inside q))
    → Returns (Reads p) (condition_by inside negated p)
condition_by-Reads inside negated p h =
    let plain = parse_comparison-Reads negated p in
    elim (end_or_step p) [
      | inl eof ↦ rw (eof, condition_by) plain
      | inr s ↦
          switch_glue (Returns (Reads p)) (glue (kind p)) plain plain plain plain
            (group_by_parser-Reads inside negated p s h) plain plain
    ]

pub Returns-AtLeast :
    {A : Type 0} (p q : Parser) (m : Outcome (A × Parser))
    → (length q.tokens ≤ length p.tokens) × (q.depth ≡ p.depth)
    → Returns (Reads q) m
    → Returns (Reads p) m
Returns-AtLeast p q (ok (a, r)) l h = record {
  fewer = omega (arith, l.0, h.fewer);
  level = h.level ∙ l.1;
}
Returns-AtLeast p q (err e) l h = tt
Returns-AtLeast p q out_of_fuel l h = h

-- The loop of a clause stops at or behind the parser that it began at.
abbrev StopsBehind : Parser → Conditions × LogicalOp × Parser → Type 0
StopsBehind p (cs, op, q) = (length q.tokens ≤ length p.tokens) × (q.depth ≡ p.depth)

mutual
  unfolding condition_within

  condition_within-Reads :
      (n : ℕ) (p : Parser) → 2 * length p.tokens < n → Returns (Reads p) (condition_within n p)
  condition_within-Reads zero p h = elim h [ ]
  condition_within-Reads (suc n) p h =
      let l = skip_not-AtLeast p in
      Returns-AtLeast p (skip_not p).1 _ l (
        condition_by-Reads (where_within n) (skip_not p).0 (skip_not p).1
          (λ q s. where_within-Reads n q (omega (arith, s, h, l.0))))

  where_within-Reads :
      (n : ℕ) (p : Parser) → 2 * length p.tokens + 1 < n → Returns (Reads p) (where_within n p)
  where_within-Reads zero p h = elim h [ ]
  where_within-Reads (suc n) p h =
      Returns-bind (Reads p) (Reads p) (condition_within n p) _
        (condition_within-Reads n p (omega (arith, h)))
        (λ (c, q) s.
          Returns-bind (StopsBehind q) (Reads p) (more_conditions n logical_and q) _
            (more_conditions-StopsBehind n logical_and q (omega (arith, h, s.fewer)))
            (λ (cs, op, r) l. record {
              fewer = omega (arith, l.0, s.fewer);
              level = l.1 ∙ s.level;
            }))

  more_conditions-StopsBehind :
      (n : ℕ) (op : LogicalOp) (p : Parser)
      → 2 * length p.tokens + 1 < n
      → Returns (StopsBehind p) (more_conditions n op p)
  more_conditions-StopsBehind zero op p h = elim h [ ]
  more_conditions-StopsBehind (suc n) op p h = elim (end_or_step p) [
    | inl eof ↦ rw (eof, Returns) (omega arith, refl)
    | inr s ↦
        let q = advance p in
        let round : (op' : LogicalOp)
            → Returns (StopsBehind p) (do
              (c, p₁) ← condition_within n q
              (cs, op'', p₂) ← more_conditions n op' p₁
              ok (and_then c cs, op'', p₂)) =
          λ op'.
            Returns-bind (Reads q) (StopsBehind p) (condition_within n q) _
              (condition_within-Reads n q (omega (arith, h, s.fewer)))
              (λ (c, r) t.
                Returns-bind (StopsBehind r) (StopsBehind p) (more_conditions n op' r) _
                  (more_conditions-StopsBehind n op' r (omega (arith, h, s.fewer, t.fewer)))
                  (λ (cs, op'', u) l.
                    (omega (arith, l.0, t.fewer, s.fewer), l.1 ∙ t.level ∙ s.level))) in
        let stop : StopsBehind p (empty, op, p) = (omega arith, refl) in
        switch_glue (Returns (StopsBehind p)) (glue (kind p)) (round op) (round logical_or) stop
          stop stop stop stop
  ]

pub parse_where_expr-Reads : (p : Parser) → Returns (Reads p) (parse_where_expr p)
unfolding parse_where_expr
parse_where_expr-Reads p = where_within-Reads _ p (omega arith)
