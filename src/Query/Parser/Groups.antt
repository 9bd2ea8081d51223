-- ===== src/Query/Parser/Groups.antt =====
-- Groups, mixed operators and whole statements in internal/query/parser.go.
use codeai.Base.{
  ℕ, zero, suc, ◌+◌, ◌*◌, ◌<◌, ◌≡◌, refl, ap, ◌∙◌, inl, false, List, ◌∷◌, ◌++◌, length,
  length-append, replicate, ltb, arith,
}
use codeai.Query.Tokens.{Token, token_l_paren, token_and, token_or}
use codeai.Query.Ast.{logical_and, logical_or, Condition, clause, empty, and_then}
use codeai.Query.Parser.State.{Parser, ParseError, ok, err, nested_group_depth, kind, max_depth}
use codeai.Query.Parser.Conditions.{
  glue, group_by_parser, condition_within, where_within, parse_where_expr,
}
use codeai.Query.Parser.Returns.{switch_bool}
use codeai.Query.Parser.Print.{mark, print_condition, WritableCondition}
use codeai.Query.Parser.RoundTrip.Values.{at}
use codeai.Query.Parser.RoundTrip.Conditions.{
  EndsClause, condition_within-group, condition_within-print, more_conditions-round,
  more_conditions-end, where_within-round,
}

abbrev pub opened : ℕ → List Token → List Token
opened n rest = replicate n (mark token_l_paren) ++ rest

condition_within-error :
    (n : ℕ) (ts : List Token) (d : ℕ) {e : ParseError}
    → where_within n (at ts (suc d)) ≡ err e
    → suc d < 11
    → condition_within (suc n) (at (mark token_l_paren ∷ ts) d) ≡ err e
unfolding group_by_parser
condition_within-error n ts d {e} h l =
    let shallow : ltb max_depth (suc d) ≡ false = ground arith in
    condition_within-group n false ts d
    ∙ switch_bool (λ o. o ≡ err e) (ltb max_depth (suc d)) (λ t. cc) (λ t. rw h)

condition_within-deep :
    (n : ℕ) (ts : List Token)
    → condition_within (suc n) (at (mark token_l_paren ∷ ts) 10) ≡ err (nested_group_depth 10)
unfolding group_by_parser
condition_within-deep n ts = condition_within-group n false ts 10

where_within-error :
    (n : ℕ) (p : Parser) {e : ParseError}
    → condition_within n p ≡ err e
    → where_within (suc n) p ≡ err e
unfolding where_within
where_within-error n p h = rw h

where_within-deep :
    (n k d : ℕ) (rest : List Token)
    → k + d ≡ 10
    → 2 * k + 1 < n
    → where_within n (at (opened (suc k) rest) d) ≡ err (nested_group_depth 10)
where_within-deep zero k d rest e l = elim l [ ]
where_within-deep (suc zero) k d rest e l = absurd (omega (arith, l))
where_within-deep (suc (suc n)) zero d rest e l =
    ap (λ depth. where_within (suc (suc n)) (at (opened 1 rest) depth)) (omega (arith, e))
    ∙ where_within-error (suc n) _ (condition_within-deep n rest)
where_within-deep (suc (suc n)) (suc k) d rest e l = where_within-error (suc n) _ (
    condition_within-error n (opened (suc k) rest) d
      (where_within-deep n k (suc d) rest (omega (arith, e)) (omega (arith, l))) (omega (arith, e)))

-- On eleven parentheses that open, whatever is behind them, parseWhereExpr gives the error of the
-- nesting depth, which is 10.
parse_where_expr-deep :
    (rest : List Token) → parse_where_expr (at (opened 11 rest) 0) ≡ err (nested_group_depth 10)
unfolding parse_where_expr
parse_where_expr-deep rest = where_within-deep _ 10 0 rest refl (omega arith)

module _ (c₁ c₂ c₃ : Condition) (rest : List Token) (d : ℕ) (w₁ : WritableCondition d c₁)
    (w₂ : WritableCondition d c₂) (w₃ : WritableCondition d c₃)
    (ends : EndsClause (glue (kind (at rest d)))) where
  abbrev pub third : List Token
  third = print_condition c₃ ++ rest

  abbrev pub second : List Token
  second = print_condition c₂ ++ mark token_or ∷ third

  size :
      length (print_condition c₁ ++ mark token_and ∷ second) + 0
      ≡ length (print_condition c₁)
        + (1 + (length (print_condition c₂) + (1 + (length (print_condition c₃) + length rest))))
  size =
      let first_size = length-append (print_condition c₁) (mark token_and ∷ second) in
      let second_size = length-append (print_condition c₂) (mark token_or ∷ third) in
      omega (arith, first_size, second_size, length-append (print_condition c₃) rest)

  where_within-mixed :
      (n : ℕ)
      → 2 * length (print_condition c₁ ++ mark token_and ∷ second) < n
      → where_within n (at (print_condition c₁ ++ mark token_and ∷ second) d)
        ≡ ok (clause (and_then c₁ (and_then c₂ (and_then c₃ empty))) logical_or, at rest d)
  where_within-mixed zero l = elim l [ ]
  where_within-mixed (suc zero) l = absurd (omega (arith, l, size))
  where_within-mixed (suc (suc zero)) l = absurd (omega (arith, l, size))
  where_within-mixed (suc (suc (suc n))) l =
      let mixed = and_then c₂ (and_then c₃ empty) in
      where_within-round (suc (suc n)) (at (print_condition c₁ ++ mark token_and ∷ second) d)
        (at (mark token_and ∷ second) d) (at rest d) c₁ mixed logical_or
        (condition_within-print (suc (suc n)) c₁ (mark token_and ∷ second) d w₁
          (omega (arith, l, size)))
        (more_conditions-round (suc n) logical_and logical_and logical_or second d c₂
          (and_then c₃ empty) (at (mark token_or ∷ third) d) (at rest d) (inl refl)
          (condition_within-print (suc n) c₂ (mark token_or ∷ third) d w₂ (omega (arith, l, size)))
          (more_conditions-round n logical_or logical_and logical_or third d c₃ empty (at rest d)
            (at rest d) (inl refl) (condition_within-print n c₃ rest d w₃ (omega (arith, l, size)))
            (more_conditions-end n logical_or rest d (omega (arith, l, size)) ends)))

  -- In front of tokens that begin with neither AND nor OR, three conditions that can be written,
  -- with AND between the first two and OR before the third, are read as the one clause that joins
  -- all three by OR.
  pub parse_where_expr-mixed :
      parse_where_expr (at (print_condition c₁ ++ mark token_and ∷ second) d)
      ≡ ok (clause (and_then c₁ (and_then c₂ (and_then c₃ empty))) logical_or, at rest d)
  unfolding parse_where_expr
  parse_where_expr-mixed = where_within-mixed _ (omega arith)
