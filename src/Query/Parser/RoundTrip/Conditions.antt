-- ===== src/Query/Parser/RoundTrip/Conditions.antt =====
-- `parseWhereExpr` of internal/query/parser.go reads the tokens of a clause back.
use codeai.Base.{
  ℕ, zero, suc, ◌+◌, ◌*◌, ◌<◌, ◌≤◌, ◌≡◌, refl, sym, ap, ◌∙◌, ◌⊎◌, inl, inr, Bool, true, false, List,
  [], ◌∷◌, ◌++◌, length, length-append, append_assoc, ltb, arith,
}
use codeai.Query.Tokens.{Token, token_r_paren, token_l_paren, token_ident}
use codeai.Query.Ast.{
  LogicalOp, logical_and, logical_or, Condition, compare, nested, WhereClause, clause, Conditions,
  empty, and_then,
}
use codeai.Query.Parser.State.{Parser, Outcome, ok, kind, max_depth}
use codeai.Query.Parser.Conditions.{
  Glue, and_glue, or_glue, not_glue, null_glue, opening, closing, no_glue, glue, group_by_parser,
  parse_comparison, condition_within, where_within, more_conditions, parse_where_expr,
}
use codeai.Query.Parser.Print.{
  token, mark, writing, print_operand, print_not, glue_token, print_condition, print_where,
  print_more, WritableCondition, WritableWhere, WritableMore,
}
use codeai.Query.Parser.Returns.{switch_bool}
use codeai.Query.Parser.RoundTrip.Values.{at}
use codeai.Query.Parser.RoundTrip.Operators.{parse_comparison-print}

-- What may stand behind a clause: neither AND nor OR.
abbrev pub EndsClause : Glue → Type 0
EndsClause and_glue = ⊥
EndsClause or_glue = ⊥
EndsClause not_glue = Unit
EndsClause null_glue = Unit
EndsClause opening = Unit
EndsClause closing = Unit
EndsClause no_glue = Unit

-- A condition at a field and at a parenthesis, perhaps behind `NOT`.
condition_within-field :
    (n : ℕ) (negated : Bool) (field : List ℕ) (ts : List Token) (d : ℕ)
    → condition_within (suc n) (at (print_not negated ++ token token_ident field ∷ ts) d)
      ≡ parse_comparison negated (at (token token_ident field ∷ ts) d)
unfolding condition_within
condition_within-field n true field ts d = refl
condition_within-field n false field ts d = refl

pub condition_within-group :
    (n : ℕ) (negated : Bool) (ts : List Token) (d : ℕ)
    → condition_within (suc n) (at (print_not negated ++ mark token_l_paren ∷ ts) d)
      ≡ group_by_parser (where_within n) negated (at (mark token_l_paren ∷ ts) d)
unfolding condition_within
condition_within-group n true ts d = refl
condition_within-group n false ts d = refl

group_by_parser-print :
    (inside : Parser → Outcome (WhereClause × Parser)) (negated : Bool) (w : WhereClause)
    (ts rest : List Token) (d : ℕ)
    → suc d ≤ 10
    → inside (at ts (suc d)) ≡ ok (w, at (mark token_r_paren ∷ rest) (suc d))
    → group_by_parser inside negated (at (mark token_l_paren ∷ ts) d)
      ≡ ok (nested negated w, at rest d)
unfolding group_by_parser
group_by_parser-print inside negated w ts rest d l h =
    let shallow : ltb max_depth (suc d) ≡ false = ground arith in
    switch_bool (λ o. o ≡ ok (nested negated w, at rest d)) (ltb max_depth (suc d)) (λ e. cc)
      (λ e. rw h (ap (λ depth. ok (nested negated w, at rest depth)) (omega arith)))

-- A round of the loop, in which the operator is still AND, or is that of the clause.
pub more_conditions-round :
    (n : ℕ) (op o last : LogicalOp) (ts : List Token) (d : ℕ) (c : Condition) (cs : Conditions)
    (q r : Parser)
    → (o ≡ logical_and) ⊎ (o ≡ op)
    → condition_within n (at ts d) ≡ ok (c, q)
    → more_conditions n op q ≡ ok (cs, last, r)
    → more_conditions (suc n) o (at (mark (glue_token op) ∷ ts) d) ≡ ok (and_then c cs, last, r)
unfolding more_conditions
more_conditions-round n logical_and logical_and last ts d c cs q r h e f = rw e (rw f)
more_conditions-round n logical_or logical_and last ts d c cs q r h e f = rw e (rw f)
more_conditions-round n logical_or logical_or last ts d c cs q r h e f = rw e (rw f)
more_conditions-round n logical_and logical_or last ts d c cs q r (inl h) e f = cc h
more_conditions-round n logical_and logical_or last ts d c cs q r (inr h) e f = cc h

glue_stops :
    {A : Type 0} (g : Glue) (a b : A) {c : A}
    → EndsClause g
    → (elim g as (λ x. A) [ and_glue ↦ a | or_glue ↦ b | _ ↦ c ]) ≡ c
glue_stops and_glue a b h = absurd h
glue_stops or_glue a b h = absurd h
glue_stops not_glue a b h = refl
glue_stops null_glue a b h = refl
glue_stops opening a b h = refl
glue_stops closing a b h = refl
glue_stops no_glue a b h = refl

pub more_conditions-end :
    (n : ℕ) (op : LogicalOp) (rest : List Token) (d : ℕ)
    → 0 < n
    → EndsClause (glue (kind (at rest d)))
    → more_conditions n op (at rest d) ≡ ok (empty, op, at rest d)
unfolding more_conditions
more_conditions-end zero op rest d l h = elim l [ ]
more_conditions-end (suc n) op rest d l h = glue_stops (glue (kind (at rest d))) _ _ h

pub where_within-round :
    (n : ℕ) (p q r : Parser) (c : Condition) (cs : Conditions) (op : LogicalOp)
    → condition_within n p ≡ ok (c, q)
    → more_conditions n logical_and q ≡ ok (cs, op, r)
    → where_within (suc n) p ≡ ok (clause (and_then c cs) op, r)
unfolding where_within
where_within-round n p q r c cs op e f = rw e (rw f)

print_condition-nonempty : (c : Condition) → 0 < length (print_condition c)
unfolding print_condition
print_condition-nonempty (compare field op v true) = omega arith
print_condition-nonempty (compare field op v false) = omega arith
print_condition-nonempty (nested true w) = omega arith
print_condition-nonempty (nested false w) = omega arith

print_not-append :
    (negated : Bool) (t : Token) (ts rest : List Token)
    → (print_not negated ++ t ∷ ts) ++ rest ≡ print_not negated ++ t ∷ (ts ++ rest)
print_not-append true t ts rest = refl
print_not-append false t ts rest = refl

length-print_not : (negated : Bool) (ts : List Token) → length ts ≤ length (print_not negated ++ ts)
length-print_not true ts = omega arith
length-print_not false ts = omega arith

empty-nonempty : (c : Condition) (cs : Conditions) → empty ≡ and_then c cs → ⊥
empty-nonempty c cs e = cc e

mutual
  unfolding print_condition

  pub condition_within-print :
      (n : ℕ) (c : Condition) (rest : List Token) (d : ℕ)
      → WritableCondition d c
      → 2 * length (print_condition c) < n
      → condition_within n (at (print_condition c ++ rest) d) ≡ ok (c, at rest d)
  condition_within-print zero c rest d h l = elim l [ ]
  condition_within-print (suc n) (compare field op v negated) rest d h l =
      let operand = print_operand (writing op) v in
      ap (λ ts. condition_within (suc n) (at ts d))
        (print_not-append negated (token token_ident field) operand rest)
      ∙ condition_within-field n negated field (operand ++ rest) d
      ∙ parse_comparison-print field negated rest d op v h
  condition_within-print (suc n) (nested negated w) rest d h l =
      let inside = print_where w ++ mark token_r_paren ∷ [] in
      let size = length-append (print_where w) (mark token_r_paren ∷ []) in
      let less = length-print_not negated (mark token_l_paren ∷ inside) in
      ap (λ ts. condition_within (suc n) (at ts d))
        (print_not-append negated (mark token_l_paren) inside rest)
      ∙ condition_within-group n negated (inside ++ rest) d
      ∙ group_by_parser-print (where_within n) negated w (inside ++ rest) rest d h.0 (
          ap (λ ts. where_within n (at ts (suc d)))
            (append_assoc (print_where w) (mark token_r_paren ∷ []) rest)
          ∙ where_within-print n w (mark token_r_paren ∷ rest) (suc d) h.1
              (omega (arith, l, size, less)) tt)

  where_within-print :
      (n : ℕ) (w : WhereClause) (rest : List Token) (d : ℕ)
      → WritableWhere d w
      → 2 * length (print_where w) + 1 < n
      → EndsClause (glue (kind (at rest d)))
      → where_within n (at (print_where w ++ rest) d) ≡ ok (w, at rest d)
  where_within-print zero w rest d h l e = elim l [ ]
  where_within-print (suc n) (clause empty op) rest d h l e = absurd h
  where_within-print (suc n) (clause (and_then c empty) op) rest d h l e =
      let size = length-append (print_condition c) [] in
      let some_tokens = print_condition-nonempty c in
      ap (λ ts. where_within (suc n) (at ts d)) (append_assoc (print_condition c) [] rest)
      ∙ where_within-round n (at (print_condition c ++ rest) d) (at rest d) (at rest d) c empty
          logical_and (condition_within-print n c rest d h.1 (omega (arith, l, size)))
          (more_conditions-end n logical_and rest d (omega (arith, l, size, some_tokens)) e)
      ∙ ap (λ o. ok (clause (and_then c empty) o, at rest d)) (sym h.0)
  where_within-print (suc n) (clause (and_then c (and_then c' cs)) op) rest d h l e =
      let more = print_more op (and_then c' cs) in
      let size = length-append (print_condition c) more in
      let some_tokens = print_condition-nonempty c in
      ap (λ ts. where_within (suc n) (at ts d)) (append_assoc (print_condition c) more rest)
      ∙ where_within-round n (at (print_condition c ++ (more ++ rest)) d) (at (more ++ rest) d)
          (at rest d) c (and_then c' cs) op
          (condition_within-print n c (more ++ rest) d h.0 (omega (arith, l, size)))
          (more_conditions-print n op logical_and (and_then c' cs) rest d (h.1, h.2)
            (omega (arith, l, size, some_tokens)) e (inr (refl, c', cs, refl)))

  more_conditions-print :
      (n : ℕ) (op o : LogicalOp) (cs : Conditions) (rest : List Token) (d : ℕ)
      → WritableMore d cs
      → 2 * length (print_more op cs) + 1 < n
      → EndsClause (glue (kind (at rest d)))
      → (o ≡ op)
        ⊎ ((o ≡ logical_and) × (c : Condition) × (cs' : Conditions) × (cs ≡ and_then c cs'))
      → more_conditions n o (at (print_more op cs ++ rest) d) ≡ ok (cs, op, at rest d)
  more_conditions-print zero op o cs rest d h l e k = elim l [ ]
  more_conditions-print (suc n) op o empty rest d h l e (inl k) =
      more_conditions-end (suc n) o rest d (omega arith) e ∙ ap (λ o'. ok (empty, o', at rest d)) k
  more_conditions-print (suc n) op o empty rest d h l e (inr (k, c, cs, absent)) =
      absurd (empty-nonempty c cs absent)
  more_conditions-print (suc n) op o (and_then c cs) rest d h l e k =
      let more = print_more op cs in
      let size = length-append (print_condition c) more in
      ap (λ ts. more_conditions (suc n) o (at (mark (glue_token op) ∷ ts) d))
        (append_assoc (print_condition c) more rest)
      ∙ more_conditions-round n op o op (print_condition c ++ (more ++ rest)) d c cs
          (at (more ++ rest) d) (at rest d)
          (elim k [ inl same ↦ inr same | inr other ↦ inl other.0 ])
          (condition_within-print n c (more ++ rest) d h.0 (omega (arith, l, size)))
          (more_conditions-print n op op cs rest d h.1 (omega (arith, l, size)) e (inl refl))

-- parseWhereExpr, before tokens that begin with neither AND nor OR, reads back the tokens of each
-- clause that can be written at the depth of the parser, with its groups, negations, lists and
-- ranges, and leaves the tokens behind and the depth as they were. A clause can be written if no
-- more than 10 parentheses are open in it, every integer is of 64 bits, every float is a literal
-- that ParseFloat accepts, and it has two conditions or more if it is an OR.
pub parse_where_expr-print :
    (w : WhereClause) (rest : List Token) (d : ℕ)
    → WritableWhere d w
    → EndsClause (glue (kind (at rest d)))
    → parse_where_expr (at (print_where w ++ rest) d) ≡ ok (w, at rest d)
unfolding parse_where_expr
parse_where_expr-print w rest d h e =
    where_within-print _ w rest d h (omega (arith, length-append (print_where w) rest)) e
