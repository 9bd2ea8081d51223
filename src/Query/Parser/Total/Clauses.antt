-- ===== src/Query/Parser/Total/Clauses.antt =====
-- The lists and clauses of internal/query/parser.go end on every list of tokens.
use codeai.Base.{
  ℕ, zero, suc, ◌<◌, ◌≤◌, ◌≡◌, refl, List, [], ◌∷◌, length, ◌∙◌, inl, inr, if◌then◌else◌, Bool,
  true, false, some, String, arith,
}
use codeai.Query.Consumed.{if_elim}
use codeai.Query.Ast.{update_set_value, Query}
use codeai.Query.Parser.State.{
  Parser, Outcome, ok, kind, current, advance, unexpected, is_eof, is_identifier_or_keyword,
}
use codeai.Query.Parser.Values.{separator, parse_value, parse_int_token}
use codeai.Query.Parser.Conditions.{parse_where_expr}
use codeai.Query.Parser.Clauses.{
  separated, ident_entry, parse_ident_list, is_asc, is_desc, direction, order_entry, parse_order_by,
  is_equals, update_entry, parse_update_sets, ClauseKind, include_clause, where_clause,
  order_clause, group_clause, group_by_clause, having_clause, limit_clause, offset_clause,
  no_clause, clause_kind, is_by, skip_by, parse_clause, clauses_within, parse_clauses,
}
use codeai.Query.Parser.Returns.{Returns, Returns-bind, Steps, Steps-trans, Reads, switch_bool}
use codeai.Query.Parser.Total.Values.{
  end_or_step, AtLeast, comma-taken, switch_separator, parse_value-Reads, parse_int_token-Reads,
}
use codeai.Query.Parser.Total.Conditions.{parse_where_expr-Reads}
use codeai.Query.Parser.Total.Operators.{Returns-Steps, Reads-map, word-step}

-- A list takes a token or more if it must have an entry.
abbrev Spans : {A : Type 0} → Bool → Parser → A × Parser → Type 0
Spans true p (a, q) = Steps p q
Spans false p (a, q) = (length q.tokens ≤ length p.tokens) × (q.depth ≡ p.depth)

Steps-Spans :
    {A : Type 0} (starts : Bool) (p q : Parser) (a : A) → Steps p q → Spans starts p (a, q)
Steps-Spans true p q a s = s
Steps-Spans false p q a s = (omega (arith, s.fewer), s.level)

Spans-none :
    (A : Type 0) (starts : Bool) (p : Parser) (expected : String)
    → Returns (Spans {A = List A} starts p) (if starts then unexpected p expected else ok ([], p))
Spans-none A true p expected = tt
Spans-none A false p expected = (omega arith, refl)

separated-Spans :
    {A : Type 0} (entry : Parser → Outcome (A × Parser)) (expected : String) (n : ℕ) (starts : Bool)
    (p : Parser)
    → ((q : Parser) → is_identifier_or_keyword q ≡ true → Returns (Reads q) (entry q))
    → length p.tokens < n
    → Returns (Spans starts p) (separated entry expected n starts p)
unfolding separated
separated-Spans entry expected zero starts p h l = elim l [ ]
separated-Spans entry expected (suc n) starts p h l =
    switch_bool (Returns (Spans starts p)) (is_identifier_or_keyword p)
      (λ e. Returns-bind (Reads p) (Spans starts p) (entry p) _ (h p e) (λ (a, q) s.
        switch_separator (Returns (Spans starts p)) (separator (kind q))
          (λ c.
            let t = Steps-trans p q (advance q) s (comma-taken q c) in
            Returns-bind (Spans false (advance q)) (Spans starts p)
              (separated entry expected n false (advance q)) _
              (separated-Spans entry expected n false (advance q) h (omega (arith, l, t.fewer)))
              (λ (more, r) k.
                Steps-Spans starts p r (a ∷ more)
                  (record { fewer = omega (arith, k.0, t.fewer); level = k.1 ∙ t.level })))
          (λ c. Steps-Spans starts p q (a ∷ []) s) (λ c. Steps-Spans starts p q (a ∷ []) s)
          (λ c. Steps-Spans starts p q (a ∷ []) s)))
      (λ e. Spans-none _ starts p expected)

pub parse_ident_list-Reads : (p : Parser) → Returns (Reads p) (parse_ident_list p)
unfolding parse_ident_list
parse_ident_list-Reads p =
    separated-Spans ident_entry "identifier" _ true p (λ q e. word-step q e) (omega arith)

direction-AtLeast : (p : Parser) → AtLeast p (direction p)
direction-AtLeast p = elim (end_or_step p) [
  | inl eof ↦ rw (eof, direction) (omega arith, refl)
  | inr s ↦
      let past : (length (advance p).tokens ≤ length p.tokens) × ((advance p).depth ≡ p.depth) =
        (omega (arith, s.fewer), refl) in
      if_elim (AtLeast p) (is_asc (kind p)) (λ e. past)
        (λ e. if_elim (AtLeast p) (is_desc (kind p)) (λ e'. past) (λ e'. (omega arith, refl)))
]

pub parse_order_by-Reads : (p : Parser) → Returns (Reads p) (parse_order_by p)
unfolding parse_order_by
parse_order_by-Reads p =
    separated-Spans order_entry "field name" _ true p
      (λ q e.
        let s = word-step q e in
        let l = direction-AtLeast (advance q) in
        record { fewer = omega (arith, s.fewer, l.0); level = l.1 })
      (omega arith)

update_entry-Reads :
    (p : Parser) → is_identifier_or_keyword p ≡ true → Returns (Reads p) (update_entry p)
unfolding update_entry
update_entry-Reads p e =
    let q = advance p in
    let s = word-step p e in
    if_elim (Returns (Reads p)) (is_equals (kind q))
      (λ t. elim (end_or_step q) [
        | inl eof ↦ cc (rw eof at t)
        | inr s' ↦ Returns-Steps p (advance q) _ (Steps-trans p q (advance q) s s') (
            Reads-map (advance q) (parse_value (advance q))
              (λ v. record { field = (current p).value; value = v; op = update_set_value })
              (parse_value-Reads (advance q)))
      ])
      (λ t. tt)

pub parse_update_sets-Reads : (p : Parser) → Returns (Reads p) (parse_update_sets p)
unfolding parse_update_sets
parse_update_sets-Reads p =
    separated-Spans update_entry "field name" _ true p update_entry-Reads (omega arith)

switch_clause :
    {A : Type 0} (P : A → Type 0) (k : ClauseKind) {a b c d e f g h i : A}
    → P a
    → P b
    → P c
    → P d
    → P e
    → P f
    → P g
    → P h
    → P i
    → P (elim k as (λ x. A) [
      | include_clause ↦ a
      | where_clause ↦ b
      | order_clause ↦ c
      | group_clause ↦ d
      | group_by_clause ↦ e
      | having_clause ↦ f
      | limit_clause ↦ g
      | offset_clause ↦ h
      | no_clause ↦ i
    ])
switch_clause P include_clause a b c d e f g h i = a
switch_clause P where_clause a b c d e f g h i = b
switch_clause P order_clause a b c d e f g h i = c
switch_clause P group_clause a b c d e f g h i = d
switch_clause P group_by_clause a b c d e f g h i = e
switch_clause P having_clause a b c d e f g h i = f
switch_clause P limit_clause a b c d e f g h i = g
switch_clause P offset_clause a b c d e f g h i = h
switch_clause P no_clause a b c d e f g h i = i

-- A part behind a keyword and perhaps a `BY`.
skip_by-Reads :
    {A : Type 0} (p : Parser) (f : Parser → Outcome (A × Parser))
    → ((q : Parser) → Returns (Reads q) (f q))
    → Steps p (advance p)
    → Returns (Reads p) (f (skip_by (advance p)))
skip_by-Reads p f h s =
    let q = advance p in
    if_elim (λ r. Returns (Reads p) (f r)) (is_by (kind q))
      (λ e. elim (end_or_step q) [
        | inl eof ↦ cc (rw eof at e)
        | inr s' ↦
            Returns-Steps p (advance q) (f (advance q)) (Steps-trans p q (advance q) s s')
              (h (advance q))
      ])
      (λ e. Returns-Steps p q (f q) s (h q))

pub parse_clause-Reads : (q : Query) (p : Parser) → Returns (Reads p) (parse_clause q p)
unfolding parse_clause
parse_clause-Reads q p = elim (end_or_step p) [
  | inl eof ↦ rw (eof, Returns) tt
  | inr s ↦
      let r = advance p in
      let words = skip_by-Reads p parse_ident_list parse_ident_list-Reads s in
      let plain_words = Returns-Steps p r (parse_ident_list r) s (parse_ident_list-Reads r) in
      let condition = Returns-Steps p r (parse_where_expr r) s (parse_where_expr-Reads r) in
      let number = Returns-Steps p r (parse_int_token r) s (parse_int_token-Reads r) in
      switch_clause (Returns (Reads p)) (clause_kind (kind p))
        (Reads-map p (parse_ident_list r) (λ names. record q { include = names }) plain_words)
        (Reads-map p (parse_where_expr r) (λ w. record q { condition = some w }) condition)
        (Reads-map p (parse_order_by (skip_by r)) (λ orders. record q { order_by = orders })
          (skip_by-Reads p parse_order_by parse_order_by-Reads s))
        (Reads-map p (parse_ident_list (skip_by r)) (λ names. record q { group_by = names }) words)
        (Reads-map p (parse_ident_list r) (λ names. record q { group_by = names }) plain_words)
        (Reads-map p (parse_where_expr r) (λ w. record q { having = some w }) condition)
        (Reads-map p (parse_int_token r) (λ n. record q { limit = some n }) number)
        (Reads-map p (parse_int_token r) (λ n. record q { offset = some n }) number) tt
]

clauses_within-Ends :
    (n : ℕ) (q : Query) (p : Parser)
    → length p.tokens < n
    → Returns (λ r. Unit) (clauses_within n q p)
unfolding clauses_within
clauses_within-Ends zero q p h = elim h [ ]
clauses_within-Ends (suc n) q p h =
    switch_bool (Returns (λ r. Unit)) (is_eof (kind p)) (λ e. tt)
      (λ e.
        Returns-bind (Reads p) (λ r. Unit) (parse_clause q p) _ (parse_clause-Reads q p)
          (λ (q', p') s. clauses_within-Ends n q' p' (omega (arith, h, s.fewer))))

pub parse_clauses-Ends : (q : Query) (p : Parser) → Returns (λ r. Unit) (parse_clauses q p)
unfolding parse_clauses
parse_clauses-Ends q p = clauses_within-Ends _ q p (omega arith)
