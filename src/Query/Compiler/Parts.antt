-- ===== src/Query/Compiler/Parts.antt =====
-- The placeholders in the parts of a statement of internal/query/compiler.go.
use codeai.Base.{
  ℕ, ◌≡◌, refl, ap, sym, ◌∙◌, subst, List, [], ◌∷◌, ◌++◌, map, Option, none, some, String,
  append-nil,
}
use codeai.Query.Consumed.{if_elim}
use codeai.Query.Tokens.{codes}
use codeai.Query.Ast.{ℤ, OrderClause, Value, WhereClause, Query, EntityMeta}
use codeai.Query.Compiler.Sql.{words, Sql, is_blank, SqlCompiler, Params}
use codeai.Query.Compiler.Names.{column}
use codeai.Query.Compiler.Conditions.{compile_where}
use codeai.Query.Compiler.Statements.{
  columns_of, table, optional_where, with_not_deleted, compile_where_with_soft_delete, where_part,
  filtered, select_fields, group_part, having_part, order_of, order_part, number_part, select_tail,
  select_head,
}
use codeai.Query.Compiler.Operands.{
  optional_operands, placeholders, placeholders-append, Binds, Binds-nothing, Binds-append,
  OnSuccess, OnSuccess-bind, Places,
}
use codeai.Query.Compiler.Placed.{
  all_placeholders, placeholders-join, placeholders-blank, compile_where-Places,
}

placeholders-with_not_deleted :
    (sql : Sql) (col : List ℕ) → placeholders (with_not_deleted sql col) ≡ placeholders sql
placeholders-with_not_deleted sql [] = refl
placeholders-with_not_deleted sql (ch ∷ col) =
    if_elim (λ out. placeholders out ≡ placeholders sql) (is_blank sql)
      (λ e. sym (placeholders-blank sql e))
      (λ e. placeholders-append sql _ ∙ append-nil (placeholders sql))

placeholders-where_part : (sql : Sql) → placeholders (where_part sql) ≡ placeholders sql
placeholders-where_part sql =
    if_elim (λ out. placeholders out ≡ placeholders sql) (is_blank sql)
      (λ e. sym (placeholders-blank sql e)) (λ e. refl)

-- Texts with no placeholders, in an order.
all_placeholders-columns :
    (entity : EntityMeta) (names : List (List ℕ))
    → all_placeholders (map (λ p. p ∷ []) (map (column entity) names)) ≡ []
unfolding column
all_placeholders-columns entity [] = refl
all_placeholders-columns entity (name ∷ names) = all_placeholders-columns entity names

placeholders-columns_of :
    (entity : EntityMeta) (names : List (List ℕ)) → placeholders (columns_of entity names) ≡ []
placeholders-columns_of entity names =
    placeholders-join (codes ", ") (map (λ p. p ∷ []) (map (column entity) names))
    ∙ all_placeholders-columns entity names

optional_where-Places :
    (show : Value → List ℕ) (entity : EntityMeta) (w : Option WhereClause) (s : Params)
    → OnSuccess (Places (optional_operands show w) s) (optional_where show entity w s)
optional_where-Places show entity none s = Binds-nothing s
optional_where-Places show entity (some w) s = compile_where-Places show entity w s

-- Behind a head with the parameters `old`, the condition has the numbers that follow.
pub filtered-Places :
    (c : SqlCompiler) (entity : EntityMeta) (q : Query) (head : Sql) (old : List Value)
    (s₀ s : Params)
    → Binds old s₀ s (placeholders head)
    → OnSuccess
        (Places (old ++ optional_operands c.show q.condition) s₀)
        (filtered c entity q head s)
unfolding filtered compile_where_with_soft_delete
filtered-Places c entity q head old s₀ s a =
    let new = optional_operands c.show q.condition in
    OnSuccess-bind (Places new s) (Places (old ++ new) s₀)
      (compile_where_with_soft_delete c.show entity q.condition s) _
      (OnSuccess-bind (Places new s) (Places new s) (optional_where c.show entity q.condition s) _
        (optional_where-Places c.show entity q.condition s)
        (λ (sql, s') b.
          subst (Binds new s s') (sym (placeholders-with_not_deleted sql entity.soft_delete)) b))
      (λ (sql, s') b.
        subst (Binds (old ++ new) s₀ s')
          (sym (
            placeholders-append head (where_part sql)
            ∙ ap (λ ms. placeholders head ++ ms) (placeholders-where_part sql)))
          (Binds-append old new s₀ s s' _ _ a b))

pub having_part-Places :
    (show : Value → List ℕ) (entity : EntityMeta) (w : Option WhereClause) (s : Params)
    → OnSuccess (Places (optional_operands show w) s) (having_part show entity w s)
unfolding having_part
having_part-Places show entity none s = Binds-nothing s
having_part-Places show entity (some w) s =
    let new = optional_operands show (some w) in
    OnSuccess-bind (Places new s) (Places new s) (compile_where show entity w s) _
      (compile_where-Places show entity w s) (λ (sql, s') b. b)

pub placeholders-select_head :
    (entity : EntityMeta) (q : Query) → placeholders (select_head entity q) ≡ []
unfolding select_head
placeholders-select_head entity q = of_fields q.fields
  where
    of_fields :
        (names : List (List ℕ))
        → placeholders
            (words "SELECT " ∷ (select_fields entity names ++ words " FROM " ∷ table entity ∷ []))
          ≡ []
    of_fields [] = refl
    of_fields (f ∷ fs) =
        placeholders-append (columns_of entity (f ∷ fs)) (words " FROM " ∷ table entity ∷ [])
        ∙ ap (λ ms. ms ++ []) (placeholders-columns_of entity (f ∷ fs))

pub placeholders-group_part :
    (entity : EntityMeta) (names : List (List ℕ)) → placeholders (group_part entity names) ≡ []
placeholders-group_part entity [] = refl
placeholders-group_part entity (g ∷ gs) = placeholders-columns_of entity (g ∷ gs)

all_placeholders-orders :
    (entity : EntityMeta) (orders : List OrderClause)
    → all_placeholders (map (order_of entity) orders) ≡ []
unfolding column
all_placeholders-orders entity [] = refl
all_placeholders-orders entity (o ∷ os) = all_placeholders-orders entity os

placeholders-order_part :
    (entity : EntityMeta) (orders : List OrderClause) → placeholders (order_part entity orders) ≡ []
placeholders-order_part entity [] = refl
placeholders-order_part entity (o ∷ os) =
    placeholders-join (codes ", ") (map (order_of entity) (o ∷ os))
    ∙ all_placeholders-orders entity (o ∷ os)

placeholders-number_part :
    (keyword : String) (n : Option ℤ) → placeholders (number_part keyword n) ≡ []
placeholders-number_part keyword none = refl
placeholders-number_part keyword (some n) = refl

pub placeholders-select_tail :
    (entity : EntityMeta) (q : Query) → placeholders (select_tail entity q) ≡ []
unfolding select_tail
placeholders-select_tail entity q =
    placeholders-append (order_part entity q.order_by ++ number_part " LIMIT " q.limit)
      (number_part " OFFSET " q.offset)
    ∙ ap (λ ms. ms ++ placeholders (number_part " OFFSET " q.offset))
        (placeholders-append (order_part entity q.order_by) (number_part " LIMIT " q.limit)
          ∙ ap (λ ms. ms ++ placeholders (number_part " LIMIT " q.limit))
              (placeholders-order_part entity q.order_by)
          ∙ placeholders-number_part " LIMIT " q.limit)
    ∙ placeholders-number_part " OFFSET " q.offset
