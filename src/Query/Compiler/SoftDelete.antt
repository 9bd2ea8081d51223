-- ===== src/Query/Compiler/SoftDelete.antt =====
-- The statements of internal/query/compiler.go on an entity whose rows are marked as deleted.
use codeai.Base.{
  ℕ, ◌≡◌, refl, ap, sym, ◌∙◌, subst, ◌⊎◌, inl, inr, false, List, [], ◌∷◌, ◌++◌, some, append_assoc,
  append-nil,
}
use codeai.Query.Consumed.{if_elim}
use codeai.Query.Ast.{
  QueryType, query_select, query_count, query_sum, query_avg, query_min, query_max, query_update,
  query_delete, Query, EntityMeta,
}
use codeai.Query.Compiler.Sql.{
  Piece, raw, words, Sql, is_blank, SqlCompiler, Params, no_params, Compiled, compiled, failed,
}
use codeai.Query.Compiler.Names.{get_entity, quote_ident}
use codeai.Query.Compiler.Statements.{
  table, optional_where, not_deleted, with_not_deleted, compile_where_with_soft_delete, filtered,
  having_part, select_head, group_part, select_tail, compile_select, compile_count,
  compile_aggregate_func, compile_update, delete_head, compile_delete, compile_as, compile_found,
  compile,
}
use codeai.Query.Compiler.Operands.{OnSuccess, OnSuccess-bind}
use codeai.Query.Compiler.Quoting.{is_blank-quote_ident}

-- A condition that is the test of the column alone, or some other condition and the test, each in
-- parentheses.
abbrev pub GuardedBy : List ℕ → Sql → Type 0
GuardedBy col g =
    (g ≡ not_deleted col)
    ⊎ ((w : Sql) × (g ≡ words "(" ∷ (w ++ words ") AND (" ∷ (not_deleted col ++ words ")" ∷ []))))

-- A statement with such a condition behind its WHERE.
abbrev pub Guarded : List ℕ → Sql → Type 0
Guarded col sql =
    (head : Sql) × (g : Sql) × (tail : Sql) × (sql ≡ head ++ words " WHERE " ∷ (g ++ tail))
    × GuardedBy col g

-- The same with a head that is known, and nothing behind.
abbrev pub GuardedAt : Sql → List ℕ → Sql × Params → Type 0
GuardedAt head col (sql, s) = (g : Sql) × (sql ≡ head ++ words " WHERE " ∷ g) × GuardedBy col g

with_not_deleted-GuardedBy :
    (sql : Sql) (ch : ℕ) (col : List ℕ)
    → GuardedBy (ch ∷ col) (with_not_deleted sql (ch ∷ col))
      × (is_blank (with_not_deleted sql (ch ∷ col)) ≡ false)
with_not_deleted-GuardedBy sql ch col =
    if_elim (λ g. GuardedBy (ch ∷ col) g × (is_blank g ≡ false)) (is_blank sql)
      (λ e. (inl refl, is_blank-quote_ident (ch ∷ col) (words " IS NULL" ∷ [])))
      (λ e. (inr (sql, refl), refl))

anything : {A : Type 0} (m : Compiled A) → OnSuccess (λ a. Unit {0}) m
anything (compiled a) = tt
anything (failed e) = tt

regroup :
    (sql head g groups having tail : Sql) (w : Piece)
    → sql ≡ head ++ w ∷ g
    → sql ++ groups ++ having ++ tail ≡ head ++ w ∷ (g ++ (groups ++ having ++ tail))
regroup sql head g groups having tail w e = simp (e, append_assoc)

module _ (c : SqlCompiler) (entity : EntityMeta) (q : Query) (ch : ℕ) (col : List ℕ)
    (marked : entity.soft_delete ≡ ch ∷ col) where
  filtered-GuardedAt :
      (head : Sql) (s : Params) → OnSuccess (GuardedAt head (ch ∷ col)) (filtered c entity q head s)
  unfolding filtered compile_where_with_soft_delete
  filtered-GuardedAt head s =
      OnSuccess-bind (λ r. (GuardedBy (ch ∷ col) r.0) × (is_blank r.0 ≡ false))
        (GuardedAt head (ch ∷ col)) (compile_where_with_soft_delete c.show entity q.condition s) _
        (OnSuccess-bind (λ r. Unit {0}) (λ r. (GuardedBy (ch ∷ col) r.0) × (is_blank r.0 ≡ false))
          (optional_where c.show entity q.condition s) _
          (anything (optional_where c.show entity q.condition s))
          (λ (sql, s') u.
            subst
              (λ col'.
                GuardedBy (ch ∷ col) (with_not_deleted sql col')
                × (is_blank (with_not_deleted sql col') ≡ false))
              (sym marked) (with_not_deleted-GuardedBy sql ch col)))
        (λ (sql, s') h. (sql, rw h.1, h.0))

  GuardedAt-Guarded :
      (head : Sql) (m : Compiled (Sql × Params))
      → OnSuccess (GuardedAt head (ch ∷ col)) m
      → OnSuccess (λ r. Guarded (ch ∷ col) r.0) m
  GuardedAt-Guarded head (compiled (sql, s)) (g, e, h) =
      (head, g, [], e ∙ ap (λ g'. head ++ words " WHERE " ∷ g') (sym (append-nil g)), h)
  GuardedAt-Guarded head (failed e) h = tt

  compile_select-Guarded :
      (s : Params) → OnSuccess (λ r. Guarded (ch ∷ col) r.0) (compile_select c entity q s)
  unfolding compile_select
  compile_select-Guarded s =
      let head = select_head entity q in
      OnSuccess-bind (GuardedAt head (ch ∷ col)) (λ r. Guarded (ch ∷ col) r.0)
        (filtered c entity q head s) _ (filtered-GuardedAt head s)
        (λ (sql, s₁) (g, e, h).
          OnSuccess-bind (λ r. Unit {0}) (λ r. Guarded (ch ∷ col) r.0)
            (having_part c.show entity q.having s₁) _
            (anything (having_part c.show entity q.having s₁))
            (λ (having, s₂) u. (
              head,
              g,
              group_part entity q.group_by ++ having ++ select_tail entity q,
              regroup sql head g _ having _ (words " WHERE ") e,
              h,
            )))

  filtered-Guarded :
      (head : Sql) (s : Params)
      → OnSuccess (λ r. Guarded (ch ∷ col) r.0) (filtered c entity q head s)
  filtered-Guarded head s =
      GuardedAt-Guarded head (filtered c entity q head s) (filtered-GuardedAt head s)

  compile_as-Guarded :
      (type : QueryType) (s : Params)
      → OnSuccess (λ r. Guarded (ch ∷ col) r.0) (compile_as type c entity q s)
  unfolding compile_as compile_count compile_aggregate_func compile_update compile_delete
  compile_as-Guarded query_select s = compile_select-Guarded s
  compile_as-Guarded query_count s = filtered-Guarded _ s
  compile_as-Guarded query_sum s = filtered-Guarded _ s
  compile_as-Guarded query_avg s = filtered-Guarded _ s
  compile_as-Guarded query_min s = filtered-Guarded _ s
  compile_as-Guarded query_max s = filtered-Guarded _ s
  compile_as-Guarded query_update s = filtered-Guarded _ _
  compile_as-Guarded query_delete s = filtered-Guarded _ s

  -- On an entity with a column for deleted rows, each statement that Compile gives, of whatever
  -- type, has behind its WHERE the test that the column is NULL, alone, or behind another condition
  -- and AND, each of the two in parentheses.
  pub compile-Guarded :
      get_entity c q.entity ≡ some entity → OnSuccess (λ r. Guarded (ch ∷ col) r.sql) (compile c q)
  unfolding compile
  compile-Guarded found =
      subst (λ o. OnSuccess (λ r. Guarded (ch ∷ col) r.sql) (compile_found c q o)) (sym found)
        (OnSuccess-bind (λ r. Guarded (ch ∷ col) r.0) (λ r. Guarded (ch ∷ col) r.sql)
          (compile_as q.query_type c entity q no_params) _
          (compile_as-Guarded q.query_type no_params) (λ (sql, s) h. h))

  -- And a DELETE on such an entity, if `Compile` gives a statement, is an UPDATE that sets the column to
  -- the current time, under that test.
  pub compile_delete-GuardedAt :
      (s : Params)
      → OnSuccess
          (GuardedAt
            (words "UPDATE "
              ∷ table entity
              ∷ words " SET "
              ∷ raw (quote_ident (ch ∷ col))
              ∷ words " = NOW()"
              ∷ [])
            (ch ∷ col))
          (compile_delete c entity q s)
  unfolding compile_delete delete_head
  compile_delete-GuardedAt s =
      subst
        (λ col'.
          OnSuccess (GuardedAt (delete_head entity (ch ∷ col)) (ch ∷ col))
            (filtered c entity q (delete_head entity col') s))
        (sym marked) (filtered-GuardedAt (delete_head entity (ch ∷ col)) s)
