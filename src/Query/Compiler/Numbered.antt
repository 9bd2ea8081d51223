-- ===== src/Query/Compiler/Numbered.antt =====
-- The parameters of a statement of internal/query/compiler.go, and the numbers of its placeholders.
use codeai.Base.{
  ℕ, suc, ◌≡◌, refl, ap, ap₂, sym, ◌∙◌, subst, List, [], ◌∷◌, ◌++◌, Option, none, some, append-nil,
}
use codeai.Query.Tokens.{codes}
use codeai.Query.Ast.{
  QueryType, query_select, query_count, query_sum, query_avg, query_min, query_max, query_update,
  query_delete, UpdateOp, update_set_value, update_increment, update_decrement, update_append,
  update_remove, UpdateSet, Query, EntityMeta,
}
use codeai.Query.Compiler.Sql.{raw, placeholder, Sql, SqlCompiler, Params, no_params, bind}
use codeai.Query.Compiler.Names.{get_entity, column}
use codeai.Query.Compiler.Statements.{
  filtered, group_part, having_part, select_tail, select_head, compile_select, compile_count,
  compile_aggregate_func, assigned, compile_sets, compile_update, delete_head, compile_delete,
  compile_as, compile_found, compile,
}
use codeai.Query.Compiler.Operands.{
  optional_operands, set_operands, operands_as, query_operands, placeholders, placeholders-append,
  numbered, Binds, Binds-nothing, Binds-append, Binds-bind, OnSuccess, OnSuccess-bind, Places,
}
use codeai.Query.Compiler.Placed.{all_placeholders, placeholders-join}
use codeai.Query.Compiler.Parts.{
  filtered-Places, having_part-Places, placeholders-select_head, placeholders-group_part,
  placeholders-select_tail,
}

-- Behind a head with no placeholders.
plain-Places :
    (c : SqlCompiler) (entity : EntityMeta) (q : Query) (head : Sql) (s : Params)
    → placeholders head ≡ []
    → OnSuccess (Places (optional_operands c.show q.condition) s) (filtered c entity q head s)
plain-Places c entity q head s e =
    filtered-Places c entity q head [] s s (subst (Binds [] s s) (sym e) (Binds-nothing s))

compile_select-Places :
    (c : SqlCompiler) (entity : EntityMeta) (q : Query) (s : Params)
    → OnSuccess
        (Places (optional_operands c.show q.condition ++ optional_operands c.show q.having) s)
        (compile_select c entity q s)
unfolding compile_select
compile_select-Places c entity q s =
    let old = optional_operands c.show q.condition in
    let new = optional_operands c.show q.having in
    OnSuccess-bind (Places old s) (Places (old ++ new) s)
      (filtered c entity q (select_head entity q) s) _
      (plain-Places c entity q (select_head entity q) s (placeholders-select_head entity q))
      (λ (sql, s₁) a.
        OnSuccess-bind (Places new s₁) (Places (old ++ new) s)
          (having_part c.show entity q.having s₁) _ (having_part-Places c.show entity q.having s₁)
          (λ (having, s₂) b.
            subst (Binds (old ++ new) s s₂) (sym (shown sql having))
              (Binds-append old new s s₁ s₂ _ _ a b)))
  where
    shown :
        (sql having : Sql)
        → placeholders (sql ++ group_part entity q.group_by ++ having ++ select_tail entity q)
          ≡ placeholders sql ++ placeholders having
    shown sql having =
        placeholders-append (sql ++ group_part entity q.group_by ++ having) (select_tail entity q)
        ∙ ap₂ (λ ms ns. ms ++ ns)
            (placeholders-append (sql ++ group_part entity q.group_by) having
              ∙ ap (λ ms. ms ++ placeholders having)
                  (placeholders-append sql (group_part entity q.group_by)
                    ∙ ap (λ ms. placeholders sql ++ ms) (placeholders-group_part entity q.group_by)
                    ∙ append-nil (placeholders sql)))
            (placeholders-select_tail entity q)
        ∙ append-nil (placeholders sql ++ placeholders having)

placeholders-assigned :
    (op : UpdateOp) (col : List ℕ) (n : ℕ)
    → placeholders (assigned op (raw col) (placeholder n)) ≡ n ∷ []
placeholders-assigned update_set_value col n = refl
placeholders-assigned update_increment col n = refl
placeholders-assigned update_decrement col n = refl
placeholders-assigned update_append col n = refl
placeholders-assigned update_remove col n = refl

compile_sets-Binds :
    (entity : EntityMeta) (us : List UpdateSet) (s : Params)
    → Binds
        (set_operands us)
        s
        (compile_sets entity us s).1
        (all_placeholders (compile_sets entity us s).0)
unfolding compile_sets column
compile_sets-Binds entity [] s = Binds-nothing s
compile_sets-Binds entity (u ∷ us) s =
    Binds-append (u.value ∷ []) (set_operands us) s (bind u.value s) _ _ _
      (subst (Binds (u.value ∷ []) s (bind u.value s))
        (sym (placeholders-assigned u.op _ (suc s.param_idx))) (Binds-bind u.value s))
      (compile_sets-Binds entity us (bind u.value s))

compile_update-Places :
    (c : SqlCompiler) (entity : EntityMeta) (q : Query) (s : Params)
    → OnSuccess
        (Places (set_operands q.updates ++ optional_operands c.show q.condition) s)
        (compile_update c entity q s)
unfolding compile_update
compile_update-Places c entity q s =
    let sets = compile_sets entity q.updates s in
    filtered-Places c entity q _ (set_operands q.updates) s sets.1 (
      subst (Binds (set_operands q.updates) s sets.1) (sym (placeholders-join (codes ", ") sets.0))
        (compile_sets-Binds entity q.updates s))

placeholders-delete_head :
    (entity : EntityMeta) (col : List ℕ) → placeholders (delete_head entity col) ≡ []
unfolding delete_head
placeholders-delete_head entity [] = refl
placeholders-delete_head entity (ch ∷ col) = refl

module _ (c : SqlCompiler) (entity : EntityMeta) (q : Query) (s : Params) where
  compile_aggregate_func-Places :
      OnSuccess
        (Places (optional_operands c.show q.condition) s)
        (compile_aggregate_func c entity q s)
  unfolding compile_aggregate_func column
  compile_aggregate_func-Places = plain-Places c entity q _ s refl

  compile_as-Places :
      (type : QueryType)
      → OnSuccess (Places (operands_as type c.show q) s) (compile_as type c entity q s)
  unfolding compile_as compile_count compile_delete
  compile_as-Places query_select = compile_select-Places c entity q s
  compile_as-Places query_count = plain-Places c entity q _ s refl
  compile_as-Places query_sum = compile_aggregate_func-Places
  compile_as-Places query_avg = compile_aggregate_func-Places
  compile_as-Places query_min = compile_aggregate_func-Places
  compile_as-Places query_max = compile_aggregate_func-Places
  compile_as-Places query_update = compile_update-Places c entity q s
  compile_as-Places query_delete =
      plain-Places c entity q (delete_head entity entity.soft_delete) s
        (placeholders-delete_head entity entity.soft_delete)

-- If Compile gives a statement, its parameters are the operands of the query in the order of its
-- tree, those of the assignments first, the patterns of ILIKE with their percent signs and a text
-- search as what is printed of its value, and the placeholders of the statement, from left to
-- right, are $1, $2 and so on, one for each parameter.
pub compile-IsNumbered :
    (c : SqlCompiler) (q : Query)
    → OnSuccess
        (λ r. (r.params ≡ query_operands c.show q) × (placeholders r.sql ≡ numbered 1 r.params))
        (compile c q)
unfolding compile
compile-IsNumbered c q = of_entity (get_entity c q.entity)
  where
    of_entity :
        (found : Option EntityMeta)
        → OnSuccess
            (λ r. (r.params ≡ query_operands c.show q) × (placeholders r.sql ≡ numbered 1 r.params))
            (compile_found c q found)
    of_entity none = tt
    of_entity (some entity) =
        OnSuccess-bind (Places (query_operands c.show q) no_params) _
          (compile_as q.query_type c entity q no_params) _
          (compile_as-Places c entity q no_params q.query_type)
          (λ (sql, s) b. (b.appended, b.marked ∙ ap (numbered 1) (sym b.appended)))
