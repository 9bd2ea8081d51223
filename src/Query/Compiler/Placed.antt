-- ===== src/Query/Compiler/Placed.antt =====
-- The placeholders of conditions in internal/query/compiler.go: each condition has the numbers of its own
-- parameters, in the order of the operands.
use codeai.Base.{
  ℕ, ◌≡◌, refl, ap, sym, ◌∙◌, subst, Bool, true, false, List, [], ◌∷◌, ◌++◌, String, append-nil,
}
use codeai.Query.Consumed.{if_elim}
use codeai.Query.Tokens.{codes}
use codeai.Query.Ast.{
  CompareOp, op_equals, op_in, op_not_in, op_is_null, op_is_not_null, op_between, op_fuzzy,
  op_exact, LogicalOp, logical_and, logical_or, Value, text, integer, float, boolean, null,
  parameter, array, range, Values, nil, cons, Condition, compare, nested, WhereClause, clause,
  Conditions, empty, and_then, EntityMeta,
}
use codeai.Query.Compiler.Sql.{raw, placeholder, words, Sql, is_blank, join, Params, bind}
use codeai.Query.Compiler.Names.{quote_ident, map_column, column, is_json}
use codeai.Query.Compiler.Conditions.{
  not_bytes, not_prefix, placeholders_of, in_list, compile_in, compile_not_in, compile_between,
  compile_operator, compile_text_search, compile_comparison, joined, negate_group, keep,
  compile_condition, compile_where, compile_conditions,
}
use codeai.Query.Compiler.Operands.{
  list_of, list_operands, range_operands, operands, field_operands, condition_operands,
  where_operands, conditions_operands, placeholders, placeholders-append, Binds, Binds-nothing,
  Binds-append, Binds-bind, OnSuccess, OnSuccess-bind, Places,
}

-- The placeholders of several texts.
abbrev pub all_placeholders : List Sql → List ℕ
all_placeholders [] = []
all_placeholders (sql ∷ sqls) = placeholders sql ++ all_placeholders sqls

pub placeholders-join :
    (sep : List ℕ) (sqls : List Sql) → placeholders (join (raw sep) sqls) ≡ all_placeholders sqls
unfolding join
placeholders-join sep [] = refl
placeholders-join sep (sql ∷ []) = sym (append-nil (placeholders sql))
placeholders-join sep (sql ∷ next ∷ rest) =
    placeholders-append sql (raw sep ∷ join (raw sep) (next ∷ rest))
    ∙ ap (λ ms. placeholders sql ++ ms) (placeholders-join sep (next ∷ rest))

-- Text around a part has no placeholders.
pub placeholders-wrapped :
    (before after : List ℕ) (sql : Sql)
    → placeholders (raw before ∷ (sql ++ raw after ∷ [])) ≡ placeholders sql
placeholders-wrapped before after sql =
    placeholders-append sql (raw after ∷ []) ∙ append-nil (placeholders sql)

pub placeholders-blank : (sql : Sql) → is_blank sql ≡ true → placeholders sql ≡ []
placeholders-blank [] h = refl
placeholders-blank (raw [] ∷ sql) h = placeholders-blank sql h
placeholders-blank (raw (ch ∷ bytes) ∷ sql) h = cc h
placeholders-blank (placeholder n ∷ sql) h = cc h

placeholders_of-Binds :
    (vs : Values) (s : Params)
    → Binds (list_of vs) s (placeholders_of vs s).1 (all_placeholders (placeholders_of vs s).0)
unfolding placeholders_of
placeholders_of-Binds nil s = Binds-nothing s
placeholders_of-Binds (cons v vs) s =
    Binds-append (v ∷ []) (list_of vs) s (bind v s) _ _ _ (Binds-bind v s)
      (placeholders_of-Binds vs (bind v s))

in_list-Places :
    (prefix col : List ℕ) (op : String) (vs : Values) (s : Params)
    → OnSuccess (Places (list_of vs) s) (in_list (raw prefix) (raw col) op vs s)
in_list-Places prefix col op vs s =
    subst (Binds (list_of vs) s (placeholders_of vs s).1)
      (sym (
        placeholders-wrapped (codes op) (codes ")") (join (words ", ") (placeholders_of vs s).0)
        ∙ placeholders-join (codes ", ") (placeholders_of vs s).0))
      (placeholders_of-Binds vs s)

module _ (negated : Bool) (col : List ℕ) (s : Params) where
  compile_in-Places :
      (v : Value)
      → OnSuccess
          (Places (list_operands v) s)
          (compile_in negated (not_prefix negated) (raw col) v s)
  compile_in-Places (array nil) = Binds-nothing s
  compile_in-Places (array (cons v vs)) =
      in_list-Places (not_bytes negated) col " IN (" (cons v vs) s
  compile_in-Places (text t) = tt
  compile_in-Places (integer i) = tt
  compile_in-Places (float f) = tt
  compile_in-Places (boolean b) = tt
  compile_in-Places null = tt
  compile_in-Places (parameter p) = tt
  compile_in-Places (range low high) = tt

  compile_not_in-Places :
      (v : Value)
      → OnSuccess (Places (list_operands v) s) (compile_not_in (not_prefix negated) (raw col) v s)
  compile_not_in-Places (array nil) = Binds-nothing s
  compile_not_in-Places (array (cons v vs)) =
      in_list-Places (not_bytes negated) col " NOT IN (" (cons v vs) s
  compile_not_in-Places (text t) = tt
  compile_not_in-Places (integer i) = tt
  compile_not_in-Places (float f) = tt
  compile_not_in-Places (boolean b) = tt
  compile_not_in-Places null = tt
  compile_not_in-Places (parameter p) = tt
  compile_not_in-Places (range low high) = tt

  compile_between-Places :
      (v : Value)
      → OnSuccess (Places (range_operands v) s) (compile_between (not_prefix negated) (raw col) v s)
  compile_between-Places (range low high) =
      Binds-append (low ∷ []) (high ∷ []) s (bind low s) _ _ _ (Binds-bind low s)
        (Binds-bind high (bind low s))
  compile_between-Places (array vs) = tt
  compile_between-Places (text t) = tt
  compile_between-Places (integer i) = tt
  compile_between-Places (float f) = tt
  compile_between-Places (boolean b) = tt
  compile_between-Places null = tt
  compile_between-Places (parameter p) = tt

  compile_operator-Places :
      (show : Value → List ℕ) (json : Bool) (op : CompareOp) (v : Value)
      → OnSuccess
          (Places (operands show op v) s)
          (compile_operator show negated json (raw col) op v s)
  compile_operator-Places show json op_in v = compile_in-Places v
  compile_operator-Places show json op_not_in v = compile_not_in-Places v
  compile_operator-Places show json op_between v = compile_between-Places v
  compile_operator-Places show json op_fuzzy v = tt
  compile_operator-Places show json op_exact v = tt
  compile_operator-Places show json op_is_null v = Binds-nothing s
  compile_operator-Places show json op_is_not_null v = Binds-nothing s
  compile_operator-Places show json op_equals v =
      if_elim (OnSuccess (Places (v ∷ []) s)) json (λ e. Binds-bind v s) (λ e. Binds-bind v s)
  compile_operator-Places show json op v = Binds-bind _ s

compile_text_search-Places :
    (show : Value → List ℕ) (op : CompareOp) (v : Value) (columns : List (List ℕ × List ℕ))
    (s : Params)
    → OnSuccess (Places (field_operands show [] op v) s) (compile_text_search show op v columns s)
compile_text_search-Places show op v [] s = tt
compile_text_search-Places show op v ((field, tsv) ∷ rest) s = Binds-bind _ s

compile_comparison-Places :
    (show : Value → List ℕ) (entity : EntityMeta) (field : List ℕ) (op : CompareOp) (v : Value)
    (negated : Bool) (s : Params)
    → OnSuccess
        (Places (field_operands show field op v) s)
        (compile_comparison show entity field op v negated s)
unfolding column
compile_comparison-Places show entity [] op v negated s =
    compile_text_search-Places show op v entity.tsv_columns s
compile_comparison-Places show entity (ch ∷ field) op v negated s =
    compile_operator-Places negated (quote_ident (map_column entity (ch ∷ field))) s show
      (is_json entity (ch ∷ field)) op v

placeholders-negate_group :
    (negated : Bool) (sql : Sql) → placeholders (negate_group negated sql) ≡ placeholders sql
placeholders-negate_group true sql = placeholders-wrapped (codes "NOT (") (codes ")") sql
placeholders-negate_group false sql = refl

placeholders-joined :
    (op : LogicalOp) (sqls : List Sql) → placeholders (joined op sqls) ≡ all_placeholders sqls
placeholders-joined op [] = refl
placeholders-joined op (sql ∷ []) = sym (append-nil (placeholders sql))
placeholders-joined logical_and (sql ∷ next ∷ rest) =
    placeholders-wrapped (codes "(") (codes ")") (join (words " AND ") (sql ∷ next ∷ rest))
    ∙ placeholders-join (codes " AND ") (sql ∷ next ∷ rest)
placeholders-joined logical_or (sql ∷ next ∷ rest) =
    placeholders-wrapped (codes "(") (codes ")") (join (words " OR ") (sql ∷ next ∷ rest))
    ∙ placeholders-join (codes " OR ") (sql ∷ next ∷ rest)

all_placeholders-keep :
    (sql : Sql) (sqls : List Sql)
    → all_placeholders (keep sql sqls) ≡ placeholders sql ++ all_placeholders sqls
all_placeholders-keep sql sqls =
    if_elim (λ kept. all_placeholders kept ≡ placeholders sql ++ all_placeholders sqls)
      (is_blank sql) (λ e. ap (λ ms. ms ++ all_placeholders sqls) (sym (placeholders-blank sql e)))
      (λ e. refl)

-- The same of a list of texts.
abbrev AllPlaces : List Value → Params → List Sql × Params → Type 0
AllPlaces new s (sqls, s') = Binds new s s' (all_placeholders sqls)

mutual
  unfolding compile_condition

  compile_condition-Places :
      (show : Value → List ℕ) (entity : EntityMeta) (c : Condition) (s : Params)
      → OnSuccess (Places (condition_operands show c) s) (compile_condition show entity c s)
  compile_condition-Places show entity (compare field op v negated) s =
      compile_comparison-Places show entity field op v negated s
  compile_condition-Places show entity (nested negated w) s =
      OnSuccess-bind (Places (where_operands show w) s) (Places (where_operands show w) s)
        (compile_where show entity w s) _ (compile_where-Places show entity w s)
        (λ (sql, s') b.
          subst (Binds (where_operands show w) s s') (sym (placeholders-negate_group negated sql))
            b)

  pub compile_where-Places :
      (show : Value → List ℕ) (entity : EntityMeta) (w : WhereClause) (s : Params)
      → OnSuccess (Places (where_operands show w) s) (compile_where show entity w s)
  compile_where-Places show entity (clause cs op) s =
      OnSuccess-bind (AllPlaces (conditions_operands show cs) s)
        (Places (conditions_operands show cs) s) (compile_conditions show entity cs s) _
        (compile_conditions-Places show entity cs s)
        (λ (sqls, s') b.
          subst (Binds (conditions_operands show cs) s s') (sym (placeholders-joined op sqls)) b)

  compile_conditions-Places :
      (show : Value → List ℕ) (entity : EntityMeta) (cs : Conditions) (s : Params)
      → OnSuccess (AllPlaces (conditions_operands show cs) s) (compile_conditions show entity cs s)
  compile_conditions-Places show entity empty s = Binds-nothing s
  compile_conditions-Places show entity (and_then c cs) s =
      let new = condition_operands show c ++ conditions_operands show cs in
      OnSuccess-bind (Places (condition_operands show c) s) (AllPlaces new s)
        (compile_condition show entity c s) _ (compile_condition-Places show entity c s)
        (λ (sql, s₁) a.
          OnSuccess-bind (AllPlaces (conditions_operands show cs) s₁) (AllPlaces new s)
            (compile_conditions show entity cs s₁) _ (compile_conditions-Places show entity cs s₁)
            (λ (sqls, s₂) b.
              subst (Binds new s s₂) (sym (all_placeholders-keep sql sqls))
                (Binds-append _ _ s s₁ s₂ _ _ a b)))
