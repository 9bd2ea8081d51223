-- ===== src/Pagination/Compiles.antt =====
-- Filters from texts, as internal/pagination/filter.go builds them, are compiled by
-- internal/query/compiler.go without an error.
use codeai.Base.{
  ℕ, ◌≡◌, refl, subst, sym, Bool, true, false, List, [], ◌∷◌, map, All, Option, none, some, ◌||◌,
}
use codeai.Query.Consumed.{if_elim}
use codeai.Query.Tokens.{codes, bytes_eq, to_lower}
use codeai.Query.Ast.{
  CompareOp, op_equals, op_not_equals, op_greater_than, op_greater_than_or_equal, op_less_than,
  op_less_than_or_equal, op_contains, op_starts_with, op_ends_with, op_in, Value, text, integer,
  float, boolean, null, parameter, array, range, Values, nil, cons, Condition, WhereClause,
  Conditions, empty, and_then, EntityMeta,
}
use codeai.Query.Compiler.Sql.{Piece, Params, Compiled, compiled, failed, ◌>>=◌}
use codeai.Query.Compiler.Names.{find, column, is_json}
use codeai.Query.Compiler.Conditions.{
  compile_operator, compile_condition, compile_where, compile_conditions,
}
use codeai.Pagination.Filter.{
  FilterDef, Definitions, OperatorKind, plain, in_list, is_null, operator_kinds, Built, built,
  refused, condition_of, build_all, finish, build, trim_each, split_commas, null_operator,
}
use codeai.Pagination.Allowed.{find-all, AllConditions, OnBuilt, build_all-All}

abbrev pub Succeeds : {A : Type 0} → Compiled A → Type 0
Succeeds (compiled a) = Unit
Succeeds (failed e) = ⊥

Succeeds-bind :
    {A B : Type 0} (m : Compiled A) (f : A → Compiled B)
    → Succeeds m
    → ((a : A) → Succeeds (f a))
    → Succeeds (m >>= f)
Succeeds-bind (compiled a) f h k = k a
Succeeds-bind (failed e) f h k = absurd h

abbrev pub IsText : Value → Type 0
IsText (text s) = Unit
IsText (integer i) = ⊥
IsText (float f) = ⊥
IsText (boolean b) = ⊥
IsText null = ⊥
IsText (parameter s) = ⊥
IsText (array vs) = ⊥
IsText (range low high) = ⊥

-- The operators that take one value of any kind.
abbrev takes_value : OperatorKind → Bool
takes_value in_list = true
takes_value is_null = true
takes_value (plain op) = elim op [
  | op_equals ↦ true
  | op_not_equals ↦ true
  | op_greater_than ↦ true
  | op_greater_than_or_equal ↦ true
  | op_less_than ↦ true
  | op_less_than_or_equal ↦ true
  | op_contains ↦ true
  | op_starts_with ↦ true
  | op_ends_with ↦ true
  | _ ↦ false
]

abbrev Compiles : Condition → Type 0
Compiles c =
    (show : Value → List ℕ) (entity : EntityMeta) (s : Params)
    → Succeeds (compile_condition show entity c s)

module _ (show : Value → List ℕ) (json : Bool) (col : Piece) (s : Params) where
  plain-Succeeds :
      (op : CompareOp) (v : Value)
      → takes_value (plain op) ≡ true
      → Succeeds (compile_operator show false json col op v s)
  plain-Succeeds op_equals v h = if_elim Succeeds json (λ e. tt) (λ e. tt)
  plain-Succeeds op_not_equals v h = tt
  plain-Succeeds op_greater_than v h = tt
  plain-Succeeds op_greater_than_or_equal v h = tt
  plain-Succeeds op_less_than v h = tt
  plain-Succeeds op_less_than_or_equal v h = tt
  plain-Succeeds op_contains v h = tt
  plain-Succeeds op_starts_with v h = tt
  plain-Succeeds op_ends_with v h = tt
  plain-Succeeds op v h = cc

  in_list-Succeeds :
      (vs : Values) → Succeeds (compile_operator show false json col op_in (array vs) s)
  in_list-Succeeds nil = tt
  in_list-Succeeds (cons v vs) = tt

  is_null-Succeeds :
      (t : List ℕ) → Succeeds (compile_operator show false json col (null_operator (text t)) null s)
  is_null-Succeeds t =
      if_elim (λ op. Succeeds (compile_operator show false json col op null s))
        (bytes_eq t (codes "true") || bytes_eq t (codes "1")) (λ e. tt) (λ e. tt)

condition_of-Compiles :
    (kind : OperatorKind) (ch : ℕ) (field t : List ℕ)
    → takes_value kind ≡ true
    → Compiles (condition_of kind (ch ∷ field) (text t))
unfolding compile_condition
condition_of-Compiles (plain op) ch field t h show entity s =
    plain-Succeeds show (is_json entity (ch ∷ field)) (column entity (ch ∷ field)) s op (text t) h
condition_of-Compiles in_list ch field t h show entity s =
    in_list-Succeeds show (is_json entity (ch ∷ field)) (column entity (ch ∷ field)) s
      (trim_each (split_commas t))
condition_of-Compiles is_null ch field t h show entity s =
    is_null-Succeeds show (is_json entity (ch ∷ field)) (column entity (ch ∷ field)) s t

text_of : (v : Value) → IsText v → (t : List ℕ) × (v ≡ text t)
text_of (text t) q = (t, refl)
text_of (integer i) q = absurd q
text_of (float f) q = absurd q
text_of (boolean b) q = absurd q
text_of null q = absurd q
text_of (parameter s) q = absurd q
text_of (array vs) q = absurd q
text_of (range low high) q = absurd q

conditions-Succeed :
    (show : Value → List ℕ) (entity : EntityMeta) (cs : Conditions) (s : Params)
    → AllConditions Compiles cs
    → Succeeds (compile_conditions show entity cs s)
unfolding compile_conditions
conditions-Succeed show entity empty s h = tt
conditions-Succeed show entity (and_then c cs) s h =
    Succeeds-bind (compile_condition show entity c s) _ (h.0 show entity s) (λ (sql, s₁).
      Succeeds-bind (compile_conditions show entity cs s₁) _
        (conditions-Succeed show entity cs s₁ h.1) (λ (sqls, s₂). tt))

abbrev pub ClauseCompiles : Option WhereClause → Type 0
ClauseCompiles none = Unit
ClauseCompiles (some w) =
    (show : Value → List ℕ) (entity : EntityMeta) (s : Params)
    → Succeeds (compile_where show entity w s)

finish-Compiles :
    (out : Built Conditions)
    → OnBuilt (AllConditions Compiles) out
    → OnBuilt ClauseCompiles (finish out)
unfolding compile_where
finish-Compiles (refused e) h = tt
finish-Compiles (built empty) h = tt
finish-Compiles (built (and_then c cs)) h = λ show entity s.
    Succeeds-bind (compile_conditions show entity (and_then c cs) s) _
      (conditions-Succeed show entity (and_then c cs) s h) (λ (sqls, s'). tt)

-- If no field of the empty name is defined and all values are texts, then a clause that Build gives
-- is compiled by compileWhere without an error, for any entity, whatever the state of the
-- parameters.
pub build-compiles :
    (defs : Definitions) (params : List (List ℕ × Value))
    → find [] defs ≡ none
    → All (λ param. IsText param.1) params
    → OnBuilt ClauseCompiles (build defs params)
unfolding build
build-compiles defs params unnamed texts = finish-Compiles (build_all defs params) (
    build_all-All defs Compiles IsText
      (λ def field op kind v q f e k. allowed def field op kind v q f k) params texts)
  where
    allowed :
        (def : FilterDef) (field op : List ℕ) (kind : OperatorKind) (v : Value)
        → IsText v
        → find field defs ≡ some def
        → find (map to_lower op) operator_kinds ≡ some kind
        → Compiles (condition_of kind field v)
    allowed def [] op kind v q f k = cc (unnamed, f)
    allowed def (ch ∷ field) op kind v q f k =
        let (t, same) = text_of v q in
        subst (λ u. Compiles (condition_of kind (ch ∷ field) u)) (sym same)
          (condition_of-Compiles kind ch field t
            (find-all takes_value (map to_lower op) operator_kinds refl k))
