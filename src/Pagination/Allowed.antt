-- ===== src/Pagination/Allowed.antt =====
-- The filters of internal/pagination/filter.go are allowed, and internal/query/compiler.go compiles them.
use codeai.Base.{
  ℕ, ◌≡◌, refl, subst, inl, inr, Bool, true, List, [], ◌∷◌, map, all, All, Option, none, some,
  Bool-cases,
}
use codeai.Query.Consumed.{if_elim}
use codeai.Query.Progress.{and_split}
use codeai.Query.Tokens.{bytes_eq, to_lower}
use codeai.Query.Ast.{
  logical_and, Value, Condition, WhereClause, clause, Conditions, empty, and_then,
}
use codeai.Query.Compiler.Names.{find}
use codeai.Pagination.Filter.{
  FilterDef, Definitions, contains, OperatorKind, operator_kinds, Built, built, refused,
  condition_of, build_as, build_condition, add_built, build_param, build_all, parse_filter_key,
  finish, build,
}

-- What is found in a table has what the test says of all its entries.
pub find-all :
    {V : Type 0} (test : V → Bool) (key : List ℕ) (entries : List (List ℕ × V)) {v : V}
    → all (λ e. test e.1) entries ≡ true
    → find key entries ≡ some v
    → test v ≡ true
unfolding find
find-all test key [] h f = cc f
find-all test key ((k, w) ∷ rest) {v} h f =
    let (first, others) = and_split (test w) (all (λ e. test e.1) rest) h in
    elim (Bool-cases (bytes_eq k key)) [
      | inl e ↦
          let found : some w ≡ some v = rw e at f in
          let same : w ≡ v = cc found in subst (λ u. test u ≡ true) same first
      | inr e ↦ find-all test key rest others (rw e at f)
    ]

-- A condition on a field that is defined, from a parameter with an operator that is allowed for it.
abbrev pub IsAllowed : Definitions → Condition → Type 0
IsAllowed defs c =
    (def : FilterDef) × (field : List ℕ) × (op : List ℕ) × (kind : OperatorKind) × (v : Value)
    × (find field defs ≡ some def)
    × (contains def.allowed_ops op ≡ true)
    × (find (map to_lower op) operator_kinds ≡ some kind)
    × (c ≡ condition_of kind field v)

abbrev pub AllConditions : (Condition → Type 0) → Conditions → Type 0
AllConditions P empty = Unit
AllConditions P (and_then c cs) = P c × AllConditions P cs

abbrev pub OnBuilt : {A : Type 0} → (A → Type 0) → Built A → Type 0
OnBuilt P (built a) = P a
OnBuilt P (refused e) = Unit

-- What holds of each condition that the definitions allow on a value with `Q`, holds of all that are
-- built from such values.
module _ (defs : Definitions) (P : Condition → Type 0) (Q : Value → Type 0)
    (step : (def : FilterDef) (field op : List ℕ) (kind : OperatorKind) (v : Value)
      → Q v
      → find field defs ≡ some def
      → contains def.allowed_ops op ≡ true
      → find (map to_lower op) operator_kinds ≡ some kind
      → P (condition_of kind field v)) where
  build_param-All :
      (found : Option FilterDef) (field op : List ℕ) (v : Value) (rest : Built Conditions)
      → Q v
      → find field defs ≡ found
      → OnBuilt (AllConditions P) rest
      → OnBuilt (AllConditions P) (build_param found field op v rest)
  unfolding build_condition
  build_param-All none field op v rest q f h = h
  build_param-All (some def) field op v rest q f h =
      if_elim (OnBuilt (AllConditions P)) (contains def.allowed_ops op)
        (λ e. of_kind (find (map to_lower op) operator_kinds) refl e rest h) (λ e. tt)
    where
      of_kind :
          (kind : Option OperatorKind)
          → find (map to_lower op) operator_kinds ≡ kind
          → contains def.allowed_ops op ≡ true
          → (rest : Built Conditions) → OnBuilt (AllConditions P) rest
          → OnBuilt (AllConditions P) (add_built (build_as kind field op v) rest)
      of_kind none k e rest h = tt
      of_kind (some kind) k e (refused r) h = tt
      of_kind (some kind) k e (built cs) h = (step def field op kind v q f e k, h)

  pub build_all-All :
      (params : List (List ℕ × Value))
      → All (λ param. Q param.1) params
      → OnBuilt (AllConditions P) (build_all defs params)
  unfolding build_all
  build_all-All [] h = tt
  build_all-All ((key, v) ∷ params) h =
      let (field, op) = parse_filter_key key in
      build_param-All (find field defs) field op v (build_all defs params) h.0 refl
        (build_all-All params h.1)

anything : (params : List (List ℕ × Value)) → All (λ param. Unit {0}) params
anything [] = tt
anything (param ∷ params) = (tt, anything params)

abbrev pub AllowedClause : Definitions → Option WhereClause → Type 0
AllowedClause defs none = Unit
AllowedClause defs (some (clause cs op)) = (op ≡ logical_and) × AllConditions (IsAllowed defs) cs

-- If Build gives a clause, it joins its conditions by AND, and each of them is on a field that is
-- defined, by an operator that the definition of the field allows, in any case of letters, and is
-- what BuildCondition makes of that operator and a value.
pub build-Allowed :
    (defs : Definitions) (params : List (List ℕ × Value))
    → OnBuilt (AllowedClause defs) (build defs params)
unfolding build
build-Allowed defs params = of_all (build_all defs params) (
    build_all-All defs (IsAllowed defs) (λ v. Unit)
      (λ def field op kind v q f e k. (def, field, op, kind, v, f, e, k, refl)) params
      (anything params))
  where
    of_all :
        (out : Built Conditions)
        → OnBuilt (AllConditions (IsAllowed defs)) out
        → OnBuilt (AllowedClause defs) (finish out)
    of_all (refused e) h = tt
    of_all (built empty) h = tt
    of_all (built (and_then c cs)) h = (refl, h)
