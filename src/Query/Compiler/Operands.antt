-- ===== src/Query/Compiler/Operands.antt =====
-- The values that a query has for parameters, in the order of its tree, and the numbers of the
-- placeholders in a text.
use codeai.Base.{
  ℕ, suc, ◌+◌, ◌≡◌, refl, ap, ap₂, sym, ◌∙◌, List, [], ◌∷◌, ◌++◌, Option, none, some, length,
  length-append, append_assoc, append-nil, arith,
}
use codeai.Query.Ast.{
  QueryType, query_select, query_update, CompareOp, op_contains, op_starts_with, op_ends_with,
  op_in, op_not_in, op_is_null, op_is_not_null, op_ilike, op_between, Value, text, array, range,
  Values, nil, cons, Condition, compare, nested, WhereClause, clause, Conditions, empty, and_then,
  UpdateSet, Query,
}
use codeai.Query.Compiler.Sql.{
  raw, placeholder, Sql, Params, bind, Compiled, compiled, failed, ◌>>=◌, sprint,
}
use codeai.Query.Compiler.Conditions.{percent}

abbrev pub list_of : Values → List Value
list_of nil = []
list_of (cons v vs) = v ∷ list_of vs

abbrev pub list_operands : Value → List Value
list_operands (array vs) = list_of vs
list_operands v = []

abbrev pub range_operands : Value → List Value
range_operands (range low high) = low ∷ high ∷ []
range_operands v = []

-- The patterns of ILIKE have a percent sign at their open ends.
abbrev pub operands : (Value → List ℕ) → CompareOp → Value → List Value
operands show op v = elim op [
  | op_contains ↦ text (percent ++ sprint show v ++ percent) ∷ []
  | op_ilike ↦ text (percent ++ sprint show v ++ percent) ∷ []
  | op_starts_with ↦ text (sprint show v ++ percent) ∷ []
  | op_ends_with ↦ text (percent ++ sprint show v) ∷ []
  | op_in ↦ list_operands v
  | op_not_in ↦ list_operands v
  | op_is_null ↦ []
  | op_is_not_null ↦ []
  | op_between ↦ range_operands v
  | _ ↦ v ∷ []
]

-- A condition with no field is a search for the printed value.
abbrev pub field_operands : (Value → List ℕ) → List ℕ → CompareOp → Value → List Value
field_operands show [] op v = text (sprint show v) ∷ []
field_operands show (ch ∷ field) op v = operands show op v

abbrev mutual
  pub condition_operands : (Value → List ℕ) → Condition → List Value
  condition_operands show (compare field op v negated) = field_operands show field op v
  condition_operands show (nested negated w) = where_operands show w

  pub where_operands : (Value → List ℕ) → WhereClause → List Value
  where_operands show (clause cs op) = conditions_operands show cs

  pub conditions_operands : (Value → List ℕ) → Conditions → List Value
  conditions_operands show empty = []
  conditions_operands show (and_then c cs) =
      condition_operands show c ++ conditions_operands show cs

abbrev pub optional_operands : (Value → List ℕ) → Option WhereClause → List Value
optional_operands show none = []
optional_operands show (some w) = where_operands show w

abbrev pub set_operands : List UpdateSet → List Value
set_operands [] = []
set_operands (u ∷ us) = u.value ∷ set_operands us

-- Of a SELECT the clauses WHERE and HAVING, of an UPDATE the assignments and WHERE.
abbrev pub operands_as : QueryType → (Value → List ℕ) → Query → List Value
operands_as type show q = elim type [
  | query_select ↦ optional_operands show q.condition ++ optional_operands show q.having
  | query_update ↦ set_operands q.updates ++ optional_operands show q.condition
  | _ ↦ optional_operands show q.condition
]

abbrev pub query_operands : (Value → List ℕ) → Query → List Value
query_operands show q = operands_as q.query_type show q

abbrev pub placeholders : Sql → List ℕ
placeholders [] = []
placeholders (raw bytes ∷ sql) = placeholders sql
placeholders (placeholder n ∷ sql) = n ∷ placeholders sql

-- A number for each entry, from `n` on.
abbrev pub numbered : {A : Type 0} → ℕ → List A → List ℕ
numbered n [] = []
numbered n (x ∷ xs) = n ∷ numbered (suc n) xs

pub numbered-append :
    {A : Type 0} (n : ℕ) (xs ys : List A)
    → numbered n (xs ++ ys) ≡ numbered n xs ++ numbered (n + length xs) ys
numbered-append n [] ys = ap (λ m. numbered m ys) (omega arith)
numbered-append n (x ∷ xs) ys =
    ap (λ ms. n ∷ ms)
      (numbered-append (suc n) xs ys ∙ ap (λ m. numbered (suc n) xs ++ numbered m ys) (omega arith))

pub placeholders-append : (a b : Sql) → placeholders (a ++ b) ≡ placeholders a ++ placeholders b
placeholders-append [] b = refl
placeholders-append (raw bytes ∷ a) b = placeholders-append a b
placeholders-append (placeholder n ∷ a) b = ap (λ ms. n ∷ ms) (placeholders-append a b)

-- From `s` to `s'` the compiler has bound `new`, and `marks` are the numbers of these parameters.
pub record Binds (new : List Value) (s s' : Params) (marks : List ℕ) : Type 0 where
  pub appended : s'.params ≡ s.params ++ new
  pub counted : s'.param_idx ≡ s.param_idx + length new
  pub marked : marks ≡ numbered (suc s.param_idx) new

pub Binds-nothing : (s : Params) → Binds [] s s []
Binds-nothing s = record {
  appended = sym (append-nil s.params);
  counted = omega arith;
  marked = refl;
}

pub Binds-append :
    (xs ys : List Value) (s₁ s₂ s₃ : Params) (ms ns : List ℕ)
    → Binds xs s₁ s₂ ms
    → Binds ys s₂ s₃ ns
    → Binds (xs ++ ys) s₁ s₃ (ms ++ ns)
Binds-append xs ys s₁ s₂ s₃ ms ns a b = record {
  appended = b.appended ∙ ap (λ ps. ps ++ ys) a.appended ∙ append_assoc s₁.params xs ys;
  counted = omega (arith, a.counted, b.counted, length-append xs ys);
  marked =
      ap₂ (λ ks ls. ks ++ ls) a.marked
        (b.marked ∙ ap (λ n. numbered n ys) (omega (arith, a.counted)))
      ∙ sym (numbered-append (suc s₁.param_idx) xs ys);
}

-- A condition with one parameter.
pub Binds-bind : (v : Value) (s : Params) → Binds (v ∷ []) s (bind v s) (suc s.param_idx ∷ [])
Binds-bind v s = record { appended = refl; counted = omega arith; marked = refl }

-- What holds of a result, where there is one.
abbrev pub OnSuccess : {A : Type 0} → (A → Type 0) → Compiled A → Type 0
OnSuccess P (compiled a) = P a
OnSuccess P (failed e) = Unit

pub OnSuccess-bind :
    {A B : Type 0} (P : A → Type 0) (Q : B → Type 0) (m : Compiled A) (f : A → Compiled B)
    → OnSuccess P m
    → ((a : A) → P a → OnSuccess Q (f a))
    → OnSuccess Q (m >>= f)
OnSuccess-bind P Q (compiled a) f h k = k a h
OnSuccess-bind P Q (failed e) f h k = tt

-- The text of a part has the numbers of its own parameters, in their order.
abbrev pub Places : List Value → Params → Sql × Params → Type 0
Places new s (sql, s') = Binds new s s' (placeholders sql)
