-- ===== src/Query/Ast.antt =====
-- internal/query/ast.go: the syntax tree of a query, and the metadata of entities. A text is the
-- list of its bytes. A float64 is kept as the literal that denotes it.
-- `WhereClause.Groups` and `Condition.SubQuery` are left out: nothing sets or reads them.
use codeai.Base.{ℕ, Bool, List, Option}

pub data QueryType : Type 0 where
  query_select query_count query_sum query_avg query_min query_max : QueryType
  query_update query_delete : QueryType

pub data CompareOp : Type 0 where
  op_equals op_not_equals op_greater_than op_greater_than_or_equal : CompareOp
  op_less_than op_less_than_or_equal op_contains op_starts_with op_ends_with : CompareOp
  op_in op_not_in op_is_null op_is_not_null op_includes op_like op_ilike : CompareOp
  op_between op_fuzzy op_exact op_array_contains : CompareOp

pub data LogicalOp : Type 0 where
  logical_and logical_or : LogicalOp

pub data OrderDirection : Type 0 where
  order_asc order_desc : OrderDirection

pub data UpdateOp : Type 0 where
  update_set_value update_increment update_decrement update_append update_remove : UpdateOp

-- The numbers of Go's int64.
pub data ℤ : Type 0 where
  pos : ℕ → ℤ
  -- `negsuc n` is -(n + 1).
  negsuc : ℕ → ℤ

-- What an `interface{}` of a query holds.
mutual
  pub data Value : Type 0 where
    text : List ℕ → Value
    integer : ℤ → Value
    float : List ℕ → Value
    boolean : Bool → Value
    null : Value
    parameter : List ℕ → Value
    array : Values → Value
    range : Value → Value → Value

  pub data Values : Type 0 where
    nil : Values
    cons : Value → Values → Values

-- A condition compares a field, or it has a nested clause, and then only `Not` beside it counts.
mutual
  pub data Condition : Type 0 where
    compare : List ℕ → CompareOp → Value → Bool → Condition
    nested : Bool → WhereClause → Condition

  pub data WhereClause : Type 0 where
    clause : Conditions → LogicalOp → WhereClause

  pub data Conditions : Type 0 where
    empty : Conditions
    and_then : Condition → Conditions → Conditions

pub record OrderClause : Type 0 where
  pub field : List ℕ
  pub direction : OrderDirection

pub record UpdateSet : Type 0 where
  pub field : List ℕ
  pub value : Value
  pub op : UpdateOp

pub record Query : Type 0 where
  pub query_type : QueryType
  pub entity : List ℕ
  pub fields : List (List ℕ)
  pub condition : Option WhereClause
  pub order_by : List OrderClause
  pub limit : Option ℤ
  pub offset : Option ℤ
  pub include : List (List ℕ)
  pub group_by : List (List ℕ)
  pub having : Option WhereClause
  pub updates : List UpdateSet
  pub agg_field : List ℕ

-- `RelationMeta` is left out of the metadata: the compiler does not read it. A map is an association
-- list, its order an order of iteration.
pub record EntityMeta : Type 0 where
  pub table_name : List ℕ
  pub primary_key : List ℕ
  pub soft_delete : List ℕ
  pub columns : List (List ℕ × List ℕ)
  pub json_columns : List (List ℕ × Bool)
  pub tsv_columns : List (List ℕ × List ℕ)
