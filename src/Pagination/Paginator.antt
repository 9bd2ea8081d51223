-- ===== src/Pagination/Paginator.antt =====
-- internal/pagination/paginator.go. The executor's runs on the database are parameters, as are the JSON and
-- base64 of cursors, and what `fmt` prints of a value.
use codeai.Base.{
  ℕ, ◌+◌, Bool, true, false, List, [], ◌∷◌, Option, none, some, ltb, take, length, if◌then◌else◌,
}
use codeai.Query.Tokens.{codes}
use codeai.Query.Ast.{
  ℤ, pos, query_select, query_count, op_greater_than, op_less_than, CompareOp, OrderClause,
  order_asc, order_desc, OrderDirection, logical_and, Value, null, Condition, compare, WhereClause,
  clause, empty, and_then, Query,
}
use codeai.Query.Parser.Filters.{new_query}
use codeai.Query.Compiler.Names.{find}
use codeai.Pagination.Request.{
  PageRequest, Cursor, PageInfo, PageResponse, validate, get_offset, positive, is_set, get_cursor,
  is_cursor_pagination,
}
use codeai.Pagination.Filter.{append_conditions}

-- A row, from columns to values.
abbrev pub Record : Type 0
Record = List (List ℕ × Value)

-- What the paginator calls: `Execute`, `ExecuteCount`, `EncodeCursor`, `DecodeCursor` and `fmt.Sprintf`.
pub record Calls : Type 0 where
  pub execute : Query → Option (List Record)
  pub execute_count : Query → Option ℕ
  pub encode_cursor : Cursor → List ℕ
  pub decode_cursor : List ℕ → Option Cursor
  pub print : Value → List ℕ

pub record Paginator : Type 0 where
  pub entity : List ℕ
  pub base_query : Query
  pub include_total : Bool

abbrev pub new_paginator : List ℕ → Paginator
new_paginator entity = record {
  entity = entity;
  base_query = record (new_query query_select) { entity = entity };
  include_total = true;
}

abbrev pub with_where : Option WhereClause → Paginator → Paginator
with_where w p = record p { base_query = record (p.base_query) { condition = w } }

abbrev pub with_order_by : List OrderClause → Paginator → Paginator
with_order_by orders p = record p { base_query = record (p.base_query) { order_by = orders } }

abbrev pub with_include : List (List ℕ) → Paginator → Paginator
with_include names p = record p { base_query = record (p.base_query) { include = names } }

abbrev pub with_fields : List (List ℕ) → Paginator → Paginator
with_fields names p = record p { base_query = record (p.base_query) { fields = names } }

abbrev pub with_total : Bool → Paginator → Paginator
with_total b p = record p { include_total = b }

pub data PageError : Type 0 where
  query_failed count_failed invalid_cursor invalid_before : PageError

pub data Paged : Type 0 where
  page_of : PageResponse Record → Paged
  page_error : PageError → Paged

-- One row more than the limit is asked for.
abbrev pub fetch_limit : PageRequest → ℤ
fetch_limit req = pos (positive req.limit + 1)

abbrev pub has_more : PageRequest → List Record → Bool
has_more req rows = ltb (positive req.limit) (length rows)

abbrev pub kept : PageRequest → List Record → List Record
kept req rows = if has_more req rows then take (positive req.limit) rows else rows

abbrev pub offset_info : PageRequest → List Record → Option ℕ → PageInfo
offset_info req rows total = record {
  total = total;
  page = some req.page;
  limit = req.limit;
  has_next = has_more req rows;
  has_previous = ltb 1 (positive req.page);
  next_cursor = [];
  prev_cursor = [];
}

abbrev pub offset_response : PageRequest → List Record → Option ℕ → Paged
offset_response req rows total =
    page_of (record { items = kept req rows; pagination = offset_info req rows total })

abbrev pub offset_query : Paginator → PageRequest → Query
offset_query p req = record (p.base_query) {
  offset = some (get_offset req);
  limit = some (fetch_limit req);
}

abbrev pub count_query : Paginator → Query
count_query p = record (new_query query_count) {
  entity = p.entity;
  condition = p.base_query.condition;
}

abbrev pub with_count : PageRequest → List Record → Option ℕ → Paged
with_count req rows none = page_error count_failed
with_count req rows (some n) = offset_response req rows (some n)

abbrev pub after_rows : Calls → Paginator → PageRequest → Option (List Record) → Paged
after_rows calls p req none = page_error query_failed
after_rows calls p req (some rows) =
    if p.include_total
    then with_count req rows (calls.execute_count (count_query p))
    else offset_response req rows none

unfoldable pub execute_offset : Calls → Paginator → PageRequest → Paged
execute_offset calls p req = after_rows calls p req (calls.execute (offset_query p req))

abbrev pub append_condition : Option WhereClause → Condition → WhereClause
append_condition none c = clause (and_then c empty) logical_and
append_condition (some (clause cs op)) c = clause (append_conditions cs (and_then c empty)) op

abbrev pub id_field : List ℕ
id_field = codes "id"

abbrev pub first_field : List OrderClause → List ℕ
first_field [] = id_field
first_field (o ∷ os) = o.field

abbrev pub descends : OrderDirection → Bool
descends order_desc = true
descends order_asc = false

abbrev pub is_desc : List OrderClause → Bool
is_desc [] = false
is_desc (o ∷ os) = descends o.direction

-- Behind the cursor in ascending order are the greater values, and in front of it the smaller ones.
abbrev pub cursor_op : Bool → Bool → CompareOp
cursor_op true true = op_greater_than
cursor_op true false = op_less_than
cursor_op false true = op_less_than
cursor_op false false = op_greater_than

unfoldable pub build_cursor_condition : Cursor → List OrderClause → Bool → Condition
build_cursor_condition cursor orders before =
    compare (if is_set cursor.field then cursor.field else first_field orders)
      (cursor_op before (is_desc orders)) cursor.value false

abbrev pub value_or_nil : Option Value → Value
value_or_nil none = null
value_or_nil (some v) = v

abbrev pub printed : Calls → Option Value → List ℕ
printed calls none = []
printed calls (some v) = calls.print v

unfoldable pub build_cursor : Calls → Record → List OrderClause → List ℕ
build_cursor calls row orders = calls.encode_cursor (record {
  id = printed calls (find id_field row);
  field = first_field orders;
  value = value_or_nil (find (first_field orders) row);
  direction = [];
})

abbrev pub ordered : Query → Query
ordered q = elim q.order_by [
  | [] ↦ record q { order_by = record { field = id_field; direction = order_asc } ∷ [] }
  | o ∷ os ↦ q
]

-- The condition of a cursor, if it is set and can be decoded.
abbrev pub narrowed : Option Cursor → Query → Bool → Option Query
narrowed none q before = none
narrowed (some cursor) q before = some (record q {
  condition = some (append_condition q.condition (build_cursor_condition cursor q.order_by before));
})

abbrev pub narrow : Calls → List ℕ → Bool → Query → Option Query
narrow calls text before q =
    if is_set text then narrowed (calls.decode_cursor text) q before else some q

abbrev pub last_cursor : Calls → List Record → List OrderClause → List ℕ
last_cursor calls [] orders = []
last_cursor calls (row ∷ []) orders = build_cursor calls row orders
last_cursor calls (row ∷ next ∷ rows) orders = last_cursor calls (next ∷ rows) orders

abbrev pub first_cursor : Calls → List Record → List OrderClause → List ℕ
first_cursor calls [] orders = []
first_cursor calls (row ∷ rows) orders = build_cursor calls row orders

abbrev pub cursor_response : Calls → PageRequest → Query → List Record → Paged
cursor_response calls req q rows = page_of (record {
  items = kept req rows;
  pagination = record {
    total = none;
    page = none;
    limit = req.limit;
    has_next = has_more req rows;
    has_previous = is_set (get_cursor req);
    next_cursor = if has_more req rows then last_cursor calls (kept req rows) q.order_by else [];
    prev_cursor =
        if is_set (get_cursor req) then first_cursor calls (kept req rows) q.order_by else [];
  };
})

abbrev pub cursor_rows : Calls → PageRequest → Query → Option (List Record) → Paged
cursor_rows calls req q none = page_error query_failed
cursor_rows calls req q (some rows) = cursor_response calls req q rows

abbrev pub narrowed_before : Calls → PageRequest → Option Query → Paged
narrowed_before calls req none = page_error invalid_before
narrowed_before calls req (some q) =
    let limited = record q { limit = some (fetch_limit req) } in
    cursor_rows calls req q (calls.execute limited)

abbrev pub narrowed_after : Calls → PageRequest → Option Query → Paged
narrowed_after calls req none = page_error invalid_cursor
narrowed_after calls req (some q) = narrowed_before calls req (narrow calls req.before true q)

unfoldable pub execute_cursor : Calls → Paginator → PageRequest → Paged
execute_cursor calls p req =
    narrowed_after calls req (narrow calls (get_cursor req) false (ordered p.base_query))

unfoldable pub execute : Calls → Paginator → PageRequest → Paged
execute calls p req =
    let valid = validate req in
    if is_cursor_pagination valid
    then execute_cursor calls p valid
    else execute_offset calls p valid
