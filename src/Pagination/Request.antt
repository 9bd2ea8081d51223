-- ===== src/Pagination/Request.antt =====
-- internal/pagination/types.go: requests, cursors and responses.
use codeai.Base.{
  ℕ, ◌-◌, ◌*◌, ◌^◌, ◌%◌, Bool, true, false, ◌||◌, List, [], ◌∷◌, Option, ltb, if◌then◌else◌,
}
use codeai.Query.Ast.{ℤ, pos, negsuc, Value}

pub data PaginationType : Type 0 where
  pagination_offset pagination_cursor : PaginationType

abbrev pub default_limit : ℕ
default_limit = 20

abbrev pub max_limit : ℕ
max_limit = 100

abbrev pub min_limit : ℕ
min_limit = 1

pub record PageRequest : Type 0 where
  pub pagination_type : PaginationType
  pub page : ℤ
  pub limit : ℤ
  pub cursor : List ℕ
  pub after : List ℕ
  pub before : List ℕ

pub record Cursor : Type 0 where
  pub id : List ℕ
  pub field : List ℕ
  pub value : Value
  pub direction : List ℕ

pub record PageInfo : Type 0 where
  pub total : Option ℕ
  pub page : Option ℤ
  pub limit : ℤ
  pub has_next : Bool
  pub has_previous : Bool
  pub next_cursor : List ℕ
  pub prev_cursor : List ℕ

pub record PageResponse (A : Type 0) : Type 0 where
  pub items : List A
  pub pagination : PageInfo

abbrev pub default_page_request : PageRequest
default_page_request = record {
  pagination_type = pagination_offset;
  page = pos 1;
  limit = pos default_limit;
  cursor = [];
  after = [];
  before = [];
}

-- A limit from 1 to 100, and 20 in place of one below 1.
unfoldable pub valid_limit : ℤ → ℤ
valid_limit (negsuc n) = pos default_limit
valid_limit (pos n) =
    if ltb n min_limit then pos default_limit else if ltb max_limit n then pos max_limit else pos n

unfoldable pub valid_page : ℤ → ℤ
valid_page (negsuc n) = pos 1
valid_page (pos n) = if ltb n 1 then pos 1 else pos n

unfoldable pub validate : PageRequest → PageRequest
validate pr = record pr { limit = valid_limit pr.limit; page = valid_page pr.page }

-- The number of 64 bits that a product of positive numbers wraps to.
unfoldable pub wrap_int64 : ℕ → ℤ
wrap_int64 n =
    let low = n % 2 ^ 64 in if ltb low (2 ^ 63) then pos low else negsuc (2 ^ 64 - 1 - low)

abbrev pub positive : ℤ → ℕ
positive (pos n) = n
positive (negsuc n) = 0

-- Of a request that `Validate` has made valid.
unfoldable pub get_offset : PageRequest → ℤ
get_offset pr = wrap_int64 ((positive pr.page - 1) * positive pr.limit)

abbrev pub is_set : List ℕ → Bool
is_set [] = false
is_set (ch ∷ text) = true

abbrev pub get_cursor : PageRequest → List ℕ
get_cursor pr = if is_set pr.cursor then pr.cursor else pr.after

abbrev pub is_cursor_pagination : PageRequest → Bool
is_cursor_pagination pr =
    elim pr.pagination_type [ pagination_cursor ↦ true | pagination_offset ↦ false ]
    || is_set pr.cursor
    || is_set pr.after
    || is_set pr.before
