-- ===== src/Pagination/Tests.antt =====
-- Runs of internal/pagination on small tables and parameters.
use codeai.Base.{ℕ, ◌≡◌, refl, arith, List, [], ◌∷◌, Option, none, some, take, drop, length}
use codeai.Query.Tokens.{codes}
use codeai.Query.Ast.{ℤ, pos, Value, integer, text}
use codeai.Pagination.Request.{positive}
use codeai.Pagination.Filter.{Definitions, allow, assign, build, parse_filter_key}
use codeai.Pagination.Paginator.{Record, Calls, Paginator, page_of, new_paginator, execute}
use codeai.Pagination.Pages
use codeai.Pagination.Order.{Precedes, Sorted, Ordered, here, nothing, next}
use codeai.Query.Ast.{order_asc}
use codeai.Pagination.Paginator.{with_order_by}
use codeai.Base.{inl, inr, ◌≤◌, ◌<◌}
use codeai.Pagination.Allowed.{OnBuilt, AllowedClause, build-Allowed}
use codeai.Pagination.Compiles.{ClauseCompiles, build-compiles}
use codeai.Query.Compiler.Names.{find}
use codeai.Pagination.Keys.{parse_filter_key-brackets}

abbrev row : ℕ → Record
row n = (codes "id", integer (pos n)) ∷ []

abbrev users : List Record
users = row 1 ∷ row 2 ∷ row 3 ∷ []

abbrev or_zero : Option ℤ → ℕ
or_zero none = 0
or_zero (some n) = positive n

abbrev or_all : Option ℤ → ℕ
or_all none = length users
or_all (some n) = positive n

abbrev memory : Calls
memory = record {
  execute = λ q. some (take (or_all q.limit) (drop (or_zero q.offset) users));
  execute_count = λ q. some (length users);
  encode_cursor = λ c. c.id;
  decode_cursor = λ text. none;
  print = λ v. [];
}

abbrev paginator : Paginator
paginator = new_paginator (codes "users")

execute-page_example :
    execute memory paginator (Pages.page_request 1 2)
    ≡ page_of (Pages.page_response memory paginator users (λ l o. refl) refl 1 2)
execute-page_example =
    Pages.execute-page memory paginator users (λ l o. refl) refl 1 2 (omega arith) (omega arith)
      (omega arith)

abbrev by_id : Paginator
by_id = with_order_by (record { field = codes "id"; direction = order_asc } ∷ []) paginator

abbrev Less : Value → Value → Type 0
Less (integer (pos a)) (integer (pos b)) = a < b
Less v w = ⊥

users-Ordered : Ordered Less by_id.base_query.order_by users
unfolding find
users-Ordered = ((inl (omega arith), (inl (omega arith), tt)), ((inl (omega arith), tt), (tt, tt)))

not_before : (a b : ℕ) → b ≤ a → Precedes Less by_id.base_query.order_by (row a) (row b) → ⊥
unfolding find
not_before a b h (inl less) = omega (arith, h, less)
not_before a b h (inr tied) = absurd tied.1

users-Sorted : Sorted Less by_id.base_query.order_by users
users-Sorted = (
  (not_before 2 1 (omega arith), (not_before 3 1 (omega arith), tt)),
  ((not_before 3 2 (omega arith), tt), (tt, tt)),
)

first_pages-all_example : Pages.first_pages memory by_id 2 2 ≡ users
first_pages-all_example =
    Pages.first_pages-all memory by_id Less users 2 2 users-Ordered
      (λ l o. (users, next here (next here (next here nothing)), users-Sorted, refl)) refl
      (omega arith) (omega arith) (omega arith) (omega arith)

abbrev definitions : Definitions
definitions = allow (codes "age") (codes "gte" ∷ codes "lt" ∷ []) []

abbrev params : List (List ℕ × Value)
params =
    (codes "age[gte]", text (codes "18"))
    ∷ (codes "age[lt]", text (codes "65"))
    ∷ (codes "name", text (codes "x"))
    ∷ []

build-Allowed_example : OnBuilt (AllowedClause definitions) (build definitions params)
build-Allowed_example = build-Allowed definitions params

undefined_empty : find [] definitions ≡ none
unfolding allow assign find
undefined_empty = refl

build-compiles_example : OnBuilt ClauseCompiles (build definitions params)
build-compiles_example = build-compiles definitions params undefined_empty (tt, (tt, (tt, tt)))

parse_filter_key-brackets_example :
    (parse_filter_key (codes "age[gte]") ≡ (codes "age", codes "gte"))
    × (parse_filter_key (codes "age") ≡ (codes "age", codes "eq"))
parse_filter_key-brackets_example =
    parse_filter_key-brackets (codes "age") (codes "gte") refl refl refl
