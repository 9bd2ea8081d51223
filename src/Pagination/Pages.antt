-- ===== src/Pagination/Pages.antt =====
-- The pages of internal/pagination/paginator.go, one after another, are the rows of the query.
use codeai.Base.{
  ℕ, zero, suc, ◌+◌, ◌-◌, ◌*◌, ◌^◌, ◌%◌, ◌<◌, ◌≤◌, ◌≡◌, ap, ap₂, sym, ◌∙◌, subst, inl, inr, Bool,
  true, false, List, [], ◌++◌, Option, none, some, ltb, take, drop, length, if◌then◌else◌, take-add,
  take-whole, arith, Bool-cases,
}
use codeai.Query.Ast.{pos}
use codeai.Pagination.Request.{
  PageRequest, PageInfo, PageResponse, pagination_offset, valid_limit, valid_page, validate,
  wrap_int64, get_offset, is_cursor_pagination,
}
use codeai.Query.Ast.{Value}
use codeai.Pagination.Slices.{kept-take, ltb-take, ltb-drop}
use codeai.Pagination.Order.{Arranges, Sorted, Ordered, Arranges-eq}
use codeai.Pagination.Paginator.{
  Record, Calls, Paginator, Paged, page_of, page_error, offset_response, offset_query, count_query,
  after_rows, execute_offset, execute_cursor, execute,
}

wrap_int64-small : (n : ℕ) → n < 2 ^ 63 → wrap_int64 n ≡ pos n
unfolding wrap_int64
wrap_int64-small n h =
    let e : n % 2 ^ 64 ≡ n = omega (arith, h) in
    let t : ltb n (2 ^ 63) ≡ true = ground arith in rw e (rw t)

abbrev pub page_request : ℕ → ℕ → PageRequest
page_request k limit = record {
  pagination_type = pagination_offset;
  page = pos (suc k);
  limit = pos limit;
  cursor = [];
  after = [];
  before = [];
}

validate-page_request :
    (k limit : ℕ) → 1 ≤ limit → limit ≤ 100 → validate (page_request k limit) ≡ page_request k limit
unfolding validate valid_limit valid_page
validate-page_request k limit l h =
    let low : ltb limit 1 ≡ false = ground arith in
    let high : ltb 100 limit ≡ false = ground arith in
    let first : ltb (suc k) 1 ≡ false = ground arith in rw (low, high, first)

-- A fixed table, whose database reads LIMIT and OFFSET as SQL has them.
module _ (calls : Calls) (p : Paginator) (rows : List Record)
    (limits : (l o : ℕ)
      → calls.execute (record (p.base_query) { offset = some (pos o); limit = some (pos l) })
        ≡ some (take l (drop o rows)))
    (counts : calls.execute_count (count_query p) ≡ some (length rows)) where
  abbrev pub page_info : ℕ → ℕ → PageInfo
  page_info k limit = record {
    total = if p.include_total then some (length rows) else none;
    page = some (pos (suc k));
    limit = pos limit;
    has_next = ltb (k * limit + limit) (length rows);
    has_previous = ltb 0 k;
    next_cursor = [];
    prev_cursor = [];
  }

  after_rows-counted :
      (req : PageRequest) (found : List Record)
      → after_rows calls p req (some found)
        ≡ offset_response req found (if p.include_total then some (length rows) else none)
  after_rows-counted req found = elim (Bool-cases p.include_total) [
    | inl e ↦ rw e (rw counts)
    | inr e ↦ rw e
  ]

  offset_response-page :
      (k limit : ℕ) (total : Option ℕ)
      → offset_response (page_request k limit) (take (limit + 1) (drop (k * limit) rows)) total
        ≡ page_of (record {
          items = take limit (drop (k * limit) rows);
          pagination = record (page_info k limit) { total = total };
        })
  offset_response-page k limit total =
      let one : suc limit ≡ limit + 1 = omega arith in
      let behind = drop (k * limit) rows in
      let shape : List Record → Bool → Bool → Paged = λ items next previous. page_of (record {
        items = items;
        pagination = record (page_info k limit) {
          total = total;
          has_next = next;
          has_previous = previous;
        };
      }) in
      let part =
        subst
          (λ m.
            (if ltb limit (length (take m behind))
              then take limit (take m behind)
              else take m behind)
            ≡ take limit behind)
          one (kept-take limit behind) in
      let more =
        subst (λ m. ltb limit (length (take m behind)) ≡ ltb limit (length behind)) one
          (ltb-take limit behind)
        ∙ ltb-drop limit (k * limit) rows in
      let later : ltb 1 (suc k) ≡ ltb 0 k = ground arith in
      ap₂ (λ items next. shape items next (ltb 1 (suc k))) part more
      ∙ ap (shape (take limit behind) (ltb (k * limit + limit) (length rows))) later

  abbrev pub page_response : ℕ → ℕ → PageResponse Record
  page_response k limit = record {
    items = take limit (drop (k * limit) rows);
    pagination = page_info k limit;
  }

  -- Let a table be fixed, and let the executor read LIMIT and OFFSET on the query of the paginator
  -- as SQL does, and count the rows. Then, for a limit from 1 to 100 and k times the limit less
  -- than 2 ^ 63, Execute for page k + 1 gives, without an error, at most limit rows, from k times
  -- the limit on, the page and the limit, the number of rows if it is to be included, that there is
  -- a next page exactly if rows are left, and that there is a previous one exactly if k is
  -- positive.
  pub execute-page :
      (k limit : ℕ)
      → 1 ≤ limit
      → limit ≤ 100
      → k * limit < 2 ^ 63
      → execute calls p (page_request k limit) ≡ page_of (page_response k limit)
  unfolding execute execute_offset get_offset
  execute-page k limit l h small =
      let skipped : (suc k - 1) * limit ≡ k * limit = ap (λ n. n * limit) (omega arith) in
      let offset : wrap_int64 ((suc k - 1) * limit) ≡ pos (k * limit) =
        ap wrap_int64 skipped ∙ wrap_int64-small (k * limit) small in
      let answer : calls.execute (offset_query p (page_request k limit))
          ≡ some (take (limit + 1) (drop (k * limit) rows)) =
        ap
          (λ o.
            calls.execute
              (record (p.base_query) { offset = some o; limit = some (pos (limit + 1)) }))
          offset
        ∙ limits (limit + 1) (k * limit) in
      ap
        (λ req.
          if is_cursor_pagination req
          then execute_cursor calls p req
          else execute_offset calls p req)
        (validate-page_request k limit l h)
      ∙ ap (after_rows calls p (page_request k limit)) answer
      ∙ after_rows-counted (page_request k limit) (take (limit + 1) (drop (k * limit) rows))
      ∙ offset_response-page k limit _

abbrev items_of : Paged → List Record
items_of (page_of r) = r.items
items_of (page_error e) = []

module _ (calls : Calls) (p : Paginator) where
  -- The items of the first `n` pages, one page after another.
  unfoldable pub first_pages : ℕ → ℕ → List Record
  first_pages zero limit = []
  first_pages (suc n) limit =
      first_pages n limit ++ items_of (execute calls p (page_request n limit))

  first_pages-take :
      (rows : List Record) (n limit : ℕ)
      → ((l o : ℕ)
          → calls.execute (record (p.base_query) { offset = some (pos o); limit = some (pos l) })
            ≡ some (take l (drop o rows)))
      → calls.execute_count (count_query p) ≡ some (length rows)
      → 1 ≤ limit
      → limit ≤ 100
      → n * limit < 2 ^ 63
      → first_pages n limit ≡ take (n * limit) rows
  unfolding first_pages
  first_pages-take rows zero limit limits counts l h small =
      let none_yet : 0 ≡ 0 * limit = omega arith in ap (λ k. take k rows) none_yet
  first_pages-take rows (suc n) limit limits counts l h small =
      let rest : suc n * limit ≡ n * limit + limit = omega arith in
      ap₂ (λ xs ys. xs ++ ys)
        (first_pages-take rows n limit limits counts l h (omega (arith, small, rest)))
        (ap items_of
          (execute-page calls p rows limits counts n limit l h (omega (arith, small, rest))))
      ∙ sym (take-add (n * limit) limit rows)
      ∙ ap (λ k. take k rows) (sym rest)

  -- Let a table be fixed whose rows the ORDER BY of the paginator puts in an order without ties.
  -- Let each run of the query of the paginator give the part by LIMIT and OFFSET of the rows of the
  -- table in some arrangement, which may be another one in each run, in which no row is behind one
  -- that it precedes by ORDER BY, and let the count be the number of rows. Then, for a limit from 1
  -- to 100, pages 1 to n that Execute gives, one after another, are all the rows of the table in
  -- that order, none missing and none twice, if n times the limit is at least the number of rows,
  -- and less than 2 ^ 63.
  pub first_pages-all :
      (below : Value → Value → Type 0) (rows : List Record) (n limit : ℕ)
      → Ordered below p.base_query.order_by rows
      → ((l o : ℕ)
          → (found : List Record) × Arranges found rows
            × Sorted below p.base_query.order_by found
            × (calls.execute (record (p.base_query) { offset = some (pos o); limit = some (pos l) })
                ≡ some (take l (drop o found))))
      → calls.execute_count (count_query p) ≡ some (length rows)
      → 1 ≤ limit
      → limit ≤ 100
      → n * limit < 2 ^ 63
      → length rows ≤ n * limit
      → first_pages n limit ≡ rows
  first_pages-all below rows n limit ordered runs counts l h small enough =
      first_pages-take rows n limit
        (λ a b.
          let (found, arranged, sorted, answer) = runs a b in
          answer
          ∙ ap (λ all. some (take a (drop b all)))
              (Arranges-eq below p.base_query.order_by found rows arranged sorted ordered))
        counts l h small
      ∙ take-whole (n * limit) rows enough
