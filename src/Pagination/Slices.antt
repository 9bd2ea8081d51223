-- ===== src/Pagination/Slices.antt =====
-- The rows that internal/pagination/paginator.go keeps, of one row more than the limit.
use codeai.Base.{
  ℕ, suc, ◌+◌, ◌≡◌, ap, sym, ◌∙◌, inl, inr, List, ltb, take, drop, length, if◌then◌else◌,
  length-take_cases, take-take-suc, take-whole, length-drop, arith,
}
use codeai.Query.Consumed.{if_elim}
use codeai.Pagination.Paginator.{Record}

-- With one row more than the limit, the page is the rows up to the limit.
pub kept-take :
    (limit : ℕ) (rows : List Record)
    → (if ltb limit (length (take (suc limit) rows))
        then take limit (take (suc limit) rows)
        else take (suc limit) rows)
      ≡ take limit rows
kept-take limit rows =
    if_elim (λ out. out ≡ take limit rows) (ltb limit (length (take (suc limit) rows)))
      (λ e. take-take-suc limit rows)
      (λ e. elim (length-take_cases (suc limit) rows) [
        | inl (l, h) ↦ absurd (ground (arith, l, e))
        | inr (whole, l) ↦ whole ∙ sym (take-whole limit rows (ground (arith, ap length whole, e)))
      ])

-- And there is a next page exactly if there are more rows than the limit.
pub ltb-take :
    (limit : ℕ) (rows : List Record)
    → ltb limit (length (take (suc limit) rows)) ≡ ltb limit (length rows)
ltb-take limit rows = elim (length-take_cases (suc limit) rows) [
  | inl (l, h) ↦ ground (arith, l, h)
  | inr (whole, l) ↦ ap (λ rs. ltb limit (length rs)) whole
]

pub ltb-drop :
    (limit skipped : ℕ) (rows : List Record)
    → ltb limit (length (drop skipped rows)) ≡ ltb (skipped + limit) (length rows)
ltb-drop limit skipped rows = ground (arith, length-drop skipped rows)
