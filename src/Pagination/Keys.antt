-- ===== src/Pagination/Keys.antt =====
-- The keys of parameters in internal/pagination/filter.go.
use codeai.Base.{
  ℕ, ◌≡◌, refl, ap, ◌∙◌, inl, inr, Bool, true, false, List, [], ◌∷◌, ◌++◌, Bool-cases,
}
use codeai.Query.Tokens.{codes}
use codeai.Query.Parser.Numbers.{any_byte, cut}
use codeai.Pagination.Filter.{opening, closing, operator_of, keyed, parse_filter_key}

-- A text is cut at the first byte that the test takes.
cut-found :
    (p : ℕ → Bool) (before : List ℕ) (ch : ℕ) (behind : List ℕ)
    → any_byte p before ≡ false
    → p ch ≡ true
    → cut p (before ++ ch ∷ behind) ≡ (before, true, behind)
cut-found p [] ch behind h t = rw t
cut-found p (b ∷ before) ch behind h t = elim (Bool-cases (p b)) [
  | inl e ↦ cc (rw e at h)
  | inr e ↦
      let ih = cut-found p before ch behind (rw e at h) t in rw e (ap (λ r. (b ∷ r.0, r.1, r.2)) ih)
]

cut-absent :
    (p : ℕ → Bool) (bytes : List ℕ) → any_byte p bytes ≡ false → cut p bytes ≡ (bytes, false, [])
cut-absent p [] h = refl
cut-absent p (b ∷ bytes) h = elim (Bool-cases (p b)) [
  | inl e ↦ cc (rw e at h)
  | inr e ↦ let ih = cut-absent p bytes (rw e at h) in rw e (ap (λ r. (b ∷ r.0, r.1, r.2)) ih)
]

-- A key field[op] is read as the field and the operator, if the field has no bracket and the
-- operator no closing one, and such a field alone is read as the field with the operator eq.
pub parse_filter_key-brackets :
    (field op : List ℕ)
    → any_byte opening field ≡ false
    → any_byte closing field ≡ false
    → any_byte closing op ≡ false
    → (parse_filter_key (field ++ b'[' ∷ (op ++ b']' ∷ [])) ≡ (field, op))
      × (parse_filter_key field ≡ (field, codes "eq"))
unfolding parse_filter_key
parse_filter_key-brackets field op f g h =
    let rest = op ++ b']' ∷ [] in
    (
      ap keyed (cut-found opening field b'[' rest f refl)
          ∙ ap (λ closed. (field, operator_of closed rest (cut closing rest))) g
          ∙ ap (λ found. (field, operator_of false rest found))
              (cut-found closing op b']' [] h refl),
      ap keyed (cut-absent opening field f),
    )
