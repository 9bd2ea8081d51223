-- ===== src/Compensation/Partial.antt =====
-- `CompensatePartial` of internal/workflow/compensation/manager.go beside `Compensate`.
use codeai.Base.{
  if◌then◌else◌, ℕ, ◌≡◌, refl, sym, ap, ◌∙◌, inl, inr, true, false, Bool-cases, String, List, [],
  ◌∷◌, ◌++◌, reverse, All, reverse-cons, append-nil,
}
use codeai.Compensation.{
  CompensationStep, CompensationManager, is_executed, execute_compensation, in_names, selected,
  run_pass, finish, compensate, compensate_partial,
}

module _ {W E I : Type 0} (clock : W → ℕ) where
  -- The compensations whose activities were executed.
  unfoldable pub executed_of :
      CompensationManager W E I → List (CompensationStep W E I) → List (CompensationStep W E I)
  executed_of cm [] = []
  executed_of cm (comp ∷ comps) =
      let rest = executed_of cm comps in
      if is_executed cm comp.activity_name then comp ∷ rest else rest

  run_pass-executed_of :
      (cm : CompensationManager W E I) (comps : List (CompensationStep W E I)) (w : W)
      → run_pass clock cm (executed_of cm comps) w ≡ run_pass clock cm comps w
  unfolding run_pass executed_of
  run_pass-executed_of cm [] w = refl
  run_pass-executed_of cm (comp ∷ comps) w = elim (Bool-cases (is_executed cm comp.activity_name)) [
    | inl h ↦ rw (h, h, run_pass-executed_of cm comps (execute_compensation comp w).0) refl
    | inr h ↦ rw (h, run_pass-executed_of cm comps w) refl
  ]

  executed_of-append :
      (cm : CompensationManager W E I) (xs ys : List (CompensationStep W E I))
      → executed_of cm (xs ++ ys) ≡ executed_of cm xs ++ executed_of cm ys
  unfolding executed_of
  executed_of-append cm [] ys = refl
  executed_of-append cm (x ∷ xs) ys = elim (Bool-cases (is_executed cm x.activity_name)) [
    | inl h ↦ rw h (ap (λ rest. x ∷ rest) (executed_of-append cm xs ys))
    | inr h ↦ rw h (executed_of-append cm xs ys)
  ]

  executed_of-reverse_cons :
      (cm : CompensationManager W E I) (comp : CompensationStep W E I)
      (comps : List (CompensationStep W E I))
      → executed_of cm (reverse (comp ∷ comps))
        ≡ executed_of cm (reverse comps) ++ executed_of cm (comp ∷ [])
  executed_of-reverse_cons cm comp comps =
      ap (executed_of cm) (reverse-cons comp comps)
      ∙ executed_of-append cm (reverse comps) (comp ∷ [])

  -- Every registered compensation whose activity was executed is among the names.
  abbrev pub Covers :
      CompensationManager W E I → List String → List (CompensationStep W E I) → Type 0
  Covers cm names comps =
      All
        (λ (c : CompensationStep W E I).
          is_executed cm c.activity_name ≡ true → in_names names c.activity_name ≡ true)
        comps

  executed_of-reverse-selected :
      (cm : CompensationManager W E I) (names : List String) (comps : List (CompensationStep W E I))
      → Covers cm names comps
      → executed_of cm (reverse (selected names comps)) ≡ executed_of cm (reverse comps)
  unfolding selected executed_of
  executed_of-reverse-selected cm names [] h = refl
  executed_of-reverse-selected cm names (comp ∷ comps) h =
      let ih = executed_of-reverse-selected cm names comps h.1 in
      let whole = executed_of-reverse_cons cm comp comps in
      elim (Bool-cases (in_names names comp.activity_name)) [
        | inl t ↦ rw t (
            executed_of-reverse_cons cm comp (selected names comps)
            ∙ ap (λ l. l ++ executed_of cm (comp ∷ [])) ih
            ∙ sym whole)
        | inr t ↦
            let out : is_executed cm comp.activity_name ≡ false =
              elim (Bool-cases (is_executed cm comp.activity_name)) [
                | inl e ↦ cc (h.0 e, t)
                | inr e ↦ e
              ] in
            rw t (
              ih
              ∙ sym (append-nil (executed_of cm (reverse comps)))
              ∙ ap (λ l. executed_of cm (reverse comps) ++ l) (rw out refl)
              ∙ sym whole)
      ]

  -- CompensatePartial does what Compensate does if the names that it is given include those of all
  -- registered activities that were executed, whatever other names there are.
  pub compensate_partial-compensate :
      (cm : CompensationManager W E I) (names : List String) (w : W)
      → Covers cm names cm.compensations
      → compensate_partial clock cm names w ≡ compensate clock cm w
  unfolding compensate_partial compensate
  compensate_partial-compensate cm names w h = ap (finish clock cm) (
      sym (run_pass-executed_of cm (reverse (selected names cm.compensations)) w)
      ∙ ap (λ comps. run_pass clock cm comps w)
          (executed_of-reverse-selected cm names cm.compensations h)
      ∙ run_pass-executed_of cm (reverse cm.compensations) w)
