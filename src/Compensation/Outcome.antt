-- ===== src/Compensation/Outcome.antt =====
-- When `Compensate` of internal/workflow/compensation/manager.go gives no error.
use codeai.Base.{
  ℕ, ◌≡◌, refl, ◌↔◌, inl, inr, false, Bool-cases, List, [], ◌∷◌, ◌++◌, Option, none, some, reverse,
  All,
}
use codeai.Compensation.{
  completed, CompensationStep, CompensationExecutionRecord, CompensationManager,
  CompensationFailure, is_executed, execute_compensation, status_of, counted_failures, error_or_nil,
  run_pass, compensate,
}

counted_failures-cons :
    {W E I : Type 0} (comp : CompensationStep W E I) (err : Option E)
    (rest : List (CompensationFailure E))
    → comp.allow_skip ≡ false
    → ((counted_failures comp err ++ rest ≡ []) ↔ ((status_of err ≡ completed) × (rest ≡ [])))
unfolding status_of counted_failures
counted_failures-cons comp none rest h = ((λ e. (refl, e)), (λ p. p.1))
counted_failures-cons comp (some e) rest h = rw h ((λ h. cc h), (λ p. cc (p.0)))

error_or_nil_iff :
    {E : Type 0} (errors : List (CompensationFailure E))
    → ((error_or_nil errors ≡ none) ↔ (errors ≡ []))
error_or_nil_iff [] = ((λ e. refl), (λ e. refl))
error_or_nil_iff (e ∷ es) = ((λ h. cc h), (λ h. cc h))

module _ {W E I : Type 0} (clock : W → ℕ) where
  -- No failure is counted exactly if all compensations completed, when each failure counts.
  run_pass-errors :
      (cm : CompensationManager W E I) (comps : List (CompensationStep W E I)) (w : W)
      → All (λ (c : CompensationStep W E I). c.allow_skip ≡ false) comps
      → ((run_pass clock cm comps w).errors ≡ [])
        ↔ All
            (λ (r : CompensationExecutionRecord E). r.status ≡ completed)
            (run_pass clock cm comps w).new_records
  unfolding run_pass
  run_pass-errors cm [] w counts = ((λ e. tt), (λ a. refl))
  run_pass-errors cm (comp ∷ comps) w counts =
      elim (Bool-cases (is_executed cm comp.activity_name)) [
        | inl h ↦
            let ih = run_pass-errors cm comps (execute_compensation comp w).0 counts.1 in
            let here =
              counted_failures-cons comp (execute_compensation comp w).1
                (run_pass clock cm comps (execute_compensation comp w).0).errors counts.0 in
            rw h ((λ e. ((here.0 e).0, ih.0 (here.0 e).1)), (λ a. here.1 (a.0, ih.1 a.1)))
        | inr h ↦ rw h (run_pass-errors cm comps w counts.1)
      ]

  -- When none of the compensations may be skipped, Compensate returns nil exactly if all the
  -- records that it appends are completed.
  pub compensate-nil_iff :
      (cm : CompensationManager W E I) (w : W)
      → All (λ (c : CompensationStep W E I). c.allow_skip ≡ false) (reverse cm.compensations)
      → (new : List (CompensationExecutionRecord E)) × ((compensate clock cm w).0.records
          ≡ cm.records ++ new)
        × (((compensate clock cm w).2 ≡ none)
            ↔ All (λ (r : CompensationExecutionRecord E). r.status ≡ completed) new)
  unfolding compensate
  compensate-nil_iff cm w counts =
      let pass = run_pass clock cm (reverse cm.compensations) w in
      let nil = error_or_nil_iff pass.errors in
      let errors = run_pass-errors cm (reverse cm.compensations) w counts in
      (pass.new_records, refl, ((λ e. errors.0 (nil.0 e)), (λ a. nil.1 (errors.1 a))))
