-- ===== src/Saga/Compensate.antt =====
-- `Compensate` of internal/workflow/compensation/saga.go, against what it runs.
use codeai.Base.{
  ℕ, ◌≡◌, refl, ap, ◌↔◌, true, String, List, [], ◌∷◌, ◌++◌, Option, none, some, map, reverse, All,
}
use codeai.Saga.{
  NamedCompensation, CompensationRecord, CompensationError, SagaManager, failures, error_or_nil,
  run_all, compensate,
}

abbrev pub HasSucceeded : {E : Type 0} → CompensationRecord E → Type 0
HasSucceeded r = r.error ≡ none

module _ {W E : Type 0} (clock : W → ℕ) where
  run_all-names :
      (comps : List (NamedCompensation W E)) (w : W)
      → map (λ (r : CompensationRecord E). r.name) (run_all clock comps w).ran_records
        ≡ map (λ (c : NamedCompensation W E). c.name) comps
  unfolding run_all
  run_all-names [] w = refl
  run_all-names (comp ∷ comps) w = ap (λ rest. comp.name ∷ rest) (run_all-names comps (comp.fn w).0)

  run_all-executed :
      (comps : List (NamedCompensation W E)) (w : W)
      → All (λ (r : CompensationRecord E). r.executed ≡ true) (run_all clock comps w).ran_records
  unfolding run_all
  run_all-executed [] w = tt
  run_all-executed (comp ∷ comps) w = (refl, run_all-executed comps (comp.fn w).0)

  failures-cons :
      (name : String) (err : Option E) (rest : CompensationError E)
      → ((failures name err ++ rest ≡ []) ↔ ((err ≡ none) × (rest ≡ [])))
  failures-cons name none rest = ((λ e. (refl, e)), (λ p. p.1))
  failures-cons name (some e) rest = ((λ h. cc h), (λ p. cc (p.0)))

  run_all-errors :
      (comps : List (NamedCompensation W E)) (w : W)
      → ((run_all clock comps w).errors ≡ [] ↔ All HasSucceeded (run_all clock comps w).ran_records)
  unfolding run_all
  run_all-errors [] w = ((λ e. tt), (λ a. refl))
  run_all-errors (comp ∷ comps) w =
      let (w', err) = comp.fn w in
      let ih = run_all-errors comps w' in
      let here = failures-cons comp.name err (run_all clock comps w').errors in
      ((λ e. ((here.0 e).0, ih.0 (here.0 e).1)), (λ a. here.1 (a.0, ih.1 a.1)))

  error_or_nil_iff : (errors : CompensationError E) → ((error_or_nil errors ≡ none) ↔ (errors ≡ []))
  error_or_nil_iff [] = ((λ e. refl), (λ e. refl))
  error_or_nil_iff (e ∷ es) = ((λ h. cc h), (λ h. cc h))

  -- What `Compensate` does to a saga: the compensations stay registered, each of them has run, the
  -- last first, and left a record, and the error is nil exactly if none of them failed.
  pub record IsCompensated (s s' : SagaManager W E) (err : Option (CompensationError E))
      : Type 0 where
    pub kept : s'.compensations ≡ s.compensations
    pub ran : List (CompensationRecord E)
    pub appended : s'.records ≡ s.records ++ ran
    pub reversed :
        map (λ (r : CompensationRecord E). r.name) ran
        ≡ map (λ (c : NamedCompensation W E). c.name) (reverse s.compensations)
    pub all_executed : All (λ (r : CompensationRecord E). r.executed ≡ true) ran
    pub nil_iff : (err ≡ none) ↔ All HasSucceeded ran

  -- Compensate runs every registered compensation, whatever the others give, the last registered
  -- first, and appends to the records one executed record for each, in that order. Its error is nil
  -- exactly if none of them failed. The compensations stay registered.
  compensate-IsCompensated :
      (s : SagaManager W E) (w : W)
      → IsCompensated s (compensate clock s w).0 (compensate clock s w).2
  unfolding compensate
  compensate-IsCompensated s w =
      let ran = run_all clock (reverse s.compensations) w in
      let nil = error_or_nil_iff ran.errors in
      let errors = run_all-errors (reverse s.compensations) w in
      record {
        kept = refl;
        ran = ran.ran_records;
        appended = refl;
        reversed = run_all-names (reverse s.compensations) w;
        all_executed = run_all-executed (reverse s.compensations) w;
        nil_iff = ((λ e. errors.0 (nil.0 e)), (λ a. nil.1 (errors.1 a)));
      }
