-- ===== src/Saga/Stops.antt =====
-- `ExecuteSaga` of internal/workflow/compensation/saga.go, against the actions that succeed.
use codeai.Base.{
  ℕ, ◌≡◌, refl, sym, ap, ◌∙◌, List, [], ◌∷◌, ◌++◌, Option, none, some, reverse, append-nil,
  append_assoc, Option-cases, inl, inr, ◌⊎◌,
}
use codeai.Saga.Runs.{Gives, error_or_nil-Gives, Runs, run_all-Runs}
use codeai.Saga.{
  CompensationRecord, CompensationError, Ran, NamedCompensation, SagaManager, SagaStep, SagaResult,
  completed, step_failed, error_or_nil, new_saga_manager, add_compensation, run_all, compensate,
  register, execute_steps, execute_saga,
}

module _ {W E : Type 0} (clock : W → ℕ) where
  -- The actions of the steps succeed, one after the other, and lead from a world to another.
  abbrev pub Succeeds : List (SagaStep W E) → W → W → Type 0
  Succeeds [] w w' = w ≡ w'
  Succeeds (step ∷ steps) w w' = (t : W) × (step.action w ≡ (t, none)) × Succeeds steps t w'

  -- The compensations that the steps bring, in the order of the steps.
  abbrev pub compensations_of : List (SagaStep W E) → List (NamedCompensation W E)
  compensations_of [] = []
  compensations_of (step ∷ steps) = elim step.compensation [
    | none ↦ compensations_of steps
    | some fn ↦ record { name = step.name; fn = fn } ∷ compensations_of steps
  ]

  abbrev pub with_compensations : SagaManager W E → List (NamedCompensation W E) → SagaManager W E
  with_compensations s comps = record s { compensations = comps }

  abbrev register_all : SagaManager W E → List (SagaStep W E) → SagaManager W E
  register_all s [] = s
  register_all s (step ∷ steps) = register_all (register clock s step step.compensation) steps

  register-compensations :
      (s : SagaManager W E) (step : SagaStep W E) (steps : List (SagaStep W E))
      → with_compensations
          (register clock s step step.compensation)
          ((register clock s step step.compensation).compensations ++ compensations_of steps)
        ≡ with_compensations s (s.compensations ++ compensations_of (step ∷ steps))
  unfolding add_compensation
  register-compensations s step steps = elim (Option-cases step.compensation) [
    | inl h ↦ rw h refl
    | inr (fn, h) ↦ rw h (
        ap (with_compensations s) (
          append_assoc s.compensations (record { name = step.name; fn = fn } ∷ [])
            (compensations_of steps)))
  ]

  register_all-eq :
      (s : SagaManager W E) (steps : List (SagaStep W E))
      → register_all s steps ≡ with_compensations s (s.compensations ++ compensations_of steps)
  unfolding add_compensation
  register_all-eq s [] = ap (with_compensations s) (sym (append-nil s.compensations))
  register_all-eq s (step ∷ steps) =
      register_all-eq (register clock s step step.compensation) steps
      ∙ register-compensations s step steps

  execute_steps-append :
      (s : SagaManager W E) (steps rest : List (SagaStep W E)) (w t : W)
      → Succeeds steps w t
      → execute_steps clock s (steps ++ rest) w ≡ execute_steps clock (register_all s steps) rest t
  unfolding execute_steps
  execute_steps-append s [] rest w t h = ap (execute_steps clock s rest) h
  execute_steps-append s (step ∷ steps) rest w t (v, now, later) =
      rw (ap (λ x. x.1) now, ap (λ x. x.0) now, execute_steps)
        (execute_steps-append (register clock s step step.compensation) steps rest v t later)

  -- A saga is either through, all of its actions having succeeded, or at its first failing action.
  abbrev pub IsThrough : List (SagaStep W E) → W → W × SagaResult E → Type 0
  IsThrough steps w outcome = (t : W) × Succeeds steps w t × (outcome ≡ (t, completed))

  pub record HasStopped (steps : List (SagaStep W E)) (w : W) (outcome : W × SagaResult E)
      : Type 0 where
    pub before : List (SagaStep W E)
    pub step : SagaStep W E
    pub after : List (SagaStep W E)
    pub split : steps ≡ before ++ step ∷ after
    pub reached : W
    pub succeeded : Succeeds before w reached
    pub left : W
    pub error : E
    pub failed : step.action reached ≡ (left, some error)
    pub back : W
    pub records : List (CompensationRecord E)
    pub failed_compensations : CompensationError E
    pub runs : Runs clock (reverse (compensations_of before)) left back records failed_compensations
    pub given : Option (CompensationError E)
    pub gives : Gives failed_compensations given
    pub outcome_eq : outcome ≡ (back, step_failed step.name error given records)

  -- Where the first failure of the actions is.
  record Fails (steps : List (SagaStep W E)) (w : W) : Type 0 where
    before : List (SagaStep W E)
    step : SagaStep W E
    after : List (SagaStep W E)
    split : steps ≡ before ++ step ∷ after
    reached : W
    succeeded : Succeeds before w reached
    left : W
    error : E
    failed : step.action reached ≡ (left, some error)

  first_failure :
      (steps : List (SagaStep W E)) (w : W) → ((t : W) × Succeeds steps w t) ⊎ Fails steps w
  first_failure [] w = inl (w, refl)
  first_failure (step ∷ steps) w = go (step.action w) refl (first_failure steps (step.action w).0)
    where
      go :
          (result : W × Option E)
          → step.action w ≡ result
          → ((t : W) × Succeeds steps (step.action w).0 t) ⊎ Fails steps (step.action w).0
          → ((t : W) × Succeeds (step ∷ steps) w t) ⊎ Fails (step ∷ steps) w
      go (v, some e) h rest = inr (record {
        before = [];
        step = step;
        after = steps;
        split = refl;
        reached = w;
        succeeded = refl;
        left = v;
        error = e;
        failed = h;
      })
      go (v, none) h (inl (t, later)) =
          inl (t, ((step.action w).0, (rw (ap (λ x. x.1) h) refl), later))
      go (v, none) h (inr f) = inr (record {
        before = step ∷ f.before;
        step = f.step;
        after = f.after;
        split = ap (λ rest. step ∷ rest) f.split;
        reached = f.reached;
        succeeded = ((step.action w).0, (rw (ap (λ x. x.1) h) refl), f.succeeded);
        left = f.left;
        error = f.error;
        failed = f.failed;
      })

  execute_saga-append :
      (steps rest : List (SagaStep W E)) (w t : W)
      → Succeeds steps w t
      → execute_saga clock (steps ++ rest) w
        ≡ execute_steps clock (with_compensations new_saga_manager (compensations_of steps)) rest t
  unfolding execute_saga new_saga_manager
  execute_saga-append steps rest w t h =
      execute_steps-append new_saga_manager steps rest w t h
      ∙ ap (λ s. execute_steps clock s rest t) (register_all-eq new_saga_manager steps)

  abbrev unwound : {steps : List (SagaStep W E)} {w : W} → Fails steps w → Ran W E
  unwound f = run_all clock (reverse (compensations_of f.before)) f.left

  -- ExecuteSaga returns nil when all actions succeed, in the world that they lead to. Otherwise it
  -- stops at the first action that fails, the later steps do not run, and the compensations of the
  -- steps before it, and only those, run in reverse from the world that the failed action left,
  -- each from the world that the one before it leaves, also if that one fails. The result has the
  -- error and the name of the step, a record of each compensation that ran, with its times and its
  -- error if it failed, and the failures of the compensations with their names if there are any.
  pub execute_saga-Stops :
      (steps : List (SagaStep W E)) (w : W)
      → IsThrough steps w (execute_saga clock steps w)
        ⊎ HasStopped steps w (execute_saga clock steps w)
  unfolding execute_steps compensate new_saga_manager
  execute_saga-Stops steps w = elim (first_failure steps w) [
    | inl (t, h) ↦ inl (
      t,
      h,
      ap (λ all. execute_saga clock all w) (sym (append-nil steps))
          ∙ execute_saga-append steps [] w t h,
    )
    | inr f ↦ inr (record {
      before = f.before;
      step = f.step;
      after = f.after;
      split = f.split;
      reached = f.reached;
      succeeded = f.succeeded;
      left = f.left;
      error = f.error;
      failed = f.failed;
      back = (unwound f).world;
      records = (unwound f).ran_records;
      failed_compensations = (unwound f).errors;
      runs = run_all-Runs clock (reverse (compensations_of f.before)) f.left;
      given = error_or_nil (unwound f).errors;
      gives = error_or_nil-Gives (unwound f).errors;
      outcome_eq =
          ap (λ all. execute_saga clock all w) f.split
          ∙ execute_saga-append f.before (f.step ∷ f.after) w f.reached f.succeeded
          ∙ rw (ap (λ x. x.1) f.failed, ap (λ x. x.0) f.failed, execute_steps, compensate) refl;
    })
  ]
