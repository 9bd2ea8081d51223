-- ===== src/Saga/Rollback.antt =====
-- Sagas of internal/workflow/compensation/saga.go whose compensations undo their actions. The worlds
-- are compared by a relation, since the clock of a world goes on when its data are restored.
use codeai.Base.{
  ℕ, ◌≡◌, refl, ap, String, List, [], ◌∷◌, Option, none, some, reverse, All, reverse-append,
}
use codeai.Saga.{
  Func, SagaManager, SagaStep, SagaResult, completed, step_failed, new_saga_manager,
  add_compensation, run_all, compensate, register, execute_steps, execute_saga,
}

module _ {W E : Type 0} (clock : W → ℕ) (Same : W → W → Type 0) where
  -- The compensation takes back what the action did, and a failed action did nothing.
  pub record Undoes (step : SagaStep W E) : Type 0 where
    pub undo : Func W E
    pub has_undo : step.compensation ≡ some undo
    pub takes_back :
        (w w' v : W)
        → step.action w ≡ (w', none)
        → Same v w'
        → Same (undo v).0 w × ((undo v).1 ≡ none)
    pub atomic : (w w' : W) (e : E) → step.action w ≡ (w', some e) → Same w' w

  -- From a world like `w` the compensations so far lead back to one like `start`, without errors.
  abbrev Restores : SagaManager W E → W → W → Type 0
  Restores s w start =
      (v : W)
      → Same v w
      → Same (run_all clock (reverse s.compensations) v).world start
        × ((run_all clock (reverse s.compensations) v).errors ≡ [])

  Restores-add :
      (s : SagaManager W E) (name : String) (fn : Func W E) (w w' start : W)
      → ((v : W) → Same v w' → Same (fn v).0 w × ((fn v).1 ≡ none))
      → Restores s w start
      → Restores (add_compensation s name fn) w' start
  unfolding add_compensation run_all
  Restores-add s name fn w w' start undone r v like =
      let last = reverse-append s.compensations (record { name = name; fn = fn } ∷ []) in
      let (back, clean) = undone v like in rw (last, clean, run_all) (r (fn v).0 back)

  -- The world after a saga that failed is like the first, and no compensation failed.
  abbrev pub IsUndone : W → W × SagaResult E → Type 0
  IsUndone start (w, completed) = Unit
  IsUndone start (w, step_failed name e failed records) = Same w start × (failed ≡ none)

  execute_steps-IsUndone :
      (s : SagaManager W E) (steps : List (SagaStep W E)) (w start : W)
      → All Undoes steps
      → Restores s w start
      → IsUndone start (execute_steps clock s steps w)
  unfolding execute_steps compensate
  execute_steps-IsUndone s [] w start u r = tt
  execute_steps-IsUndone s (step ∷ steps) w start u r = go (step.action w) refl (λ t h.
      execute_steps-IsUndone (register clock s step step.compensation) steps t start u.1 (
        rw u.0.has_undo
          (Restores-add s step.name u.0.undo w t start (λ v. u.0.takes_back w t v h) r)))
    where
      go :
          (result : W × Option E)
          → step.action w ≡ result
          → ((t : W)
              → step.action w ≡ (t, none)
              → IsUndone start
                  (execute_steps clock (register clock s step step.compensation) steps t))
          → IsUndone start (execute_steps clock s (step ∷ steps) w)
      go (w', some e) h rest =
          let (back, clean) = r w' (u.0.atomic w w' e h) in
          rw (ap (λ x. x.1) h, ap (λ x. x.0) h, execute_steps, compensate, clean) (back, refl)
      go (w', none) h rest = rw (ap (λ x. x.1) h, ap (λ x. x.0) h, execute_steps) (rest w' h)

  -- When each step has a compensation that succeeds and takes its action back, and a failed action
  -- changes nothing, a saga that fails at some step ends in a world like the one it began in, and
  -- none of its compensations fails. Like is any relation of worlds for which the steps are such.
  pub execute_saga-IsUndone :
      (steps : List (SagaStep W E)) (w : W)
      → All Undoes steps
      → IsUndone w (execute_saga clock steps w)
  unfolding execute_saga new_saga_manager run_all
  execute_saga-IsUndone steps w u =
      execute_steps-IsUndone new_saga_manager steps w w u (λ v like. (like, refl))
