-- ===== src/Saga.antt =====
-- internal/workflow/compensation/saga.go: compensations in reverse order, and sagas of steps. Actions
-- and compensations act on a world `W` that the caller brings, and may fail with an error `E`; the
-- clock is read off the world.
pub mod Compensate
pub mod Runs
pub mod Stops
pub mod Rollback
mod Tests
use codeai.Base.{
  ℕ, suc, ◌-◌, Bool, true, false, String, List, [], ◌∷◌, ◌++◌, Option, none, some, reverse, length,
}

-- A `func(ctx) error`: the world that it leaves, and its error if it fails.
abbrev pub Func : Type 0 → Type 0 → Type 0
Func W E = W → W × Option E

pub record CompensationRecord (E : Type 0) : Type 0 where
  pub name : String
  pub executed : Bool
  pub executed_at : ℕ
  pub error : Option E
  pub duration : ℕ

pub record NamedCompensation (W E : Type 0) : Type 0 where
  pub name : String
  pub fn : Func W E

pub record SagaManager (W E : Type 0) : Type 0 where
  pub compensations : List (NamedCompensation W E)
  pub records : List (CompensationRecord E)

-- "compensation NAME failed: ERROR".
pub record CompensationFailure (E : Type 0) : Type 0 where
  pub failed_name : String
  pub cause : E

-- `CompensationError`, which is made only of one failure or more.
abbrev pub CompensationError : Type 0 → Type 0
CompensationError E = List (CompensationFailure E)

-- `Unwrap`: the first of the failures.
unfoldable pub unwrap : {E : Type 0} → CompensationError E → Option (CompensationFailure E)
unwrap [] = none
unwrap (f ∷ fs) = some f

pub record SagaStep (W E : Type 0) : Type 0 where
  pub name : String
  pub action : Func W E
  pub compensation : Option (Func W E)

-- What a run of some compensations gives.
pub record Ran (W E : Type 0) : Type 0 where
  pub world : W
  pub ran_records : List (CompensationRecord E)
  pub errors : CompensationError E

abbrev pub failures : {E : Type 0} → String → Option E → CompensationError E
failures name none = []
failures name (some e) = record { failed_name = name; cause = e } ∷ []

abbrev pub error_or_nil : {E : Type 0} → CompensationError E → Option (CompensationError E)
error_or_nil [] = none
error_or_nil (e ∷ es) = some (e ∷ es)

-- How `ExecuteSaga` ends: with nil and nil, or with the records and the error of a step, with the
-- error of the compensation where that failed too.
pub data SagaResult (E : Type 0) : Type 0 where
  completed : SagaResult E
  step_failed :
      String → E → Option (CompensationError E) → List (CompensationRecord E) → SagaResult E

unfoldable pub new_saga_manager : {W E : Type 0} → SagaManager W E
new_saga_manager = record { compensations = []; records = [] }

unfoldable pub add_compensation :
    {W E : Type 0} → SagaManager W E → String → Func W E → SagaManager W E
add_compensation s name fn = record s {
  compensations = s.compensations ++ record { name = name; fn = fn } ∷ [];
}

unfoldable pub clear : {W E : Type 0} → SagaManager W E → SagaManager W E
clear s = record s { compensations = [] }

unfoldable pub count : {W E : Type 0} → SagaManager W E → ℕ
count s = length s.compensations

module _ {W E : Type 0} (clock : W → ℕ) where
  -- The body of the loop of `Compensate`, for the compensations in the order of the loop.
  unfoldable pub run_all : List (NamedCompensation W E) → W → Ran W E
  run_all [] w = record { world = w; ran_records = []; errors = [] }
  run_all (comp ∷ comps) w =
      let (w', err) = comp.fn w in
      let rest = run_all comps w' in
      let done : CompensationRecord E = record {
        name = comp.name;
        executed = true;
        executed_at = clock w';
        error = err;
        duration = clock w' - clock w;
      } in
      record {
        world = rest.world;
        ran_records = done ∷ rest.ran_records;
        errors = failures comp.name err ++ rest.errors;
      }

  unfoldable pub compensate :
      SagaManager W E → W → SagaManager W E × W × Option (CompensationError E)
  unfolding run_all
  compensate s w =
      let ran = run_all (reverse s.compensations) w in
      (record s { records = s.records ++ ran.ran_records }, ran.world, error_or_nil ran.errors)

  -- The step whose action was called registers its compensation, if it has one.
  abbrev pub register : SagaManager W E → SagaStep W E → Option (Func W E) → SagaManager W E
  register s step none = s
  register s step (some fn) = add_compensation s step.name fn

  unfoldable pub execute_steps : SagaManager W E → List (SagaStep W E) → W → W × SagaResult E
  execute_steps s [] w = (w, completed)
  execute_steps s (step ∷ steps) w =
      let (w', err) = step.action w in
      elim err [
        | some e ↦
            let (s', w'', failed) = compensate s w' in
            (w'', step_failed step.name e failed s'.records)
        | none ↦ execute_steps (register s step step.compensation) steps w'
      ]

  unfoldable pub execute_saga : List (SagaStep W E) → W → W × SagaResult E
  unfolding execute_steps new_saga_manager
  execute_saga steps w = execute_steps new_saga_manager steps w
