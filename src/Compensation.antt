-- ===== src/Compensation.antt =====
-- internal/workflow/compensation/manager.go: compensations of the activities of a workflow. `W` is
-- the world that the compensations change, `E` their errors and `I` their inputs. A compensation is
-- a function that a step carries, and takes the activity options under which Temporal runs it; the
-- clock is read off the world. Times are in nanoseconds, and
-- a duration that a caller sets may be negative. A coefficient of back-off is a whole number here. The
-- log lines are left out. The lock is not held while compensations run, so a sequence of calls is one
-- of calls that come one after another.
pub mod Passes
pub mod Partial
pub mod Calls
mod Outcome
mod Tests
use codeai.Base.{
  ℕ, ◌-◌, ◌*◌, Bool, true, false, String, List, [], ◌∷◌, ◌++◌, Option, none, some, reverse, length,
  str_eq, ◌==◌, if◌then◌else◌, any,
}
use codeai.Query.Ast.{ℤ, pos, negsuc}

pub data CompensationStatus : Type 0 where
  pending : CompensationStatus
  running : CompensationStatus
  completed : CompensationStatus
  failed : CompensationStatus
  skipped : CompensationStatus

-- A retry policy, as this file fills it in.
pub record RetryPolicy : Type 0 where
  pub initial_interval : ℤ
  pub backoff_coefficient : ℕ
  pub maximum_interval : ℤ
  pub maximum_attempts : ℤ

pub record ActivityOptions : Type 0 where
  pub start_to_close_timeout : ℤ
  pub retry_policy : RetryPolicy

-- A `WorkflowCompensationFunc`: it runs under activity options, with its input.
abbrev pub CompensateFn : Type 0 → Type 0 → Type 0 → Type 0
CompensateFn W E I = ActivityOptions → I → W → W × Option E

pub record CompensationStep (W E I : Type 0) : Type 0 where
  pub activity_name : String
  pub compensate_fn : CompensateFn W E I
  pub input : I
  pub timeout : ℤ
  pub retry_policy : Option RetryPolicy
  pub idempotent : Bool
  pub allow_skip : Bool

pub record CompensationExecutionRecord (E : Type 0) : Type 0 where
  pub activity_name : String
  pub status : CompensationStatus
  pub executed_at : ℕ
  pub duration : ℕ
  pub error : Option E

pub record CompensationManager (W E I : Type 0) : Type 0 where
  pub compensations : List (CompensationStep W E I)
  pub executed : List String
  pub records : List (CompensationExecutionRecord E)

abbrev pub second : ℕ
second = 1000000000

abbrev pub is_zero : ℤ → Bool
is_zero (pos n) = n == 0
is_zero (negsuc n) = false

unfoldable pub new_compensation_manager : {W E I : Type 0} → CompensationManager W E I
new_compensation_manager = record { compensations = []; executed = []; records = [] }

unfoldable pub register_compensation :
    {W E I : Type 0}
    → CompensationManager W E I
    → CompensationStep W E I
    → CompensationManager W E I
register_compensation cm step =
    let step' =
      if is_zero step.timeout then record step { timeout = pos (30 * second) } else step in
    record cm { compensations = cm.compensations ++ step' ∷ [] }

abbrev pub simple_step : {W E I : Type 0} → String → CompensateFn W E I → I → CompensationStep W E I
simple_step activity_name fn input = record {
  activity_name = activity_name;
  compensate_fn = fn;
  input = input;
  timeout = pos (30 * second);
  retry_policy = none;
  idempotent = true;
  allow_skip = false;
}

unfoldable pub register_simple :
    {W E I : Type 0}
    → CompensationManager W E I
    → String
    → CompensateFn W E I
    → I
    → CompensationManager W E I
unfolding register_compensation
register_simple cm activity_name fn input =
    register_compensation cm (simple_step activity_name fn input)

unfoldable pub record_execution :
    {W E I : Type 0} → CompensationManager W E I → String → CompensationManager W E I
record_execution cm activity_name = record cm { executed = cm.executed ++ activity_name ∷ [] }

unfoldable pub is_executed : {W E I : Type 0} → CompensationManager W E I → String → Bool
is_executed cm activity_name = any (λ name. str_eq name activity_name) cm.executed

unfoldable pub executed_count : {W E I : Type 0} → CompensationManager W E I → ℕ
executed_count cm = length cm.executed

unfoldable pub compensation_count : {W E I : Type 0} → CompensationManager W E I → ℕ
compensation_count cm = length cm.compensations

unfoldable pub clear : {W E I : Type 0} → CompensationManager W E I → CompensationManager W E I
clear cm = new_compensation_manager

-- "compensation NAME failed: ERROR".
pub record CompensationFailure (E : Type 0) : Type 0 where
  pub failed_name : String
  pub cause : E

abbrev pub default_retry_policy : RetryPolicy
default_retry_policy = record {
  initial_interval = pos second;
  backoff_coefficient = 2;
  maximum_interval = pos (30 * second);
  maximum_attempts = pos 3;
}

unfoldable pub execute_compensation : {W E I : Type 0} → CompensationStep W E I → W → W × Option E
execute_compensation step w =
    let policy : RetryPolicy = elim step.retry_policy [
      | none ↦ default_retry_policy
      | some p ↦ p
    ] in
    step.compensate_fn (record { start_to_close_timeout = step.timeout; retry_policy = policy })
      step.input w

-- The status of a compensation that ran.
unfoldable pub status_of : {E : Type 0} → Option E → CompensationStatus
status_of none = completed
status_of (some e) = failed

-- What is added to the errors.
unfoldable pub counted_failures :
    {W E I : Type 0} → CompensationStep W E I → Option E → List (CompensationFailure E)
counted_failures comp none = []
counted_failures comp (some e) =
    if comp.allow_skip then [] else record { failed_name = comp.activity_name; cause = e } ∷ []

pub record Pass (W E : Type 0) : Type 0 where
  pub world : W
  pub new_records : List (CompensationExecutionRecord E)
  pub errors : List (CompensationFailure E)

abbrev pub error_or_nil :
    {E : Type 0} → List (CompensationFailure E) → Option (List (CompensationFailure E))
error_or_nil [] = none
error_or_nil (e ∷ es) = some (e ∷ es)

-- `nameSet[name]`.
abbrev pub in_names : List String → String → Bool
in_names names name = any (λ n. str_eq n name) names

-- The compensations for the activities of some names.
unfoldable pub selected :
    {W E I : Type 0} → List String → List (CompensationStep W E I) → List (CompensationStep W E I)
selected names [] = []
selected names (comp ∷ comps) =
    let rest = selected names comps in
    if in_names names comp.activity_name then comp ∷ rest else rest

-- The calls that change a manager.
pub data ManagerCall (W E I : Type 0) : Type 0 where
  registers : CompensationStep W E I → ManagerCall W E I
  registers_simple : String → CompensateFn W E I → I → ManagerCall W E I
  records_execution : String → ManagerCall W E I
  compensates : ManagerCall W E I
  compensates_partly : List String → ManagerCall W E I
  clears : ManagerCall W E I

module _ {W E I : Type 0} (clock : W → ℕ) where
  -- The loop of `Compensate` and `CompensatePartial`, for the compensations in its order.
  unfoldable pub run_pass : CompensationManager W E I → List (CompensationStep W E I) → W → Pass W E
  unfolding is_executed
  run_pass cm [] w = record { world = w; new_records = []; errors = [] }
  run_pass cm (comp ∷ comps) w =
      let (w', err) = execute_compensation comp w in
      let without = run_pass cm comps w in
      let rest = run_pass cm comps w' in
      let done : CompensationExecutionRecord E = record {
        activity_name = comp.activity_name;
        status = status_of err;
        executed_at = clock w';
        duration = clock w' - clock w;
        error = err;
      } in
      if is_executed cm comp.activity_name
      then record {
        world = rest.world;
        new_records = done ∷ rest.new_records;
        errors = counted_failures comp err ++ rest.errors;
      }
      else without

  abbrev pub finish :
      CompensationManager W E I
      → Pass W E
      → CompensationManager W E I × W × Option (List (CompensationFailure E))
  finish cm pass =
      (record cm { records = cm.records ++ pass.new_records }, pass.world, error_or_nil pass.errors)

  unfoldable pub compensate :
      CompensationManager W E I
      → W
      → CompensationManager W E I × W × Option (List (CompensationFailure E))
  compensate cm w = finish cm (run_pass cm (reverse cm.compensations) w)

  unfoldable pub compensate_partial :
      CompensationManager W E I
      → List String
      → W
      → CompensationManager W E I × W × Option (List (CompensationFailure E))
  compensate_partial cm activity_names w =
      finish cm (run_pass cm (reverse (selected activity_names cm.compensations)) w)

  unfoldable pub call :
      CompensationManager W E I × W → ManagerCall W E I → CompensationManager W E I × W
  call (cm, w) (registers step) = (register_compensation cm step, w)
  call (cm, w) (registers_simple name fn input) = (register_simple cm name fn input, w)
  call (cm, w) (records_execution name) = (record_execution cm name, w)
  call (cm, w) compensates = let (cm', w', err) = compensate cm w in (cm', w')
  call (cm, w) (compensates_partly names) =
      let (cm', w', err) = compensate_partial cm names w in (cm', w')
  call (cm, w) clears = (clear cm, w)

  unfoldable pub calls :
      CompensationManager W E I × W → List (ManagerCall W E I) → CompensationManager W E I × W
  calls state [] = state
  calls state (c ∷ cs) = calls (call state c) cs
