-- ===== src/Compensation/Tests.antt =====
-- Managers of internal/workflow/compensation/manager.go at concrete inputs. The compensations append
-- their input to a log, which is the world, and its length is the clock; one of them fails.
use codeai.Base.{ℕ, ◌≡◌, refl, String, List, [], ◌∷◌, ◌++◌, none, some, map, length, reverse}
use codeai.Compensation.{
  CompensateFn, completed, failed, CompensationManager, CompensationExecutionRecord, ManagerCall,
  registers_simple, records_execution, compensates_partly, call, calls, new_compensation_manager,
  register_compensation, register_simple, record_execution, is_executed, execute_compensation,
  status_of, run_pass, compensate, compensate_partial,
}
use codeai.Compensation.Passes.{IsPassed, compensate-IsPassed}
use codeai.Compensation.Partial.{compensate_partial-compensate}
use codeai.Compensation.Calls.{IsValid, calls-IsValid}

abbrev Log : Type 0
Log = List String

abbrev clock : Log → ℕ
clock log = length log

abbrev writes : CompensateFn Log String String
writes options text log = (log ++ text ∷ [], none)

abbrev fails : CompensateFn Log String String
fails options text log = (log ++ text ∷ [], some "down")

abbrev travel : List (ManagerCall Log String String)
travel =
    registers_simple "flight" writes "cancel flight"
    ∷ registers_simple "hotel" fails "cancel hotel"
    ∷ registers_simple "car" writes "cancel car"
    ∷ records_execution "flight"
    ∷ records_execution "hotel"
    ∷ []

abbrev after : CompensationManager Log String String
after = (calls clock (new_compensation_manager, []) travel).0

-- The car was not rented.
compensates_two :
    map (λ (r : CompensationExecutionRecord String). r.status) (compensate clock after []).0.records
    ≡ failed ∷ completed ∷ []
unfolding calls call new_compensation_manager register_compensation register_simple record_execution
    is_executed execute_compensation status_of run_pass compensate
compensates_two = refl

cancels_in_reverse : (compensate clock after []).1 ≡ "cancel hotel" ∷ "cancel flight" ∷ []
unfolding calls call new_compensation_manager register_compensation register_simple record_execution
    is_executed execute_compensation status_of run_pass compensate
cancels_in_reverse = refl

compensate-IsPassed_example :
    IsPassed clock after (reverse after.compensations) [] (compensate clock after [])
compensate-IsPassed_example = compensate-IsPassed clock after []

compensate_partial-compensate_example :
    compensate_partial clock after ("hotel" ∷ "flight" ∷ "train" ∷ []) []
    ≡ compensate clock after []
unfolding calls call new_compensation_manager register_compensation register_simple record_execution
    is_executed
compensate_partial-compensate_example =
    compensate_partial-compensate clock after ("hotel" ∷ "flight" ∷ "train" ∷ []) []
      ((λ e. refl), ((λ e. refl), ((λ e. cc e), tt)))

calls-IsValid_example :
    IsValid
      (calls clock (new_compensation_manager, []) (compensates_partly ("hotel" ∷ []) ∷ travel)).0
calls-IsValid_example = calls-IsValid clock [] (compensates_partly ("hotel" ∷ []) ∷ travel)
