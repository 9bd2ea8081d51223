-- ===== src/Compensation/Calls.antt =====
-- Sequences of calls of a manager of internal/workflow/compensation/manager.go.
use codeai.Base.{
  Option, none, some, ◌⊎◌, ℕ, ◌*◌, ◌≡◌, ◌≢◌, refl, ap, false, Bool-cases, List, [], ◌∷◌, reverse,
  All, All-append, inl, inr,
}
use codeai.Compensation.{
  CompensationStep, CompensationManager, ManagerCall, registers, registers_simple,
  records_execution, compensates, compensates_partly, clears, call, calls, new_compensation_manager,
  register_compensation, register_simple, record_execution, clear, compensate, compensate_partial,
  selected, finish, run_pass, simple_step, is_zero, second,
}
use codeai.Query.Ast.{ℤ, pos}
use codeai.Query.Consumed.{if_elim}
use codeai.Compensation.{
  completed, failed, CompensationExecutionRecord, status_of, is_executed, execute_compensation,
}

-- A record of a compensation that has ended: completed without an error, or failed with one.
abbrev pub HasEnded : {E : Type 0} → CompensationExecutionRecord E → Type 0
HasEnded {E} r =
    ((r.status ≡ completed) × (r.error ≡ none))
    ⊎ ((r.status ≡ failed) × ((e : E) × (r.error ≡ some e)))

status_of-HasEnded :
    {E : Type 0} (err : Option E)
    → ((status_of err ≡ completed) × (err ≡ none))
      ⊎ ((status_of err ≡ failed) × ((e : E) × (err ≡ some e)))
unfolding status_of
status_of-HasEnded none = inl (refl, refl)
status_of-HasEnded (some e) = inr (refl, (e, refl))

-- Every registered compensation has a timeout other than zero, and every record is of a compensation that ended.
pub record IsValid {W E I : Type 0} (cm : CompensationManager W E I) : Type 0 where
  pub timeouts : All (λ (c : CompensationStep W E I). c.timeout ≢ pos 0) cm.compensations
  pub ended : All HasEnded cm.records

not_zero : (n : ℤ) → is_zero n ≡ false → n ≢ pos 0
not_zero n h zero_here = cc (ap is_zero zero_here, h)

module _ {W E I : Type 0} (clock : W → ℕ) where
  pub run_pass-HasEnded :
      (cm : CompensationManager W E I) (comps : List (CompensationStep W E I)) (w : W)
      → All HasEnded (run_pass clock cm comps w).new_records
  unfolding run_pass
  run_pass-HasEnded cm [] w = tt
  run_pass-HasEnded cm (comp ∷ comps) w = elim (Bool-cases (is_executed cm comp.activity_name)) [
    | inl h ↦ rw h (
      status_of-HasEnded (execute_compensation comp w).1,
      run_pass-HasEnded cm comps (execute_compensation comp w).0,
    )
    | inr h ↦ rw h (run_pass-HasEnded cm comps w)
  ]

  register_compensation-IsValid :
      (cm : CompensationManager W E I) (step : CompensationStep W E I)
      → IsValid cm
      → IsValid (register_compensation cm step)
  unfolding register_compensation
  register_compensation-IsValid cm step v = record {
    timeouts =
        All-append (λ (c : CompensationStep W E I). c.timeout ≢ pos 0) cm.compensations _ v.timeouts
          (if_elim
            (λ (c : CompensationStep W E I).
              All (λ (d : CompensationStep W E I). d.timeout ≢ pos 0) (c ∷ []))
            (is_zero step.timeout) (λ e. (not_zero (pos (30 * second)) refl, tt))
            (λ e. (not_zero step.timeout e, tt)));
    ended = v.ended;
  }

  finish-IsValid :
      (cm : CompensationManager W E I) (comps : List (CompensationStep W E I)) (w : W)
      → IsValid cm
      → IsValid (finish clock cm (run_pass clock cm comps w)).0
  finish-IsValid cm comps w v = record {
    timeouts = v.timeouts;
    ended = All-append HasEnded cm.records _ v.ended (run_pass-HasEnded cm comps w);
  }

  call-IsValid :
      (cm : CompensationManager W E I) (w : W) (c : ManagerCall W E I)
      → IsValid cm
      → IsValid (call clock (cm, w) c).0
  unfolding call register_simple record_execution clear new_compensation_manager compensate
      compensate_partial
  call-IsValid cm w (registers step) v = register_compensation-IsValid cm step v
  call-IsValid cm w (registers_simple name fn input) v =
      register_compensation-IsValid cm (simple_step name fn input) v
  call-IsValid cm w (records_execution name) v = record { timeouts = v.timeouts; ended = v.ended }
  call-IsValid cm w compensates v = finish-IsValid cm (reverse cm.compensations) w v
  call-IsValid cm w (compensates_partly names) v =
      finish-IsValid cm (reverse (selected names cm.compensations)) w v
  call-IsValid cm w clears v = record { timeouts = tt; ended = tt }

  keeps-IsValid :
      (cm : CompensationManager W E I) (w : W) (cs : List (ManagerCall W E I))
      → IsValid cm
      → IsValid (calls clock (cm, w) cs).0
  unfolding calls
  keeps-IsValid cm w [] v = v
  keeps-IsValid cm w (c ∷ cs) v =
      let next = call clock (cm, w) c in keeps-IsValid next.0 next.1 cs (call-IsValid cm w c v)

  -- After any calls of a new manager, one after another, each registered compensation has a timeout
  -- other than zero, and each record is of a compensation that completed without an error or failed
  -- with one.
  pub calls-IsValid :
      (w : W) (cs : List (ManagerCall W E I))
      → IsValid (calls clock (new_compensation_manager, w) cs).0
  unfolding new_compensation_manager
  calls-IsValid w cs =
      keeps-IsValid new_compensation_manager w cs (record { timeouts = tt; ended = tt })
