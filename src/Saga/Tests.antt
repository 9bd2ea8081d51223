-- ===== src/Saga/Tests.antt =====
-- Sagas of internal/workflow/compensation/saga.go on an account: a world is its balance and a clock.
use codeai.Base.{
  ℕ, ◌+◌, ◌-◌, suc, ◌≡◌, refl, sym, ap, ◌⊎◌, String, List, [], ◌∷◌, none, some, arith,
}
use codeai.Saga.{
  Func, SagaManager, SagaStep, new_saga_manager, add_compensation, run_all, compensate,
  execute_saga, execute_steps,
}
use codeai.Saga.Stops.{IsThrough, HasStopped, execute_saga-Stops}
use codeai.Saga.Rollback.{Undoes, IsUndone, execute_saga-IsUndone}

abbrev Account : Type 0
Account = ℕ × ℕ

abbrev clock : Account → ℕ
clock a = a.1

-- Equal balances.
abbrev Same : Account → Account → Type 0
Same a b = a.0 ≡ b.0

abbrev deposit : ℕ → Func Account String
deposit n (balance, time) = ((balance + n, suc time), none)

abbrev withdraw : ℕ → Func Account String
withdraw n (balance, time) = ((balance - n, suc time), none)

abbrev refuse : Func Account String
refuse (balance, time) = ((balance, suc time), some "refused")

abbrev steps : List (SagaStep Account String)
steps =
    record { name = "first"; action = deposit 5; compensation = some (withdraw 5) }
    ∷ record { name = "second"; action = deposit 7; compensation = some (withdraw 7) }
    ∷ record { name = "third"; action = refuse; compensation = some (withdraw 0) }
    ∷ []

stops_at_third : (execute_saga clock steps (1, 0)).0 ≡ (1, 5)
unfolding execute_saga execute_steps new_saga_manager compensate run_all add_compensation
stops_at_third = refl

two_compensations : SagaManager Account String
two_compensations =
    add_compensation (add_compensation new_saga_manager "first" (withdraw 5)) "second" refuse

execute_saga-Stops_example :
    IsThrough clock steps (1, 0) (execute_saga clock steps (1, 0))
    ⊎ HasStopped clock steps (1, 0) (execute_saga clock steps (1, 0))
execute_saga-Stops_example = execute_saga-Stops clock steps (1, 0)

deposit-Undoes :
    (name : String) (n : ℕ)
    → Undoes clock Same
        (record { name = name; action = deposit n; compensation = some (withdraw n) })
deposit-Undoes name n = record {
  undo = withdraw n;
  has_undo = refl;
  takes_back = λ w w' v h like.
      let sum : w.0 + n ≡ w'.0 = ap (λ r. r.0.0) h in (omega (arith, sum, like), refl);
  atomic = λ w w' e h. cc (ap (λ r. r.1) h);
}

refuse-Undoes :
    (name : String)
    → Undoes clock Same (record { name = name; action = refuse; compensation = some (withdraw 0) })
refuse-Undoes name = record {
  undo = withdraw 0;
  has_undo = refl;
  takes_back = λ w w' v h like. cc (ap (λ r. r.1) h);
  atomic = λ w w' e h. sym (ap (λ r. r.0.0) h);
}

execute_saga-IsUndone_example : IsUndone clock Same (1, 0) (execute_saga clock steps (1, 0))
execute_saga-IsUndone_example =
    execute_saga-IsUndone clock Same steps (1, 0)
      (deposit-Undoes "first" 5, (deposit-Undoes "second" 7, (refuse-Undoes "third", tt)))
