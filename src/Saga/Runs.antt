-- ===== src/Saga/Runs.antt =====
-- How the compensations of internal/workflow/compensation/saga.go run, as a relation beside the loop.
use codeai.Base.{true, ◌-◌, ℕ, ◌≡◌, refl, List, [], ◌∷◌, ◌++◌, Option, none, some}
use codeai.Saga.{
  CompensationRecord, CompensationFailure, CompensationError, failures, NamedCompensation,
  error_or_nil, run_all,
}

-- Failures are given as an error if there are any.
abbrev pub Gives : {E : Type 0} → CompensationError E → Option (CompensationError E) → Type 0
Gives [] given = given ≡ none
Gives (f ∷ fs) given = given ≡ some (f ∷ fs)

pub error_or_nil-Gives : {E : Type 0} (fs : CompensationError E) → Gives fs (error_or_nil fs)
error_or_nil-Gives [] = refl
error_or_nil-Gives (f ∷ fs) = refl

module _ {W E : Type 0} (clock : W → ℕ) where
  abbrev pub ran_record : NamedCompensation W E → W → W → Option E → CompensationRecord E
  ran_record comp w w' err = record {
    name = comp.name;
    executed = true;
    executed_at = clock w';
    error = err;
    duration = clock w' - clock w;
  }

  abbrev pub failure_of : NamedCompensation W E → E → CompensationFailure E
  failure_of comp e = record { failed_name = comp.name; cause = e }

  -- The compensations run one after another, each from the world that the one before it left, also
  -- if that one failed, and there are these records and failures.
  pub data Runs
      : List (NamedCompensation W E)
        → W
        → W
        → List (CompensationRecord E)
        → CompensationError E
        → Type 0 where
    at_end : {w : W} → Runs [] w w [] []
    succeeds :
        {comp : NamedCompensation W E} {comps : List (NamedCompensation W E)} {w w' v : W}
        {rs : List (CompensationRecord E)} {fs : CompensationError E}
        → comp.fn w ≡ (w', none)
        → Runs comps w' v rs fs
        → Runs (comp ∷ comps) w v (ran_record comp w w' none ∷ rs) fs
    fails :
        {comp : NamedCompensation W E} {comps : List (NamedCompensation W E)} {w w' v : W} {e : E}
        {rs : List (CompensationRecord E)} {fs : CompensationError E}
        → comp.fn w ≡ (w', some e)
        → Runs comps w' v rs fs
        → Runs (comp ∷ comps) w v (ran_record comp w w' (some e) ∷ rs) (failure_of comp e ∷ fs)

  pub run_all-Runs :
      (comps : List (NamedCompensation W E)) (w : W)
      → let ran = run_all clock comps w in Runs comps w ran.world ran.ran_records ran.errors
  unfolding run_all
  run_all-Runs [] w = at_end
  run_all-Runs (comp ∷ comps) w =
      go (comp.fn w).0 (comp.fn w).1 refl (run_all-Runs comps (comp.fn w).0)
    where
      go :
          (w' : W) (err : Option E)
          → comp.fn w ≡ (w', err)
          → (let rest = run_all clock comps w' in
              Runs comps w' rest.world rest.ran_records rest.errors)
          → let rest = run_all clock comps w' in
            Runs
              (comp ∷ comps)
              w
              rest.world
              (ran_record comp w w' err ∷ rest.ran_records)
              (failures comp.name err ++ rest.errors)
      go w' none h rest = succeeds h rest
      go w' (some e) h rest = fails h rest
