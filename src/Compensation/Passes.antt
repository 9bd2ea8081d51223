-- ===== src/Compensation/Passes.antt =====
-- The passes of `Compensate` and `CompensatePartial` in internal/workflow/compensation/manager.go.
use codeai.Base.{
  ◌-◌, ◌≢◌, true, any, String, str_eq, eq_iff, Option-cases, ℕ, ◌≡◌, refl, ◌⊎◌, inl, inr, false,
  Bool-cases, List, [], ◌∷◌, ◌++◌, Option, none, some, reverse, All,
}
use codeai.Compensation.{
  completed, failed, CompensationStep, CompensationExecutionRecord, CompensationManager,
  CompensationFailure, is_executed, execute_compensation, status_of, counted_failures, error_or_nil,
  run_pass, compensate, RetryPolicy, CompensationStatus, default_retry_policy, Pass,
}
use codeai.Query.Ast.{pos}
use codeai.Query.Consumed.{if_elim}

abbrev pub Within : String → List String → Type 0
Within x [] = ⊥
Within x (y ∷ ys) = (y ≡ x) ⊎ Within x ys

any_name-Within :
    (name : String) (names : List String)
    → any (λ n. str_eq n name) names ≡ true
    → Within name names
any_name-Within name [] h = cc h
any_name-Within name (n ∷ ns) h = elim (Bool-cases (str_eq n name)) [
  | inl e ↦ inl ((eq_iff n name).0 e)
  | inr e ↦ inr (any_name-Within name ns (rw e at h))
]

any_name-absent :
    (name : String) (names : List String)
    → any (λ n. str_eq n name) names ≡ false
    → All (λ n. n ≢ name) names
any_name-absent name [] h = tt
any_name-absent name (n ∷ ns) h = elim (Bool-cases (str_eq n name)) [
  | inl e ↦ cc (rw e at h)
  | inr e ↦ ((λ same. cc ((eq_iff n name).1 same, e)), any_name-absent name ns (rw e at h))
]

-- The failures are given as an error if there are any.
abbrev pub Gives :
    {E : Type 0} → List (CompensationFailure E) → Option (List (CompensationFailure E)) → Type 0
Gives [] err = err ≡ none
Gives (f ∷ fs) err = err ≡ some (f ∷ fs)

error_or_nil-Gives : {E : Type 0} (fs : List (CompensationFailure E)) → Gives fs (error_or_nil fs)
error_or_nil-Gives [] = refl
error_or_nil-Gives (f ∷ fs) = refl

module _ {W E I : Type 0} (clock : W → ℕ) where
  -- The retry policy under which a compensation runs.
  abbrev pub HasPolicy : CompensationStep W E I → RetryPolicy → Type 0
  HasPolicy comp policy =
      (comp.retry_policy ≡ some policy)
      ⊎ ((comp.retry_policy ≡ none)
          × (policy ≡ record {
            initial_interval = pos 1000000000;
            backoff_coefficient = 2;
            maximum_interval = pos 30000000000;
            maximum_attempts = pos 3;
          }))

  -- A compensation takes a world to another, under its own timeout and its policy.
  abbrev pub RunsTo : CompensationStep W E I → W → W → Option E → Type 0
  RunsTo comp w w' err =
      (policy : RetryPolicy) × HasPolicy comp policy
      × (comp.compensate_fn
            (record { start_to_close_timeout = comp.timeout; retry_policy = policy }) comp.input w
          ≡ (w', err))

  abbrev pub ended_record :
      CompensationStep W E I → CompensationStatus → W → W → Option E → CompensationExecutionRecord E
  ended_record comp status w w' err = record {
    activity_name = comp.activity_name;
    status = status;
    executed_at = clock w';
    duration = clock w' - clock w;
    error = err;
  }

  abbrev pub failure_of : CompensationStep W E I → E → CompensationFailure E
  failure_of comp e = record { failed_name = comp.activity_name; cause = e }

  -- The compensations run one after another from a world to another, those of activities that are
  -- not among the names are left out, and there are these records and failures.
  pub data Runs (names : List String)
      : List (CompensationStep W E I)
        → W
        → W
        → List (CompensationExecutionRecord E)
        → List (CompensationFailure E)
        → Type 0 where
    at_end : {w : W} → Runs names [] w w [] []
    left_out :
        {comp : CompensationStep W E I} {comps : List (CompensationStep W E I)} {w v : W}
        {rs : List (CompensationExecutionRecord E)} {fs : List (CompensationFailure E)}
        → All (λ name. name ≢ comp.activity_name) names
        → Runs names comps w v rs fs
        → Runs names (comp ∷ comps) w v rs fs
    succeeds :
        {comp : CompensationStep W E I} {comps : List (CompensationStep W E I)} {w w' v : W}
        {rs : List (CompensationExecutionRecord E)} {fs : List (CompensationFailure E)}
        → Within comp.activity_name names
        → RunsTo comp w w' none
        → Runs names comps w' v rs fs
        → Runs names (comp ∷ comps) w v (ended_record comp completed w w' none ∷ rs) fs
    fails :
        {comp : CompensationStep W E I} {comps : List (CompensationStep W E I)} {w w' v : W} {e : E}
        {rs : List (CompensationExecutionRecord E)} {fs : List (CompensationFailure E)}
        → Within comp.activity_name names
        → RunsTo comp w w' (some e)
        → comp.allow_skip ≡ false
        → Runs names comps w' v rs fs
        → Runs names
            (comp ∷ comps)
            w
            v
            (ended_record comp failed w w' (some e) ∷ rs)
            (failure_of comp e ∷ fs)
    fails_uncounted :
        {comp : CompensationStep W E I} {comps : List (CompensationStep W E I)} {w w' v : W} {e : E}
        {rs : List (CompensationExecutionRecord E)} {fs : List (CompensationFailure E)}
        → Within comp.activity_name names
        → RunsTo comp w w' (some e)
        → comp.allow_skip ≡ true
        → Runs names comps w' v rs fs
        → Runs names (comp ∷ comps) w v (ended_record comp failed w w' (some e) ∷ rs) fs

  execute_compensation-RunsTo :
      (comp : CompensationStep W E I) (w w' : W) (err : Option E)
      → execute_compensation comp w ≡ (w', err)
      → RunsTo comp w w' err
  unfolding execute_compensation
  execute_compensation-RunsTo comp w w' err h = elim (Option-cases comp.retry_policy) [
    | inl absent ↦ (default_retry_policy, inr (absent, refl), rw absent at h)
    | inr (policy, there) ↦ (policy, inl there, rw there at h)
  ]

  run_pass-Runs :
      (cm : CompensationManager W E I) (comps : List (CompensationStep W E I)) (w : W)
      → let pass = run_pass clock cm comps w in
        Runs cm.executed comps w pass.world pass.new_records pass.errors
  unfolding run_pass is_executed status_of counted_failures
  run_pass-Runs cm [] w = at_end
  run_pass-Runs cm (comp ∷ comps) w =
      if_elim
        (λ (pass : Pass W E).
          Runs cm.executed (comp ∷ comps) w pass.world pass.new_records pass.errors)
        (is_executed cm comp.activity_name)
        (λ e.
          ran (execute_compensation comp w).0 (execute_compensation comp w).1 refl
            (any_name-Within comp.activity_name cm.executed e)
            (run_pass-Runs cm comps (execute_compensation comp w).0))
        (λ e.
          left_out (any_name-absent comp.activity_name cm.executed e) (run_pass-Runs cm comps w))
    where
      ran :
          (w' : W) (err : Option E)
          → execute_compensation comp w ≡ (w', err)
          → Within comp.activity_name cm.executed
          → (let rest = run_pass clock cm comps w' in
              Runs cm.executed comps w' rest.world rest.new_records rest.errors)
          → let rest = run_pass clock cm comps w' in
            Runs cm.executed
              (comp ∷ comps)
              w
              rest.world
              (ended_record comp (status_of err) w w' err ∷ rest.new_records)
              (counted_failures comp err ++ rest.errors)
      ran w' none h named rest = succeeds named (execute_compensation-RunsTo comp w w' none h) rest
      ran w' (some e) h named rest =
          let to = execute_compensation-RunsTo comp w w' (some e) h in
          let more = run_pass clock cm comps w' in
          if_elim
            (λ (fs : List (CompensationFailure E)).
              Runs cm.executed (comp ∷ comps) w more.world
                (ended_record comp failed w w' (some e) ∷ more.new_records) (fs ++ more.errors))
            comp.allow_skip (λ t. fails_uncounted named to t rest) (λ t. fails named to t rest)

  -- A pass over the compensations `comps` leaves a manager and a world, and gives an error or none.
  pub record IsPassed (cm : CompensationManager W E I) (comps : List (CompensationStep W E I))
      (w : W) (after : CompensationManager W E I × W × Option (List (CompensationFailure E)))
      : Type 0 where
    pub kept : (after.0.compensations ≡ cm.compensations) × (after.0.executed ≡ cm.executed)
    pub new : List (CompensationExecutionRecord E)
    pub failures : List (CompensationFailure E)
    pub appended : after.0.records ≡ cm.records ++ new
    pub runs : Runs cm.executed comps w after.1 new failures
    pub gives : Gives failures after.2

  -- Compensate runs the registered compensations whose activity was executed, and no other, the
  -- last registered first, each under its timeout and its retry policy, or the default one, from
  -- the world that the one before it leaves, also if that one fails. It appends a record of each
  -- that ran, which is completed without an error or failed with it, with its times. Its error has
  -- the failures of those that may not be skipped, in that order, and is nil if there are none. The
  -- compensations and the executed names stay as they are.
  pub compensate-IsPassed :
      (cm : CompensationManager W E I) (w : W)
      → IsPassed cm (reverse cm.compensations) w (compensate clock cm w)
  unfolding compensate
  compensate-IsPassed cm w =
      let pass = run_pass clock cm (reverse cm.compensations) w in
      record {
        kept = (refl, refl);
        new = pass.new_records;
        failures = pass.errors;
        appended = refl;
        runs = run_pass-Runs cm (reverse cm.compensations) w;
        gives = error_or_nil-Gives pass.errors;
      }
