-- ===== src/CircuitBreaker/Refinement.antt =====
-- The breaker of pkg/integration/circuitbreaker.go against an abstract one, which holds only the
-- number that matters in each state and knows no machine words.
use codeai.Base.{
  ℕ, ◌+◌, ◌<◌, ◌≡◌, refl, ◌∙◌, ap₂, ◌↔◌, List, [], ◌∷◌, some, Option, arith, leb, ltb,
  if◌then◌else◌,
}
use codeai.CircuitBreaker.{
  CircuitState, closed, open_state, half_open, Config, CircuitBreaker, err_circuit_open, allow,
  record_success, record_failure, reset, Call, allows, succeeds, fails, resets, step, run, rejected,
  execute,
}
use codeai.CircuitBreaker.Invariant.{IsValid, step-IsValid}

-- Closed after some failures in a row, open since some time, or half open after some successes.
pub data Phase : Type 0 where
  counting blocked probing : ℕ → Phase

phase_in : CircuitState → CircuitBreaker → Phase
phase_in closed cb = counting cb.failures
phase_in open_state cb = blocked cb.last_failure
phase_in half_open cb = probing cb.half_open_successes

pub phase : CircuitBreaker → Phase
unfolding phase_in
phase cb = phase_in cb.state cb

pub next : Config → Phase → Call → Phase
next c (counting n) (allows now) = counting n
next c (counting n) (succeeds now) = counting 0
next c (counting n) (fails now) =
    if ltb (n + 1) c.failure_threshold then counting (n + 1) else blocked now
next c (blocked since) (allows now) =
    if leb (since + c.timeout) now then probing 0 else blocked since
next c (blocked since) (succeeds now) = blocked since
next c (blocked since) (fails now) = blocked now
next c (probing n) (allows now) = probing n
next c (probing n) (succeeds now) =
    if ltb (n + 1) c.half_open_requests then probing (n + 1) else counting 0
next c (probing n) (fails now) = blocked now
next c _ (resets now) = counting 0

pub run_phases : Config → Phase → List Call → Phase
run_phases c p [] = p
run_phases c p (k ∷ ks) = run_phases c (next c p k) ks

allow-next :
    (cb : CircuitBreaker) (now : ℕ)
    → IsValid cb
    → phase (allow cb now).0 ≡ next cb.config (phase cb) (allows now)
unfolding phase next allow
allow-next cb now v = ground arith

record_success-next :
    (cb : CircuitBreaker) (now : ℕ)
    → IsValid cb
    → phase (record_success cb now) ≡ next cb.config (phase cb) (succeeds now)
unfolding phase next record_success
record_success-next cb now v = ground arith

record_failure-next :
    (cb : CircuitBreaker) (now : ℕ)
    → IsValid cb
    → phase (record_failure cb now) ≡ next cb.config (phase cb) (fails now)
unfolding phase next record_failure
record_failure-next cb now v = ground arith

reset-next :
    (cb : CircuitBreaker) (now : ℕ) → phase (reset cb now) ≡ next cb.config (phase cb) (resets now)
unfolding phase next reset
reset-next cb now = ground arith

pub step-next :
    (cb : CircuitBreaker) (c : Call) → IsValid cb → phase (step cb c) ≡ next cb.config (phase cb) c
unfolding step
step-next cb (allows now) v = allow-next cb now v
step-next cb (succeeds now) v = record_success-next cb now v
step-next cb (fails now) v = record_failure-next cb now v
step-next cb (resets now) v = reset-next cb now

pub config-step : (cb : CircuitBreaker) (c : Call) → (step cb c).config ≡ cb.config
unfolding step allow record_success record_failure reset
config-step cb (allows now) = ground arith
config-step cb (succeeds now) = ground arith
config-step cb (fails now) = ground arith
config-step cb (resets now) = refl

-- From a valid breaker, any sequence of calls of Allow, RecordSuccess, RecordFailure and Reset, one
-- after another, leads to the phase that an abstract breaker comes to by the same calls, which is
-- closed with a number of failures, open since a time, or half-open with a number of successes.
pub run-run_phases :
    (cb : CircuitBreaker) (cs : List Call)
    → IsValid cb
    → phase (run cb cs) ≡ run_phases cb.config (phase cb) cs
unfolding run run_phases
run-run_phases cb [] v = refl
run-run_phases cb (c ∷ cs) v =
    run-run_phases (step cb c) cs (step-IsValid cb c v)
    ∙ ap₂ (λ d p. run_phases d p cs) (config-step cb c) (step-next cb c v)

-- Execute gives the breaker's own error, with the breaker as it was, exactly while the breaker is
-- open and its timeout has not passed, whatever the function does.
pub execute-rejected_iff :
    {E : Type 0} (cb : CircuitBreaker) (now : ℕ) (fn : CircuitBreaker → CircuitBreaker × Option E)
    (later : ℕ)
    → (execute cb now fn later ≡ (cb, some (rejected err_circuit_open)))
      ↔ ((cb.state ≡ open_state) × (now < cb.last_failure + cb.timeout))
unfolding execute allow
execute-rejected_iff cb now fn later = (λ e. ground arith, λ h. ground arith)
