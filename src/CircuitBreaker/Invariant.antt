-- ===== src/CircuitBreaker/Invariant.antt =====
-- What holds of a breaker between two calls (pkg/integration/circuitbreaker.go), and the edges of
-- its state diagram.
use codeai.Base.{ℕ, ◌<◌, ◌≡◌, refl, ◌⊎◌, inl, String, List, [], ◌∷◌, none, some, arith, All}
use codeai.CircuitBreaker.{
  CircuitState, closed, open_state, half_open, to_metrics_state, Config, CircuitBreaker,
  new_circuit_breaker, allow, record_success, record_failure, reset, Call, allows, succeeds, fails,
  resets, step, run,
}

-- The ways in which `transitionTo` may change the state.
pub data Edge : CircuitState × CircuitState → Type 0 where
  trip : Edge (closed, open_state)
  probe : Edge (open_state, half_open)
  retrip : Edge (half_open, open_state)
  recover : Edge (half_open, closed)

-- Counts below 2 ^ 31, as the int32 counters can hold.
pub record IsBounded (c : Config) : Type 0 where
  pub threshold_fits : c.failure_threshold < 2_147_483_648
  pub requests_fit : c.half_open_requests < 2_147_483_648

pub record IsValid (cb : CircuitBreaker) : Type 0 where
  pub bounded : IsBounded cb.config
  pub threshold_positive : 0 < cb.failure_threshold
  pub timeout_positive : 0 < cb.timeout
  pub requests_positive : 0 < cb.half_open_requests
  pub below_threshold : cb.state ≡ closed → cb.failures < cb.failure_threshold
  pub below_requests : cb.state ≡ half_open → cb.half_open_successes < cb.half_open_requests
  pub gauge_agrees :
      ((cb.gauge ≡ none) × (cb.state ≡ closed)) ⊎ (cb.gauge ≡ some (to_metrics_state cb.state))
  pub along_edges : All Edge cb.changes

pub new_circuit_breaker-IsValid :
    (name : String) (c : Config) (now : ℕ) → IsBounded c → IsValid (new_circuit_breaker name c now)
unfolding new_circuit_breaker
new_circuit_breaker-IsValid name c now b = record {
  bounded = ground arith;
  threshold_positive = ground arith;
  timeout_positive = ground arith;
  requests_positive = ground arith;
  below_threshold = λ _. ground arith;
  below_requests = λ h. ground arith;
  gauge_agrees = inl (refl, refl);
  along_edges = tt;
}

allow-IsValid : (cb : CircuitBreaker) (now : ℕ) → IsValid cb → IsValid (allow cb now).0
unfolding allow to_metrics_state
allow-IsValid cb now v = ground (arith, probe)

record_success-IsValid :
    (cb : CircuitBreaker) (now : ℕ) → IsValid cb → IsValid (record_success cb now)
unfolding record_success to_metrics_state
record_success-IsValid cb now v = ground (arith, recover)

record_failure-IsValid :
    (cb : CircuitBreaker) (now : ℕ) → IsValid cb → IsValid (record_failure cb now)
unfolding record_failure to_metrics_state
record_failure-IsValid cb now v = ground (arith, trip, retrip)

reset-IsValid : (cb : CircuitBreaker) (now : ℕ) → IsValid cb → IsValid (reset cb now)
unfolding reset to_metrics_state
reset-IsValid cb now v = ground arith

pub step-IsValid : (cb : CircuitBreaker) (c : Call) → IsValid cb → IsValid (step cb c)
unfolding step
step-IsValid cb (allows now) v = allow-IsValid cb now v
step-IsValid cb (succeeds now) v = record_success-IsValid cb now v
step-IsValid cb (fails now) v = record_failure-IsValid cb now v
step-IsValid cb (resets now) v = reset-IsValid cb now v

-- Any calls, one after another, keep a breaker valid: its settings are positive, and its counts fit
-- an int32; a closed breaker has fewer failures than the threshold, a half-open one fewer successes
-- than it needs; the metrics have its state, or nothing yet while it is closed; and each reported
-- change of state is an edge of the state diagram.
pub run-IsValid : (cb : CircuitBreaker) (cs : List Call) → IsValid cb → IsValid (run cb cs)
unfolding run
run-IsValid cb [] v = v
run-IsValid cb (c ∷ cs) v = run-IsValid (step cb c) cs (step-IsValid cb c v)
