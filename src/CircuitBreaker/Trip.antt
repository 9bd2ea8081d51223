-- ===== src/CircuitBreaker/Trip.antt =====
-- When the breaker of pkg/integration/circuitbreaker.go opens, and how it comes back.
use codeai.Base.{ℕ, suc, ◌+◌, ◌<◌, ◌≤◌, ◌≡◌, refl, ◌↔◌, List, [], ◌∷◌, none, arith, map, length}
use codeai.CircuitBreaker.{
  closed, open_state, half_open, CircuitBreaker, allow, record_success, record_failure, allows,
  succeeds, fails, step, run,
}
use codeai.CircuitBreaker.Invariant.{IsValid, step-IsValid}

step-fails :
    (cb : CircuitBreaker) (now : ℕ)
    → IsValid cb
    → cb.state ≡ closed
    → suc cb.failures < cb.failure_threshold
    → ((step cb (fails now)).state ≡ closed)
      × ((step cb (fails now)).failures ≡ suc cb.failures)
      × ((step cb (fails now)).failure_threshold ≡ cb.failure_threshold)
unfolding step record_failure
step-fails cb now v s h = ground arith

step-fails_last :
    (cb : CircuitBreaker) (now : ℕ)
    → IsValid cb
    → cb.state ≡ closed
    → suc cb.failures ≡ cb.failure_threshold
    → ((step cb (fails now)).state ≡ open_state) × ((step cb (fails now)).last_failure ≡ now)
unfolding step record_failure
step-fails_last cb now v s h = ground arith

-- Of a valid closed breaker, failures in a row, no more than are missing to the threshold, open it
-- exactly if they reach the threshold.
pub fails_trip :
    (cb : CircuitBreaker) (t : ℕ) (ts : List ℕ)
    → IsValid cb
    → cb.state ≡ closed
    → length (t ∷ ts) + cb.failures ≤ cb.failure_threshold
    → ((run cb (map fails (t ∷ ts))).state ≡ open_state)
      ↔ (length (t ∷ ts) + cb.failures ≡ cb.failure_threshold)
unfolding run
fails_trip cb t [] v s h =
    ground (arith, step-fails cb t v s, step-fails_last cb t v s, v.below_threshold s)
fails_trip cb t (t' ∷ ts) v s h =
    let (still, more, same) = step-fails cb t v s (omega arith) in
    let (to, from) =
      fails_trip (step cb (fails t)) t' ts (step-IsValid cb (fails t) v) still (omega arith) in
    (λ e. omega (arith, to e), λ e. from (omega arith))

step-succeeds :
    (cb : CircuitBreaker) (now : ℕ)
    → IsValid cb
    → cb.state ≡ half_open
    → suc cb.half_open_successes < cb.half_open_requests
    → ((step cb (succeeds now)).state ≡ half_open)
      × ((step cb (succeeds now)).half_open_successes ≡ suc cb.half_open_successes)
      × ((step cb (succeeds now)).half_open_requests ≡ cb.half_open_requests)
unfolding step record_success
step-succeeds cb now v s h = ground arith

step-succeeds_last :
    (cb : CircuitBreaker) (now : ℕ)
    → IsValid cb
    → cb.state ≡ half_open
    → suc cb.half_open_successes ≡ cb.half_open_requests
    → ((step cb (succeeds now)).state ≡ closed) × ((step cb (succeeds now)).failures ≡ 0)
unfolding step record_success
step-succeeds_last cb now v s h = ground arith

succeeds_recover :
    (cb : CircuitBreaker) (ts : List ℕ)
    → IsValid cb
    → cb.state ≡ half_open
    → length ts + cb.half_open_successes ≡ cb.half_open_requests
    → ((run cb (map succeeds ts)).state ≡ closed) × ((run cb (map succeeds ts)).failures ≡ 0)
unfolding run
succeeds_recover cb [] v s h = absurd (omega (arith, v.below_requests s))
succeeds_recover cb (t ∷ []) v s h = step-succeeds_last cb t v s (omega arith)
succeeds_recover cb (t ∷ t' ∷ ts) v s h =
    let (still, more, same) = step-succeeds cb t v s (omega arith) in
    succeeds_recover (step cb (succeeds t)) (t' ∷ ts) (step-IsValid cb (succeeds t) v) still
      (omega arith)

step-allows_late :
    (cb : CircuitBreaker) (now : ℕ)
    → cb.state ≡ open_state
    → cb.last_failure + cb.timeout ≤ now
    → ((step cb (allows now)).state ≡ half_open)
      × ((step cb (allows now)).half_open_successes ≡ 0)
      × ((step cb (allows now)).half_open_requests ≡ cb.half_open_requests)
unfolding step allow
step-allows_late cb now s h = ground arith

-- A valid open breaker whose timeout has passed is closed, with no failures, after one Allow and as
-- many successes as the configuration asks of a half-open breaker.
pub recovery :
    (cb : CircuitBreaker) (now : ℕ) (ts : List ℕ)
    → IsValid cb
    → cb.state ≡ open_state
    → cb.last_failure + cb.timeout ≤ now
    → length ts ≡ cb.half_open_requests
    → let after = run cb (allows now ∷ map succeeds ts) in
      (after.state ≡ closed) × (after.failures ≡ 0)
unfolding run
recovery cb now ts v s late n =
    let (half, zero_successes, same) = step-allows_late cb now s late in
    succeeds_recover (step cb (allows now)) ts (step-IsValid cb (allows now) v) half (omega arith)

step-allows_half_open :
    (cb : CircuitBreaker) (now : ℕ) → cb.state ≡ half_open → step cb (allows now) ≡ cb
unfolding step allow
step-allows_half_open cb now s = ground arith

-- A half-open breaker lets every one of any number of calls through, and is not changed by that.
pub half_open-admits :
    (cb : CircuitBreaker) (ts : List ℕ) (now : ℕ)
    → cb.state ≡ half_open
    → (run cb (map allows ts) ≡ cb) × ((allow (run cb (map allows ts)) now).1 ≡ none)
unfolding run allow
half_open-admits cb [] now s = (refl, ground arith)
half_open-admits cb (t ∷ ts) now s =
    rw (step-allows_half_open cb t s, run) (half_open-admits cb ts now s)
