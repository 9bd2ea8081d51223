-- ===== src/CircuitBreaker/Races.antt =====
-- A race of `RecordSuccess` and `RecordFailure` in pkg/integration/circuitbreaker.go, which read the
-- state without a lock and act on what they have read.
use codeai.Base.{ℕ, ◌≡◌, true}
use codeai.CircuitBreaker.{
  CircuitBreaker, closed, open_state, half_open, incr32, reaches, record_success_in, record_failure,
  record_failure_in, transition_to, reset_counters,
}

-- RecordSuccess has read that the breaker is half-open, a failure opens the breaker, and then the
-- success, if it is the last that is wanted, closes the breaker, which is open.
open_to_closed :
    (cb : CircuitBreaker) (now later : ℕ)
    → cb.state ≡ half_open
    → reaches (incr32 cb.half_open_successes) cb.half_open_requests ≡ true
    → let failed = record_failure cb now in
      (failed.state ≡ open_state) × ((record_success_in half_open failed later).state ≡ closed)
unfolding record_success_in record_failure record_failure_in transition_to reset_counters
open_to_closed cb now later half enough = (rw half, rw (half, enough))
