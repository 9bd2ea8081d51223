-- ===== src/CircuitBreaker/Tests.antt =====
-- The circuit breaker of pkg/integration/circuitbreaker.go at concrete inputs.
use codeai.Base.{ℕ, ◌≡◌, refl, ◌↔◌, List, [], ◌∷◌, none, some, arith, map}
use codeai.CircuitBreaker.{
  closed, open_state, half_open, Config, CircuitBreaker, default_config, new_circuit_breaker, allow,
  record_success, record_failure, metrics_open, allows, succeeds, fails, step, run, Call,
}
use codeai.CircuitBreaker.Invariant.{IsBounded, IsValid, new_circuit_breaker-IsValid, run-IsValid}
use codeai.CircuitBreaker.Refinement.{phase, run_phases, run-run_phases}
use codeai.CircuitBreaker.Trip.{fails_trip, recovery}

abbrev small : Config
small = record { failure_threshold = 2; timeout = 10; half_open_requests = 2 }

abbrev fresh : CircuitBreaker
fresh = record {
  name = "mail";
  config = small;
  state = closed;
  failures = 0;
  half_open_successes = 0;
  last_failure = 0;
  last_state_change = 5;
  changes = [];
  gauge = none;
}

small-IsBounded : IsBounded small
small-IsBounded = record { threshold_fits = omega arith; requests_fit = omega arith }

fresh_lem : new_circuit_breaker "mail" small 5 ≡ fresh
unfolding new_circuit_breaker
fresh_lem = refl

fresh-IsValid : IsValid fresh
unfolding new_circuit_breaker
fresh-IsValid = new_circuit_breaker-IsValid "mail" small 5 small-IsBounded

abbrev history : List Call
history = fails 20 ∷ fails 21 ∷ allows 25 ∷ allows 31 ∷ succeeds 32 ∷ succeeds 33 ∷ []

history_recovers :
    ((run fresh history).state ≡ closed)
    × ((run fresh (fails 20 ∷ fails 21 ∷ [])).state ≡ open_state)
unfolding run step allow record_success record_failure
history_recovers = (refl, refl)

default_config_kept : (new_circuit_breaker "x" default_config 0).config ≡ default_config
unfolding new_circuit_breaker default_config
default_config_kept = refl

abbrev tripped : CircuitBreaker
tripped = record fresh {
  state = open_state;
  failures = 2;
  last_failure = 21;
  last_state_change = 21;
  changes = (closed, open_state) ∷ [];
  gauge = some metrics_open;
}

tripped-IsValid : IsValid tripped
unfolding run step record_failure
tripped-IsValid = run-IsValid fresh (fails 20 ∷ fails 21 ∷ []) fresh-IsValid

run-IsValid_example : IsValid (run fresh history)
run-IsValid_example = run-IsValid fresh history fresh-IsValid

run-run_phases_example : phase (run fresh history) ≡ run_phases small (phase fresh) history
run-run_phases_example = run-run_phases fresh history fresh-IsValid

fails_trip_example : ((run fresh (map fails (20 ∷ 21 ∷ []))).state ≡ open_state) ↔ (◌≡◌ {A = ℕ} 2 2)
fails_trip_example = fails_trip fresh 20 (21 ∷ []) fresh-IsValid refl (omega arith)

recovery_example :
    let after = run tripped (allows 31 ∷ map succeeds (32 ∷ 33 ∷ [])) in
    (after.state ≡ closed) × (after.failures ≡ 0)
recovery_example = recovery tripped 31 (32 ∷ 33 ∷ []) tripped-IsValid refl (omega arith) refl

abbrev probing_breaker : CircuitBreaker
probing_breaker = record fresh { state = half_open }
