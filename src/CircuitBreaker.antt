-- ===== src/CircuitBreaker.antt =====
-- pkg/integration/circuitbreaker.go: the circuit breaker and its state machine.
-- A time is a count of nanoseconds and an argument of the call that reads the clock. The atomic
-- int32 counters are bit patterns below 2 ^ 32. A configured count or duration that is negative
-- meets the same test `<= 0` as 0 does, and is written 0. A call is one step here, as it is where no
-- other call overlaps with it: only `transitionTo` and `Reset` take the lock.
pub mod Invariant
mod Races
pub mod Refinement
pub mod Trip
pub mod Registry
mod Tests
use codeai.Base.{
  ℕ, suc, ◌+◌, ◌*◌, ◌%◌, Bool, ◌&&◌, String, List, [], ◌∷◌, Option, none, some, ltb, leb, ◌==◌,
  if◌then◌else◌,
}

pub data CircuitState : Type 0 where
  closed open_state half_open : CircuitState

unfoldable pub to_string : CircuitState → String
to_string closed = "closed"
to_string open_state = "open"
to_string half_open = "half-open"

pub data MetricsState : Type 0 where
  metrics_closed metrics_open metrics_half_open : MetricsState

unfoldable pub to_metrics_state : CircuitState → MetricsState
to_metrics_state closed = metrics_closed
to_metrics_state open_state = metrics_open
to_metrics_state half_open = metrics_half_open

pub data ErrCircuitOpen : Type 0 where
  err_circuit_open : ErrCircuitOpen

pub record Config : Type 0 where
  pub failure_threshold : ℕ
  pub timeout : ℕ
  pub half_open_requests : ℕ

abbrev pub second : ℕ
second = 1_000_000_000

unfoldable pub default_config : Config
default_config = record { failure_threshold = 5; timeout = 60 * second; half_open_requests = 3 }

-- `changes` is what `OnStateChange` was called with, latest first, and `gauge` the last value that
-- the metrics registry was given, where one is installed.
pub record CircuitBreaker : Type 0 where
  pub name : String
  pub config : Config
  pub open config use *
  pub state : CircuitState
  pub failures : ℕ
  pub half_open_successes : ℕ
  pub last_failure : ℕ
  pub last_state_change : ℕ
  pub changes : List (CircuitState × CircuitState)
  pub gauge : Option MetricsState

-- `atomic.Int32.Add(1)`.
abbrev pub incr32 : ℕ → ℕ
incr32 n = (n + 1) % 4_294_967_296

-- `int(n) >= bound` for the int32 with the bit pattern `n` and a positive bound.
abbrev pub reaches : ℕ → ℕ → Bool
reaches n bound = ltb n 2_147_483_648 && leb bound n

unfoldable pub new_config : Config → Config
new_config c = record {
  failure_threshold = if c.failure_threshold == 0 then 5 else c.failure_threshold;
  timeout = if c.timeout == 0 then 60 * second else c.timeout;
  half_open_requests = if c.half_open_requests == 0 then 3 else c.half_open_requests;
}

unfoldable pub new_circuit_breaker : String → Config → ℕ → CircuitBreaker
unfolding new_config
new_circuit_breaker name c now = record {
  name = name;
  config = new_config c;
  state = closed;
  failures = 0;
  half_open_successes = 0;
  last_failure = 0;
  last_state_change = now;
  changes = [];
  gauge = none;
}

abbrev pub same_state : CircuitState → CircuitState → Bool
same_state closed closed = Bool.true
same_state open_state open_state = Bool.true
same_state half_open half_open = Bool.true
same_state _ _ = Bool.false

-- The second `switch` of `transitionTo`.
unfoldable pub reset_counters : CircuitState → CircuitBreaker → CircuitBreaker
reset_counters closed cb = record cb { failures = 0; half_open_successes = 0 }
reset_counters half_open cb = record cb { half_open_successes = 0 }
reset_counters open_state cb = cb

unfoldable pub transition_to : CircuitBreaker → CircuitState → ℕ → CircuitBreaker
unfolding reset_counters to_metrics_state
transition_to cb new_state now =
    let moved = record cb {
      state = new_state;
      last_state_change = now;
      changes = (cb.state, new_state) ∷ cb.changes;
      gauge = some (to_metrics_state new_state);
    } in
    if same_state cb.state new_state then cb else reset_counters new_state moved

-- `time.Since(lastFailure) >= Timeout`, for a positive timeout.
abbrev pub timeout_elapsed : CircuitBreaker → ℕ → Bool
timeout_elapsed cb now = leb (cb.last_failure + cb.timeout) now

allow_in : CircuitState → CircuitBreaker → ℕ → CircuitBreaker × Option ErrCircuitOpen
allow_in closed cb now = (cb, none)
allow_in open_state cb now =
    if timeout_elapsed cb now
    then (transition_to cb half_open now, none)
    else (cb, some err_circuit_open)
allow_in half_open cb now = (cb, none)

unfoldable pub allow : CircuitBreaker → ℕ → CircuitBreaker × Option ErrCircuitOpen
unfolding allow_in transition_to
allow cb now = allow_in cb.state cb now

record_success_in : CircuitState → CircuitBreaker → ℕ → CircuitBreaker
record_success_in closed cb now = record cb { failures = 0 }
record_success_in open_state cb now = cb
record_success_in half_open cb now =
    let successes = incr32 cb.half_open_successes in
    let counted = record cb { half_open_successes = successes } in
    if reaches successes cb.half_open_requests then transition_to counted closed now else counted

unfoldable pub record_success : CircuitBreaker → ℕ → CircuitBreaker
unfolding record_success_in transition_to
record_success cb now = record_success_in cb.state cb now

record_failure_in : CircuitState → CircuitBreaker → ℕ → CircuitBreaker
record_failure_in closed cb now =
    let fails = incr32 cb.failures in
    let counted = record cb { failures = fails } in
    if reaches fails cb.failure_threshold then transition_to counted open_state now else counted
record_failure_in open_state cb now = cb
record_failure_in half_open cb now = transition_to cb open_state now

unfoldable pub record_failure : CircuitBreaker → ℕ → CircuitBreaker
unfolding record_failure_in transition_to
record_failure cb now = record_failure_in cb.state (record cb { last_failure = now }) now

unfoldable pub reset : CircuitBreaker → ℕ → CircuitBreaker
reset cb now = record cb {
  state = closed;
  failures = 0;
  half_open_successes = 0;
  last_failure = 0;
  last_state_change = now;
  gauge = some metrics_closed;
}

-- `Execute` fails with the breaker's own error, or with that of the function.
pub data ExecuteError (E : Type 0) : Type 0 where
  rejected : ErrCircuitOpen → ExecuteError E
  failed : E → ExecuteError E

execute_allowed :
    {E : Type 0}
    → Option ErrCircuitOpen
    → CircuitBreaker
    → (CircuitBreaker → CircuitBreaker × Option E)
    → ℕ
    → CircuitBreaker × Option (ExecuteError E)
execute_allowed (some e) cb fn later = (cb, some (rejected e))
execute_allowed none cb fn later =
    let (cb', result) = fn cb in
    elim result [
      | some e ↦ (record_failure cb' later, some (failed e))
      | none ↦ (record_success cb' later, none)
    ]

-- `fn` takes the breaker, since other callers may use it while the function runs; `now` is when
-- `Allow` reads the clock, and `later` when the outcome is recorded.
unfoldable pub execute :
    {E : Type 0}
    → CircuitBreaker
    → ℕ
    → (CircuitBreaker → CircuitBreaker × Option E)
    → ℕ
    → CircuitBreaker × Option (ExecuteError E)
unfolding execute_allowed
execute cb now fn later = let (cb', refusal) = allow cb now in execute_allowed refusal cb' fn later

pub record CircuitBreakerStats : Type 0 where
  pub stat_name : String
  pub stat_state : CircuitState
  pub stat_failures : ℕ
  pub stat_half_open_successes : ℕ
  pub stat_last_failure : ℕ
  pub stat_last_state_change : ℕ

unfoldable pub stats : CircuitBreaker → CircuitBreakerStats
stats cb = record {
  stat_name = cb.name;
  stat_state = cb.state;
  stat_failures = cb.failures;
  stat_half_open_successes = cb.half_open_successes;
  stat_last_failure = cb.last_failure;
  stat_last_state_change = cb.last_state_change;
}

-- The calls that other components make, each of which ends before the next begins, with the clock's
-- reading.
pub data Call : Type 0 where
  allows succeeds fails resets : ℕ → Call

unfoldable pub step : CircuitBreaker → Call → CircuitBreaker
step cb (allows now) = (allow cb now).0
step cb (succeeds now) = record_success cb now
step cb (fails now) = record_failure cb now
step cb (resets now) = reset cb now

unfoldable pub run : CircuitBreaker → List Call → CircuitBreaker
run cb [] = cb
run cb (c ∷ cs) = run (step cb c) cs
