-- ===== src/Resilience/Breaker.antt =====
-- packages/resilience/src/circuit-breaker.ts. A method returns the new breaker with its result;
-- `Date.now()` is an argument, in milliseconds.
pub mod Invariant
pub mod Probes
mod Tests
use ryvan_os.Base.{
  ℕ, ◌+◌, String, Bool, true, false, ◌&&◌, ◌||◌, Option, none, some, List, [], ◌∷◌, leb, nat_eq,
  if◌then◌else◌, or_default,
}

pub data CircuitState : Type 0 where
  closed open_circuit half_open : CircuitState

pub record BreakerOptions : Type 0 where
  pub failure_threshold : Option ℕ
  pub reset_timeout_ms : Option ℕ
  pub success_threshold : Option ℕ

pub record CircuitBreaker : Type 0 where
  pub key : String
  pub state : CircuitState
  pub consecutive_failures : ℕ
  pub consecutive_successes : ℕ
  pub total_calls : ℕ
  pub total_failures : ℕ
  pub last_failure_at : Option ℕ
  pub last_error : Option String
  pub opened_at : Option ℕ
  pub failure_threshold : ℕ
  pub reset_timeout_ms : ℕ
  pub success_threshold : ℕ

pub record CircuitSnapshot : Type 0 where
  pub key : String
  pub state : CircuitState
  pub consecutive_failures : ℕ
  pub consecutive_successes : ℕ
  pub total_calls : ℕ
  pub total_failures : ℕ
  pub last_failure_at : Option ℕ
  pub last_error : Option String
  pub retry_at : Option ℕ

abbrev pub default_failure_threshold : ℕ
default_failure_threshold = 5

abbrev pub default_reset_timeout_ms : ℕ
default_reset_timeout_ms = 30_000

abbrev pub default_success_threshold : ℕ
default_success_threshold = 1

unfoldable pub create : String → BreakerOptions → CircuitBreaker
create key options = record {
  key = key;
  state = closed;
  consecutive_failures = 0;
  consecutive_successes = 0;
  total_calls = 0;
  total_failures = 0;
  last_failure_at = none;
  last_error = none;
  opened_at = none;
  failure_threshold = or_default options.failure_threshold default_failure_threshold;
  reset_timeout_ms = or_default options.reset_timeout_ms default_reset_timeout_ms;
  success_threshold = or_default options.success_threshold default_success_threshold;
}

-- `openedAt !== undefined && now - openedAt >= resetTimeoutMs`, free of truncated subtraction.
abbrev pub lapsed : Option ℕ → ℕ → ℕ → Bool
lapsed none timeout now = false
lapsed (some at) timeout now = leb (at + timeout) now

attempt_in : CircuitState → CircuitBreaker → ℕ → CircuitBreaker × Bool
attempt_in closed b now = (b, true)
attempt_in open_circuit b now =
    if lapsed b.opened_at b.reset_timeout_ms now
    then (record b { state = half_open; consecutive_successes = 0 }, true)
    else (b, false)
attempt_in half_open b now =
    (b, nat_eq b.consecutive_successes 0 && nat_eq b.consecutive_failures 0)

unfoldable pub can_attempt : CircuitBreaker → ℕ → CircuitBreaker × Bool
unfolding attempt_in
can_attempt b now = attempt_in b.state b now

count_success : CircuitState → CircuitBreaker → CircuitBreaker
count_success half_open b =
    let successes = b.consecutive_successes + 1 in
    if leb b.success_threshold successes
    then record b { state = closed; consecutive_successes = 0; opened_at = none }
    else record b { consecutive_successes = successes }
count_success closed b = b
count_success open_circuit b = b

unfoldable pub record_success : CircuitBreaker → CircuitBreaker × CircuitState
unfolding count_success
record_success b =
    let b' = record b { total_calls = b.total_calls + 1; consecutive_failures = 0 } in
    let b'' = count_success b.state b' in (b'', b''.state)

abbrev pub is_half_open : CircuitState → Bool
is_half_open half_open = true
is_half_open closed = false
is_half_open open_circuit = false

unfoldable pub record_failure : CircuitBreaker → String → ℕ → CircuitBreaker × CircuitState
record_failure b error now =
    let b' = record b {
      total_calls = b.total_calls + 1;
      total_failures = b.total_failures + 1;
      consecutive_failures = b.consecutive_failures + 1;
      consecutive_successes = 0;
      last_failure_at = some now;
      last_error = some error;
    } in
    let b'' =
      if is_half_open b.state || leb b.failure_threshold (b.consecutive_failures + 1)
      then record b' { state = open_circuit; opened_at = some now }
      else b' in
    (b'', b''.state)

unfoldable pub reset : CircuitBreaker → CircuitBreaker
reset b = record b {
  state = closed;
  consecutive_failures = 0;
  consecutive_successes = 0;
  opened_at = none;
}

abbrev pub retry_after : CircuitState → Option ℕ → ℕ → Option ℕ
retry_after open_circuit (some at) timeout = some (at + timeout)
retry_after open_circuit none timeout = none
retry_after closed opened_at timeout = none
retry_after half_open opened_at timeout = none

unfoldable pub snapshot : CircuitBreaker → CircuitSnapshot
snapshot b = record {
  key = b.key;
  state = b.state;
  consecutive_failures = b.consecutive_failures;
  consecutive_successes = b.consecutive_successes;
  total_calls = b.total_calls;
  total_failures = b.total_failures;
  last_failure_at = b.last_failure_at;
  last_error = b.last_error;
  retry_at = retry_after b.state b.opened_at b.reset_timeout_ms;
}

-- The calls that a client can make, in any order: concurrent callers interleave them freely.
pub data Op : Type 0 where
  attempts : ℕ → Op
  succeeds : Op
  fails : String → ℕ → Op
  resets : Op

unfoldable pub step : CircuitBreaker → Op → CircuitBreaker
unfolding can_attempt record_success record_failure reset
step b (attempts now) = (can_attempt b now).0
step b succeeds = (record_success b).0
step b (fails error now) = (record_failure b error now).0
step b resets = reset b

unfoldable pub run : CircuitBreaker → List Op → CircuitBreaker
unfolding step
run b [] = b
run b (op ∷ ops) = run (step b op) ops
