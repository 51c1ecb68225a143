-- ===== src/Resilience/Breaker/Probes.antt =====
-- packages/resilience/src/circuit-breaker.ts: the calls that a half-open circuit lets through.
use ryvan_os.Base.{ℕ, ◌+◌, ◌≤◌, ◌<◌, String, ◌≡◌, ◌↔◌, true, false, some, arith}
use ryvan_os.Resilience.Breaker.{
  CircuitBreaker, open_circuit, half_open, can_attempt, record_success, record_failure,
}

-- When an open circuit admits a call, it admits another before a result is recorded exactly if it
-- has no consecutive failure counted: with a failure counted, one probe gets through and every
-- later call is refused, and the breaker stays as it is.
pub probe_is_single :
    (b : CircuitBreaker) (now later : ℕ)
    → b.state ≡ open_circuit
    → (can_attempt b now).1 ≡ true
    → let b' = (can_attempt b now).0 in
      ((can_attempt b' later).0 ≡ b')
      × (((can_attempt b' later).1 ≡ true) ↔ (b.consecutive_failures ≡ 0))
unfolding can_attempt
probe_is_single b now later e h = ground arith

-- A failed probe opens the circuit anew at the time of the failure: no call is admitted until the
-- reset timeout has passed once more.
pub probe_fails :
    (b : CircuitBreaker) (error : String) (now later : ℕ)
    → b.state ≡ half_open
    → later < now + b.reset_timeout_ms
    → let b' = (record_failure b error now).0 in
      (b'.state ≡ open_circuit) × (b'.opened_at ≡ some now) × (can_attempt b' later ≡ (b', false))
unfolding record_failure can_attempt
probe_fails b error now later e h = ground arith

-- If one successful probe is not enough to close the circuit, it is stuck: after that probe the
-- half-open circuit refuses every call, at whatever time, and a refused call changes nothing, so
-- the further successes that would close it never come.
pub probe_success_wedges :
    (b : CircuitBreaker) (later : ℕ)
    → b.state ≡ half_open
    → b.consecutive_successes + 1 < b.success_threshold
    → let b' = (record_success b).0 in (b'.state ≡ half_open) × (can_attempt b' later ≡ (b', false))
unfolding record_success can_attempt
probe_success_wedges b later e h = ground arith

-- A call that was in flight when the circuit opened and that succeeds while it is open clears the
-- failures; once the reset timeout has passed, the half-open circuit then admits every call.
pub late_success_admits_all :
    (b : CircuitBreaker) (at now later : ℕ)
    → b.state ≡ open_circuit
    → b.opened_at ≡ some at
    → at + b.reset_timeout_ms ≤ now
    → let b' = (can_attempt (record_success b).0 now).0 in
      (b'.state ≡ half_open) × (can_attempt b' later ≡ (b', true))
unfolding record_success can_attempt
late_success_admits_all b at now later e o h = ground arith
