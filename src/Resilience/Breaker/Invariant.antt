-- ===== src/Resilience/Breaker/Invariant.antt =====
-- packages/resilience/src/circuit-breaker.ts: a breaker over histories of calls.
use ryvan_os.Base.{
  ℕ, zero, suc, ◌+◌, ◌≤◌, ◌<◌, String, ◌≡◌, refl, ◌⊎◌, inl, inr, true, ◌&&◌, none, some, List, [],
  ◌∷◌, arith, ltb, leb, if◌then◌else◌, is_some, Bool-cases,
}
use ryvan_os.Resilience.Breaker.{
  CircuitBreaker, BreakerOptions, CircuitState, closed, open_circuit, half_open, create,
  can_attempt, record_success, record_failure, reset, snapshot, Op, fails, step, run,
}

-- What each state promises, apart from the counters.
abbrev pub Promises : CircuitState → CircuitBreaker → Type 0
Promises closed b =
    (b.opened_at ≡ none)
    × (b.consecutive_successes ≡ 0)
    × ((b.consecutive_failures ≡ 0) ⊎ (b.consecutive_failures < b.failure_threshold))
Promises open_circuit b = is_some b.opened_at ≡ true
Promises half_open b =
    (is_some b.opened_at ≡ true)
    × ((b.consecutive_successes ≡ 0) ⊎ (b.consecutive_failures ≡ 0))
    × ((b.consecutive_successes ≡ 0) ⊎ (b.consecutive_successes < b.success_threshold))

pub record Inv (b : CircuitBreaker) : Type 0 where
  pub promised : Promises b.state b
  pub failures_counted : b.total_failures ≤ b.total_calls
  pub run_counted : b.consecutive_failures ≤ b.total_failures

create-Inv : (key : String) (options : BreakerOptions) → Inv (create key options)
unfolding create
create-Inv key options = ground arith

step_in-Inv :
    (s : CircuitState) (b : CircuitBreaker) (op : Op) → b.state ≡ s → Inv b → Inv (step b op)
unfolding step can_attempt record_success record_failure reset
step_in-Inv closed b op e v = ground arith
step_in-Inv open_circuit b op e v = ground arith
step_in-Inv half_open b op e v = ground arith

pub step-Inv : (b : CircuitBreaker) (op : Op) → Inv b → Inv (step b op)
step-Inv b op v = step_in-Inv b.state b op refl v

run-Inv : (b : CircuitBreaker) (ops : List Op) → Inv b → Inv (run b ops)
unfolding run
run-Inv b [] v = v
run-Inv b (op ∷ ops) v = run-Inv (step b op) ops (step-Inv b op v)

-- After any interleaving of calls on a new breaker: a closed circuit has no opening time, no
-- counted probe, and fewer consecutive failures than the threshold (or none); an open one has an
-- opening time; a half-open one has it too, has never both failures and successes counted, and has
-- counted fewer successes than would close it. Consecutive failures never exceed the failures, nor
-- those the calls.
pub run-create-Inv :
    (key : String) (options : BreakerOptions) (ops : List Op) → Inv (run (create key options) ops)
run-create-Inv key options ops = run-Inv _ ops (create-Inv key options)

-- An open circuit with an opening time admits a call exactly from the time that its snapshot gives
-- as `retryAt`: a call that it refuses changes nothing, and one that it admits makes it half-open
-- with no success counted.
pub can_attempt-open :
    (b : CircuitBreaker) (at now : ℕ)
    → b.state ≡ open_circuit
    → b.opened_at ≡ some at
    → ((snapshot b).retry_at ≡ some (at + b.reset_timeout_ms))
      × ((can_attempt b now).1 ≡ leb (at + b.reset_timeout_ms) now)
      × ((can_attempt b now).0 ≡ (
          if leb (at + b.reset_timeout_ms) now
          then record b { state = half_open; consecutive_successes = 0 }
          else b))
unfolding can_attempt snapshot
can_attempt-open b at now e o = ground arith

-- `n` failed calls in a row, the k-th of them at the time `times k`.
abbrev pub failures : ℕ → String → (ℕ → ℕ) → List Op
failures zero error times = []
failures (suc n) error times = fails error (times n) ∷ failures n error times

run-failures-below :
    (n : ℕ) (b : CircuitBreaker) (error : String) (times : ℕ → ℕ)
    → b.state ≡ closed
    → b.consecutive_failures + n < b.failure_threshold
    → (run b (failures n error times)).state ≡ closed
unfolding run step record_failure
run-failures-below zero b error times e h = e
run-failures-below (suc n) b error times e h =
    run-failures-below n (step b (fails error (times n))) error times (ground arith) (ground arith)

run-failures-open :
    (n : ℕ) (b : CircuitBreaker) (error : String) (times : ℕ → ℕ)
    → b.state ≡ open_circuit
    → b.failure_threshold ≤ b.consecutive_failures
    → (run b (failures n error times)).state ≡ open_circuit
unfolding run step record_failure
run-failures-open zero b error times e h = e
run-failures-open (suc n) b error times e h =
    run-failures-open n (step b (fails error (times n))) error times (ground arith) (ground arith)

run-failures-above :
    (n : ℕ) (b : CircuitBreaker) (error : String) (times : ℕ → ℕ)
    → b.state ≡ closed
    → b.failure_threshold ≤ b.consecutive_failures + suc n
    → (run b (failures (suc n) error times)).state ≡ open_circuit
unfolding run step record_failure
run-failures-above zero b error times e h = ground arith
run-failures-above (suc n) b error times e h =
    elim (Bool-cases (leb b.failure_threshold (b.consecutive_failures + 1))) [
      | inl tripped ↦
          run-failures-open (suc n) (step b (fails error (times (suc n)))) error times
            (ground arith) (ground arith)
      | inr counted ↦
          run-failures-above n (step b (fails error (times (suc n)))) error times (ground arith)
            (ground arith)
    ]

run-failures-none :
    (b : CircuitBreaker) (error : String) (times : ℕ → ℕ)
    → b.state ≡ closed
    → (run b (failures 0 error times)).state ≡ closed
unfolding run
run-failures-none b error times e = e

-- A circuit that is closed with no failure counted is still closed after fewer failures in a row
-- than its threshold, and open after as many or more (at least one), whenever they happen.
pub failures_trip :
    (b : CircuitBreaker) (n : ℕ) (error : String) (times : ℕ → ℕ)
    → b.state ≡ closed
    → b.consecutive_failures ≡ 0
    → (run b (failures n error times)).state
      ≡ (if ltb 0 n && leb b.failure_threshold n then open_circuit else closed)
failures_trip b zero error times e z = run-failures-none b error times e
failures_trip b (suc n) error times e z =
    let some_failed : ltb 0 (suc n) ≡ true = ground arith in
    elim (Bool-cases (leb b.failure_threshold (suc n))) [
      | inl enough ↦ rw (some_failed, enough) (run-failures-above n b error times e (ground arith))
      | inr few ↦ rw (some_failed, few) (run-failures-below (suc n) b error times e (ground arith))
    ]
