-- ===== src/Resilience/Breaker/Tests.antt =====
-- Runs of the circuit breaker at concrete options.
use ryvan_os.Base.{◌≡◌, refl, true, false, some, List, [], ◌∷◌}
use ryvan_os.Resilience.Breaker.{
  CircuitBreaker, BreakerOptions, open_circuit, create, can_attempt, record_failure, snapshot, Op,
  fails, run,
}
use ryvan_os.Resilience.Breaker.Invariant.{Inv, run-create-Inv}

abbrev options : BreakerOptions
options = record {
  failure_threshold = some 2;
  reset_timeout_ms = some 100;
  success_threshold = some 2;
}

abbrev fresh : CircuitBreaker
fresh = create "sap" options

abbrev outage : List Op
outage = fails "down" 10 ∷ fails "down" 20 ∷ []

abbrev tripped : CircuitBreaker
tripped = run fresh outage

abbrev probing : CircuitBreaker
probing = (can_attempt tripped 120).0

breaker_runs :
    (tripped.state ≡ open_circuit)
    × ((can_attempt tripped 119).1 ≡ false)
    × ((can_attempt tripped 120).1 ≡ true)
    × ((can_attempt probing 121).1 ≡ false)
    × ((snapshot tripped).retry_at ≡ some 120)
unfolding run create can_attempt snapshot record_failure
breaker_runs = (refl, refl, refl, refl, refl)

run-create-Inv_example : Inv (run (create "sap" options) outage)
run-create-Inv_example = run-create-Inv "sap" options outage
