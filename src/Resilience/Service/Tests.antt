-- ===== src/Resilience/Service/Tests.antt =====
-- Two calls of a connector that fails: one while its circuit is closed, one while it is open.
use ryvan_os.Common.Glob.{matches_glob, matches_glob, matches_glob}
use ryvan_os.Resilience.Service.Parking.{execute-Parks, Parks}
use ryvan_os.Resilience.Breaker.{record_failure, open_circuit, can_attempt, create, BreakerOptions}
use ryvan_os.Resilience.Service.{
  transition, dead_lettered, circuit_opened, retrying, execute, policy_for, ExecuteOptions,
  ResilienceService, ResiliencePolicy, Surroundings,
}
use ryvan_os.Base.{String, ◌≡◌, refl, true, none, some, [], ◌∷◌, threw}
use ryvan_os.Base.Map.{get}

abbrev no_breaker : BreakerOptions
no_breaker = record {
  failure_threshold = some 1;
  reset_timeout_ms = some 100;
  success_threshold = none;
}

abbrev sap_policy : ResiliencePolicy
sap_policy = record {
  target = "sap";
  max_attempts = some 2;
  breaker = no_breaker;
  fallbacks = [];
  dead_letter = true;
}

abbrev service : ResilienceService
service = record {
  policies = sap_policy ∷ [];
  default_policy = sap_policy;
  breakers = [];
  last_states = [];
  letters = [];
  emitted = [];
}

abbrev down : Surroundings String
down = record {
  call = λ attempt. threw "down";
  is_retryable = λ e. true;
  run_fallback = none;
  started = 5;
  settled = 7;
  asked = λ k. 7;
  told = λ k. 7;
}

abbrev no_options : ExecuteOptions
no_options = record { payload = none; correlation_id = none; mission_id = none }

-- Two attempts, a retry, an open circuit and a dead letter.
down_emits :
    (execute down service "sap" no_options "dlq" 8).0.emitted
    ≡ retrying "sap" 1 ∷ circuit_opened "sap" ∷ dead_lettered "dlq" "sap" ∷ []
unfolding execute can_attempt get create policy_for matches_glob transition record_failure
down_emits = refl

execute-Parks_example :
    Parks down true "sap" "dlq" []
      (execute down service "sap" no_options "dlq" 8).0.letters
      (execute down service "sap" no_options "dlq" 8).1
unfolding policy_for matches_glob
execute-Parks_example = execute-Parks down service "sap" no_options "dlq" 8

abbrev opened : ResilienceService
opened = record service {
  breakers =
      ("sap", record (create "sap" no_breaker) { state = open_circuit; opened_at = some 7 }) ∷ [];
}
