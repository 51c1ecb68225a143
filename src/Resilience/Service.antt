-- ===== src/Resilience/Service.antt =====
-- packages/resilience/src/resilience-service.ts: `execute` with its circuits, retries, fallbacks and
-- dead letters, and `replay`. Calls of a service follow one another here; delays between attempts,
-- durations and the logger are left out.
pub mod Isolating
pub mod Parking
pub mod Tests
use ryvan_os.Base.{
  ℕ, zero, suc, ◌+◌, ◌-◌, max, String, Bool, true, false, Option, none, some, List, [], ◌∷◌, ◌++◌,
  map, ◌==◌, quoted, if◌then◌else◌, or_default, option_case, find, Error, circuit_open_error,
  thrown, Result, throws, returns, Outcome, returned, threw,
}
use Prim.Native.String.{◌++◌ as append}
use ryvan_os.Base.Map.{Map, get, set, values}
use ryvan_os.Common.Glob.{matches_glob}
use ryvan_os.Resilience.Breaker.{
  CircuitBreaker, CircuitState, CircuitSnapshot, BreakerOptions, closed, open_circuit, half_open,
  create, can_attempt, record_success, record_failure, reset, snapshot,
}
use ryvan_os.Resilience.DeadLetters.{DeadLetter, Letters, add_letter, list_letters, mark_replayed}

-- `max_attempts` is `retry.maxAttempts`.
pub record ResiliencePolicy : Type 0 where
  pub target : String
  pub max_attempts : Option ℕ
  pub breaker : BreakerOptions
  pub fallbacks : List String
  pub dead_letter : Bool

abbrev default_max_attempts : ℕ
default_max_attempts = 3

pub data ResilienceEvent : Type 0 where
  circuit_opened circuit_half_opened circuit_closed replayed : String → ResilienceEvent
  retrying : String → ℕ → ResilienceEvent
  fell_back dead_lettered : String → String → ResilienceEvent

pub record ResilienceService : Type 0 where
  pub policies : List ResiliencePolicy
  pub default_policy : ResiliencePolicy
  pub breakers : Map CircuitBreaker
  pub last_states : Map CircuitState
  pub letters : Letters
  pub emitted : List ResilienceEvent

unfoldable pub add_policy : ResilienceService → ResiliencePolicy → ResilienceService
add_policy s policy = record s { policies = s.policies ++ policy ∷ [] }

-- The first policy that matches, else the default under the key.
unfoldable pub policy_for : ResilienceService → String → ResiliencePolicy
policy_for s key =
    or_default (find (λ p. matches_glob key (p.target ∷ [])) s.policies)
      (record s.default_policy { target = key })

abbrev pub breaker_for : ResilienceService → String → ResiliencePolicy → CircuitBreaker
breaker_for s key policy = or_default (get s.breakers key) (create key policy.breaker)

abbrev pub put_breaker : ResilienceService → String → CircuitBreaker → ResilienceService
put_breaker s key b = record s { breakers = set s.breakers key b }

abbrev same_state : Option CircuitState → CircuitState → Bool
same_state (some closed) closed = true
same_state (some open_circuit) open_circuit = true
same_state (some half_open) half_open = true
same_state _ next = false

abbrev state_event : CircuitState → String → ResilienceEvent
state_event open_circuit key = circuit_opened key
state_event half_open key = circuit_half_opened key
state_event closed key = circuit_closed key

-- `transition`.
unfoldable pub transition : ResilienceService → String → CircuitState → ResilienceService
transition s key next = if same_state (get s.last_states key) next then s else record s {
  last_states = set s.last_states key next;
  emitted = s.emitted ++ state_event next key ∷ [];
}

abbrev pub succeeded : ResilienceService → String → CircuitBreaker → ResilienceService
succeeded s key b =
    let (after, state) = record_success b in transition (put_breaker s key after) key state

abbrev pub failed_with :
    ResilienceService → String → CircuitBreaker → String → ℕ → ResilienceService
failed_with s key b message now =
    let (after, state) = record_failure b message now in
    transition (put_breaker s key after) key state

-- What a call meets outside: how each attempt ends, a timeout counting as thrown, what a fallback
-- answers, which errors are worth a retry, and the times at which circuits are asked and told.
pub record Surroundings (R : Type 0) : Type 0 where
  pub call : ℕ → Outcome R
  pub is_retryable : String → Bool
  pub run_fallback : Option (String → Outcome R)
  pub started : ℕ
  pub settled : ℕ
  pub asked : String → ℕ
  pub told : String → ℕ

pub record ExecuteOptions : Type 0 where
  pub payload : Option String
  pub correlation_id : Option String
  pub mission_id : Option String

pub record ExecuteOutcome (R : Type 0) : Type 0 where
  pub result : R
  pub attempts : ℕ
  pub used_fallback : Option String

module _ {R : Type 0} (w : Surroundings R) where
  -- `attemptWithRetries`: the attempts made, how they ended, and those that were retried.
  unfoldable pub attempt_with_retries : ℕ → ℕ → ℕ × Outcome R × List ℕ
  attempt_with_retries zero attempt = (attempt, w.call attempt, [])
  attempt_with_retries (suc left) attempt =
      let (made, end, retried) = attempt_with_retries left (attempt + 1) in
      elim (w.call attempt) [
        | returned v ↦ (attempt, returned v, [])
        | threw e ↦
            if w.is_retryable e then (made, end, attempt ∷ retried) else (attempt, threw e, [])
      ]

  -- `Math.max(1, spec.maxAttempts)`, less the first attempt.
  abbrev pub retries_of : ResiliencePolicy → ℕ
  retries_of policy = max 1 (or_default policy.max_attempts default_max_attempts) - 1

  -- How the call of the primary ended.
  pub record Primary : Type 0 where
    pub service : ResilienceService
    pub attempts : ℕ
    pub answer : Result R

  pub primary_ended : ResilienceService → String → CircuitBreaker → ℕ × Outcome R × List ℕ → Primary
  primary_ended s key b (made, returned v, retried) = record {
    service = succeeded (record s { emitted = s.emitted ++ map (retrying key) retried }) key b;
    attempts = made;
    answer = returns v;
  }
  primary_ended s key b (made, threw e, retried) = record {
    service =
        failed_with (record s { emitted = s.emitted ++ map (retrying key) retried }) key b e
          w.settled;
    attempts = made;
    answer = throws (thrown e);
  }

  unfoldable pub run_primary : ResilienceService → String → ResiliencePolicy → Primary
  unfolding primary_ended attempt_with_retries
  run_primary s key policy =
      let (b, admitted) = can_attempt (breaker_for s key policy) w.started in
      let asked = put_breaker s key b in
      if admitted
      then primary_ended asked key b (attempt_with_retries (retries_of policy) 1)
      else record { service = asked; attempts = 0; answer = throws (circuit_open_error key) }

  -- The loop over the fallbacks: the service, the fallback that answered, and the last error.
  unfoldable pub try_fallbacks :
      List String
      → ResilienceService
      → String
      → (String → Outcome R)
      → Error
      → ResilienceService × Option (String × R) × Error
  try_fallbacks [] s key run last = (s, none, last)
  try_fallbacks (k ∷ ks) s key run last =
      let (b, admitted) = can_attempt (breaker_for s k (policy_for s k)) (w.asked k) in
      let asked = put_breaker s k b in
      elim admitted [
        | false ↦ try_fallbacks ks asked key run last
        | true ↦ elim (run k) [
          | returned v ↦
              let told = succeeded asked k b in
              (record told { emitted = told.emitted ++ fell_back key k ∷ [] }, some (k, v), last)
          | threw e ↦ try_fallbacks ks (failed_with asked k b e (w.told k)) key run (thrown e)
        ]
      ]

  -- The message of an error that is parked.
  abbrev error_message : Error → String
  error_message (thrown m) = m
  error_message (circuit_open_error k) = append "Circuit " (append (quoted k) " is open")
  error_message _ = "unknown failure"

  unfoldable pub park :
      ResilienceService → String → Error → ℕ → ExecuteOptions → String → ℕ → ResilienceService
  park s key last attempts options id now = record s {
    letters = add_letter s.letters (record {
      id = id;
      key = key;
      payload = options.payload;
      error = error_message last;
      attempts = attempts;
      correlation_id = options.correlation_id;
      mission_id = options.mission_id;
      created_at = now;
      replayed_at = none;
    });
    emitted = s.emitted ++ dead_lettered id key ∷ [];
  }

  pub fallbacks_ended :
      ResiliencePolicy
      → String
      → ℕ
      → ExecuteOptions
      → String
      → ℕ
      → ResilienceService × Option (String × R) × Error
      → ResilienceService × Result (ExecuteOutcome R)
  unfolding park
  fallbacks_ended policy key attempts options id now (s, some (k, v), last) =
      (s, returns (record { result = v; attempts = attempts; used_fallback = some k }))
  fallbacks_ended policy key attempts options id now (s, none, last) =
      (if policy.dead_letter then park s key last attempts options id now else s, throws last)

  -- From the end of the primary on; without `runFallback` no fallback is tried.
  pub after_primary :
      Result R
      → ResiliencePolicy
      → String
      → ResilienceService
      → ℕ
      → ExecuteOptions
      → String
      → ℕ
      → ResilienceService × Result (ExecuteOutcome R)
  unfolding fallbacks_ended try_fallbacks
  after_primary (returns v) policy key s attempts options id now =
      (s, returns (record { result = v; attempts = attempts; used_fallback = none }))
  after_primary (throws e) policy key s attempts options id now =
      fallbacks_ended policy key attempts options id now (
        option_case w.run_fallback (s, none, e) (λ run. try_fallbacks policy.fallbacks s key run e))

  -- `id` is what `generateId` returns, `now` the time of a dead letter.
  unfoldable pub execute :
      ResilienceService
      → String
      → ExecuteOptions
      → String
      → ℕ
      → ResilienceService × Result (ExecuteOutcome R)
  unfolding after_primary run_primary
  execute s key options id now =
      let policy = policy_for s key in
      let p = run_primary s key policy in
      after_primary p.answer policy key p.service p.attempts options id now

abbrev pub circuits : ResilienceService → List CircuitSnapshot
circuits s = map snapshot (values s.breakers)

abbrev pub circuit : ResilienceService → String → Option CircuitSnapshot
circuit s key = option_case (get s.breakers key) none (λ b. some (snapshot b))

unfoldable pub reset_circuit : ResilienceService → String → ResilienceService
reset_circuit s key = option_case (get s.breakers key) s (λ b. put_breaker s key (reset b))

-- `run` is how the caller's replay of the letter ends; an error of it is thrown on.
unfoldable pub replay :
    ResilienceService
    → String
    → (DeadLetter → Outcome (Unit {0}))
    → ℕ
    → ResilienceService × Result Bool
replay s id run now =
    let pending =
      list_letters s.letters (record { key = none; replayed = some false; limit = none }) in
    option_case (find (λ (l : DeadLetter). l.id == id) pending) (s, returns false)
      (λ letter. elim (run letter) [
        | threw e ↦ (s, throws (thrown e))
        | returned ok ↦ (
          record s {
            letters = mark_replayed s.letters letter.id now;
            emitted = s.emitted ++ replayed letter.id ∷ [];
          },
          returns true,
        )
      ])
