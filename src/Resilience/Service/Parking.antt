-- ===== src/Resilience/Service/Parking.antt =====
-- packages/resilience/src/resilience-service.ts: the calls that are parked, and those that are not
-- made.
use ryvan_os.Base.{
  ℕ, String, ◌≡◌, refl, ◌∙◌, subst, inl, inr, Bool, true, false, Option, none, some, List, [], ◌∷◌,
  arith, if◌then◌else◌, if_both, Bool-cases, Option-cases, Error, circuit_open_error, thrown,
  Result, throws, returns, Outcome, returned, threw,
}
use ryvan_os.Resilience.Breaker.{
  CircuitState, CircuitBreaker, can_attempt, record_success, record_failure,
}
use ryvan_os.Resilience.DeadLetters.{DeadLetter, Letters, add_letter}
use ryvan_os.Resilience.Service.{
  ResilienceService, ResiliencePolicy, Surroundings, ExecuteOptions, ExecuteOutcome, Primary,
  policy_for, breaker_for, put_breaker, transition, failed_with, retries_of, attempt_with_retries,
  primary_ended, run_primary, try_fallbacks, park, fallbacks_ended, after_primary, execute,
}
use ryvan_os.Resilience.Service.Isolating.{Outcome-cases}

transition-letters :
    (s : ResilienceService) (key : String) (next : CircuitState)
    → (transition s key next).letters ≡ s.letters
unfolding transition
transition-letters s key next = ground arith

module _ {R : Type 0} (w : Surroundings R) where
  primary_ended-letters :
      (s : ResilienceService) (key : String) (b : CircuitBreaker) (t : ℕ × Outcome R × List ℕ)
      → (primary_ended w s key b t).service.letters ≡ s.letters
  unfolding primary_ended
  primary_ended-letters s key b (made, returned v, retried) = transition-letters _ key _
  primary_ended-letters s key b (made, threw e, retried) = transition-letters _ key _

  run_primary-letters :
      (s : ResilienceService) (key : String) (policy : ResiliencePolicy)
      → (run_primary w s key policy).service.letters ≡ s.letters
  unfolding run_primary
  run_primary-letters s key policy =
      let (b, admitted) = can_attempt (breaker_for s key policy) w.started in
      let asked = put_breaker s key b in
      if_both (λ (p : Primary w). p.service.letters ≡ s.letters) admitted
        (primary_ended-letters asked key b (attempt_with_retries w (retries_of w policy) 1)) refl

  try_fallbacks-letters :
      (ks : List String) (s : ResilienceService) (key : String) (run : String → Outcome R)
      (last : Error)
      → (try_fallbacks w ks s key run last).0.letters ≡ s.letters
  unfolding try_fallbacks
  try_fallbacks-letters [] s key run last = refl
  try_fallbacks-letters (k ∷ ks) s key run last =
      let (b, admitted) = can_attempt (breaker_for s k (policy_for s k)) (w.asked k) in
      let asked = put_breaker s k b in
      elim (Bool-cases admitted) [
        | inr refused ↦ rw (refused, try_fallbacks) (try_fallbacks-letters ks asked key run last)
        | inl fine ↦ elim (Outcome-cases (run k)) [
          | inl (v, answered) ↦
              rw (fine, answered, try_fallbacks)
                (transition-letters (put_breaker asked k (record_success b).0) k
                  (record_success b).1)
          | inr (e, failed) ↦
              let after = record_failure b e (w.told k) in
              rw (fine, failed, try_fallbacks)
                (try_fallbacks-letters ks (failed_with asked k b e (w.told k)) key run (thrown e)
                  ∙ transition-letters (put_breaker asked k after.0) k after.1)
        ]
      ]

  -- A call that is parked has one new letter; else the letters stay.
  abbrev pub Parks : Bool → String → String → Letters → Letters → Result (ExecuteOutcome R) → Type 0
  Parks parked key id before after (returns o) = after ≡ before
  Parks false key id before after (throws e) = after ≡ before
  Parks true key id before after (throws e) =
      (letter : DeadLetter) × (after ≡ add_letter before letter)
      × (letter.id ≡ id)
      × (letter.key ≡ key)
      × (letter.replayed_at ≡ none)

  park-Parks :
      (b : Bool) (s : ResilienceService) (key : String) (last : Error) (attempts : ℕ)
      (options : ExecuteOptions) (id : String) (now : ℕ)
      → Parks b key id s.letters
          (if b then park w s key last attempts options id now else s).letters
          (throws last)
  unfolding park
  park-Parks false s key last attempts options id now = refl
  park-Parks true s key last attempts options id now = (_, refl, refl, refl, refl)

  fallbacks_ended-Parks :
      (policy : ResiliencePolicy) (key : String) (attempts : ℕ) (options : ExecuteOptions)
      (id : String) (now : ℕ) (t : ResilienceService × Option (String × R) × Error)
      → let r = fallbacks_ended w policy key attempts options id now t in
        Parks policy.dead_letter key id t.0.letters r.0.letters r.1
  unfolding fallbacks_ended
  fallbacks_ended-Parks policy key attempts options id now (s, some (k, v), last) = refl
  fallbacks_ended-Parks policy key attempts options id now (s, none, last) =
      park-Parks policy.dead_letter s key last attempts options id now

  after_primary-Parks :
      (answer : Result R) (policy : ResiliencePolicy) (key : String) (s : ResilienceService)
      (attempts : ℕ) (options : ExecuteOptions) (id : String) (now : ℕ)
      → let r = after_primary w answer policy key s attempts options id now in
        Parks policy.dead_letter key id s.letters r.0.letters r.1
  unfolding after_primary
  after_primary-Parks (returns v) policy key s attempts options id now = refl
  after_primary-Parks (throws e) policy key s attempts options id now =
      elim (Option-cases w.run_fallback) [
        | inl without ↦
            rw without (fallbacks_ended-Parks policy key attempts options id now (s, none, e))
        | inr (run, given) ↦
            let t = try_fallbacks w policy.fallbacks s key run e in
            let r = fallbacks_ended w policy key attempts options id now t in
            rw given (
              subst (λ l. Parks policy.dead_letter key id l r.0.letters r.1)
                (try_fallbacks-letters policy.fallbacks s key run e)
                (fallbacks_ended-Parks policy key attempts options id now t))
      ]

  -- A call that throws is parked, as one new letter that waits to be replayed, exactly when its
  -- policy says so; a call that returns parks nothing.
  pub execute-Parks :
      (s : ResilienceService) (key : String) (options : ExecuteOptions) (id : String) (now : ℕ)
      → Parks
          (policy_for s key).dead_letter
          key
          id
          s.letters
          (execute w s key options id now).0.letters
          (execute w s key options id now).1
  unfolding execute
  execute-Parks s key options id now =
      let policy = policy_for s key in
      let p = run_primary w s key policy in
      let r = after_primary w p.answer policy key p.service p.attempts options id now in
      subst (λ l. Parks policy.dead_letter key id l r.0.letters r.1)
        (run_primary-letters s key policy)
        (after_primary-Parks p.answer policy key p.service p.attempts options id now)

module _ {R : Type 0} (w : Surroundings R) (call : ℕ → Outcome R) where
  try_fallbacks-call :
      (ks : List String) (s : ResilienceService) (key : String) (run : String → Outcome R)
      (last : Error)
      → try_fallbacks (record w { call = call }) ks s key run last
        ≡ try_fallbacks w ks s key run last
  unfolding try_fallbacks
  try_fallbacks-call [] s key run last = refl
  try_fallbacks-call (k ∷ ks) s key run last =
      let (b, admitted) = can_attempt (breaker_for s k (policy_for s k)) (w.asked k) in
      let asked = put_breaker s k b in
      elim (Bool-cases admitted) [
        | inr refused ↦ rw (refused, try_fallbacks) (try_fallbacks-call ks asked key run last)
        | inl fine ↦ elim (Outcome-cases (run k)) [
          | inl (v, answered) ↦ rw (fine, answered, try_fallbacks) refl
          | inr (e, failed) ↦
              rw (fine, failed, try_fallbacks)
                (try_fallbacks-call ks (failed_with asked k b e (w.told k)) key run (thrown e))
        ]
      ]

  after_throw :
      (policy : ResiliencePolicy) (key : String) (s : ResilienceService) (attempts : ℕ)
      (options : ExecuteOptions) (id : String) (now : ℕ) (e : Error)
      → after_primary (record w { call = call }) (throws e) policy key s attempts options id now
        ≡ after_primary w (throws e) policy key s attempts options id now
  unfolding after_primary fallbacks_ended park
  after_throw policy key s attempts options id now e = elim (Option-cases w.run_fallback) [
    | inl without ↦ rw without refl
    | inr (run, given) ↦ rw (given, try_fallbacks-call policy.fallbacks s key run e) refl
  ]

-- While the circuit of a key is open and its time has not come, what the target would answer makes
-- no difference to a call: the target is not called.
pub open_uncalled :
    {R : Type 0} (w : Surroundings R) (s : ResilienceService) (key : String)
    (options : ExecuteOptions) (id : String) (now : ℕ) (call : ℕ → Outcome R)
    → (can_attempt (breaker_for s key (policy_for s key)) w.started).1 ≡ false
    → execute (record w { call = call }) s key options id now ≡ execute w s key options id now
unfolding execute
open_uncalled w s key options id now call refused =
    let policy = policy_for s key in
    let asked = put_breaker s key (can_attempt (breaker_for s key policy) w.started).0 in
    rw refused (after_throw w call policy key asked 0 options id now (circuit_open_error key))
