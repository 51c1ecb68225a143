-- ===== src/Resilience/Service/Isolating.antt =====
-- packages/resilience/src/resilience-service.ts: the circuits that a call touches.
use ryvan_os.Resilience.Service.{retrying}
use ryvan_os.Base.{
  ℕ, String, ◌≡◌, refl, ◌∙◌, ◌⊎◌, inl, inr, false, Option, none, some, List, [], ◌∷◌, ◌++◌, map,
  arith, ◌==◌, if_both, Bool-cases, Option-cases, any, Error, thrown, Result, throws, returns,
  Outcome, returned, threw,
}
use ryvan_os.Base.Map.{get, get-set}
use ryvan_os.Resilience.Breaker.{
  CircuitBreaker, CircuitState, can_attempt, record_success, record_failure,
}
use ryvan_os.Resilience.Service.{
  ExecuteOptions, park, execute, policy_for, fallbacks_ended, after_primary, ResilienceService,
  ResiliencePolicy, Surroundings, Primary, breaker_for, put_breaker, transition, succeeded,
  failed_with, retries_of, attempt_with_retries, primary_ended, run_primary, try_fallbacks,
}

pub Outcome-cases {ℓ} :
    {A : Type ℓ} (o : Outcome A) → ((a : A) × (o ≡ returned a)) ⊎ ((m : String) × (o ≡ threw m))
Outcome-cases (returned a) = inl (a, refl)
Outcome-cases (threw m) = inr (m, refl)

-- The circuit of a key, and the state that was last announced for it.
pub record SameCircuit (j : String) (s t : ResilienceService) : Type 0 where
  pub breaker : get t.breakers j ≡ get s.breakers j
  pub announced : get t.last_states j ≡ get s.last_states j

SameCircuit-refl : (j : String) (s : ResilienceService) → SameCircuit j s s
SameCircuit-refl j s = record { breaker = refl; announced = refl }

SameCircuit-trans :
    (j : String) (s t u : ResilienceService)
    → SameCircuit j s t
    → SameCircuit j t u
    → SameCircuit j s u
SameCircuit-trans j s t u h k = record {
  breaker = k.breaker ∙ h.breaker;
  announced = k.announced ∙ h.announced;
}

module _ (j key : String) (other : (key == j) ≡ false) where
  put-Same : (s : ResilienceService) (b : CircuitBreaker) → SameCircuit j s (put_breaker s key b)
  put-Same s b = record { breaker = get-set s.breakers key j b ∙ rw other refl; announced = refl }

  transition-Same :
      (s : ResilienceService) (next : CircuitState) → SameCircuit j s (transition s key next)
  unfolding transition
  transition-Same s next = record {
    breaker = ground arith;
    announced = ground (arith, get-set s.last_states key j next);
  }

  succeeded-Same :
      (s : ResilienceService) (b : CircuitBreaker) → SameCircuit j s (succeeded s key b)
  succeeded-Same s b =
      let t = put_breaker s key (record_success b).0 in
      SameCircuit-trans j s t (transition t key (record_success b).1)
        (put-Same s (record_success b).0) (transition-Same t (record_success b).1)

  failed_with-Same :
      (s : ResilienceService) (b : CircuitBreaker) (m : String) (now : ℕ)
      → SameCircuit j s (failed_with s key b m now)
  failed_with-Same s b m now =
      let t = put_breaker s key (record_failure b m now).0 in
      SameCircuit-trans j s t (transition t key (record_failure b m now).1)
        (put-Same s (record_failure b m now).0) (transition-Same t (record_failure b m now).1)

module _ {R : Type 0} (w : Surroundings R) (j : String) where
  primary_ended-Same :
      (key : String) (s : ResilienceService) (b : CircuitBreaker) (t : ℕ × Outcome R × List ℕ)
      → (key == j) ≡ false
      → SameCircuit j s (primary_ended w s key b t).service
  unfolding primary_ended
  primary_ended-Same key s b (made, returned v, retried) h =
      let x =
        succeeded-Same j key h (record s { emitted = s.emitted ++ map (retrying key) retried }) b in
      record { breaker = x.breaker; announced = x.announced }
  primary_ended-Same key s b (made, threw e, retried) h =
      let x =
        failed_with-Same j key h (record s { emitted = s.emitted ++ map (retrying key) retried }) b
          e w.settled in
      record { breaker = x.breaker; announced = x.announced }

  run_primary-Same :
      (s : ResilienceService) (key : String) (policy : ResiliencePolicy)
      → (key == j) ≡ false
      → SameCircuit j s (run_primary w s key policy).service
  unfolding run_primary
  run_primary-Same s key policy h =
      let (b, admitted) = can_attempt (breaker_for s key policy) w.started in
      let asked = put_breaker s key b in
      if_both (λ (p : Primary w). SameCircuit j s p.service) admitted
        (SameCircuit-trans j s asked _ (put-Same j key h s b)
          (primary_ended-Same key asked b (attempt_with_retries w (retries_of w policy) 1) h))
        (put-Same j key h s b)

  try_fallbacks-Same :
      (ks : List String) (s : ResilienceService) (key : String) (run : String → Outcome R)
      (last : Error)
      → any (λ k. k == j) ks ≡ false
      → SameCircuit j s (try_fallbacks w ks s key run last).0
  unfolding try_fallbacks
  try_fallbacks-Same [] s key run last h = SameCircuit-refl j s
  try_fallbacks-Same (k ∷ ks) s key run last h =
      let (b, admitted) = can_attempt (breaker_for s k (policy_for s k)) (w.asked k) in
      let asked = put_breaker s k b in
      let here_other : (k == j) ≡ false = ground arith in
      let rest_other : any (λ i. i == j) ks ≡ false = ground arith in
      let put = put-Same j k here_other s b in
      elim (Bool-cases admitted) [
        | inr refused ↦
            rw (refused, try_fallbacks)
              (SameCircuit-trans j s asked _ put
                (try_fallbacks-Same ks asked key run last rest_other))
        | inl fine ↦ elim (Outcome-cases (run k)) [
          | inl (v, answered) ↦
              let x =
                SameCircuit-trans j s asked (succeeded asked k b) put
                  (succeeded-Same j k here_other asked b) in
              rw (fine, answered, try_fallbacks)
                (record { breaker = x.breaker; announced = x.announced })
          | inr (e, failed) ↦
              let told = failed_with asked k b e (w.told k) in
              rw (fine, failed, try_fallbacks)
                (SameCircuit-trans j s told _
                  (SameCircuit-trans j s asked told put
                    (failed_with-Same j k here_other asked b e (w.told k)))
                  (try_fallbacks-Same ks told key run (thrown e) rest_other))
        ]
      ]

  fallbacks_ended-Same :
      (policy : ResiliencePolicy) (key : String) (attempts : ℕ) (options : ExecuteOptions)
      (id : String) (now : ℕ) (t : ResilienceService × Option (String × R) × Error)
      → SameCircuit j t.0 (fallbacks_ended w policy key attempts options id now t).0
  unfolding fallbacks_ended park
  fallbacks_ended-Same policy key attempts options id now (s, some (k, v), last) =
      SameCircuit-refl j s
  fallbacks_ended-Same policy key attempts options id now (s, none, last) =
      if_both (λ (t : ResilienceService). SameCircuit j s t) policy.dead_letter
        (record { breaker = refl; announced = refl }) (SameCircuit-refl j s)

  after_primary-Same :
      (answer : Result R) (policy : ResiliencePolicy) (key : String) (s : ResilienceService)
      (attempts : ℕ) (options : ExecuteOptions) (id : String) (now : ℕ)
      → any (λ k. k == j) policy.fallbacks ≡ false
      → SameCircuit j s (after_primary w answer policy key s attempts options id now).0
  unfolding after_primary
  after_primary-Same (returns v) policy key s attempts options id now h = SameCircuit-refl j s
  after_primary-Same (throws e) policy key s attempts options id now h =
      elim (Option-cases w.run_fallback) [
        | inl without ↦
            rw without (fallbacks_ended-Same policy key attempts options id now (s, none, e))
        | inr (run, given) ↦
            let t = try_fallbacks w policy.fallbacks s key run e in
            rw given (
              SameCircuit-trans j s t.0 _ (try_fallbacks-Same policy.fallbacks s key run e h)
                (fallbacks_ended-Same policy key attempts options id now t))
      ]

-- A call leaves the circuits of all other keys alone, but for the fallbacks of its policy.
pub execute_isolated :
    {R : Type 0} (w : Surroundings R) (s : ResilienceService) (key j : String)
    (options : ExecuteOptions) (id : String) (now : ℕ)
    → (key == j) ≡ false
    → any (λ k. k == j) (policy_for s key).fallbacks ≡ false
    → (get (execute w s key options id now).0.breakers j ≡ get s.breakers j)
      × (get (execute w s key options id now).0.last_states j ≡ get s.last_states j)
unfolding execute
execute_isolated w s key j options id now h f =
    let p = run_primary w s key (policy_for s key) in
    let same = SameCircuit-trans j s p.service _ (run_primary-Same w j s key (policy_for s key) h) (
      after_primary-Same w j p.answer (policy_for s key) key p.service p.attempts options id now
        f) in
    (same.breaker, same.announced)
