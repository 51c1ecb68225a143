-- ===== src/Policy/Quota/Counters/Refining.antt =====
-- packages/policy-engine/src/quota-guard.ts: the process-local counters against counters that are
-- never forgotten.
use ryvan_os.Base.{
  ℕ, ◌+◌, ◌≤◌, String, ◌≡◌, refl, ap, ◌∙◌, inl, inr, Bool, true, false, Option, none, some, List,
  [], ◌∷◌, arith, eq_iff, ◌==◌, if◌then◌else◌, or_default, option_case, Bool-cases, eq_self,
}
use ryvan_os.Base.Map.{get-set, get-delete, Map, get}
use ryvan_os.Policy.Quota.Counters.{Counter, live_at, read_counter, increment_counter, in_memory}

-- Calls of the store, each with its time.
pub data CounterCall : Type 0 where
  tallies : String → ℕ → ℕ → ℕ → CounterCall
  looks : String → ℕ → CounterCall

abbrev called_at : CounterCall → ℕ
called_at (tallies key by ttl now) = now
called_at (looks key now) = now

-- The clock does not run backwards.
abbrev pub InOrder : ℕ → List CounterCall → Type 0
InOrder from [] = Unit
InOrder from (call ∷ calls) = (from ≤ called_at call) × InOrder (called_at call) calls

unfoldable pub run : List CounterCall → Map Counter → List ℕ
run [] counters = []
run (tallies key by ttl now ∷ calls) counters =
    let (after, n) = increment_counter counters key by ttl now in n ∷ run calls after
run (looks key now ∷ calls) counters =
    let (after, n) = in_memory.read counters key now in n ∷ run calls after

-- A counter for each key, with no deletion: one past its deadline tallies as absent.
abbrev pub Book : Type 0
Book = String → Option Counter

abbrev pub bump : Option Counter → ℕ → ℕ → ℕ → Counter
bump old by ttl now = record {
  value = option_case old 0 (λ e. e.value) + by;
  expires_at = option_case old (now + ttl) (λ e. e.expires_at);
}

abbrev pub replay : List CounterCall → Book → List ℕ
replay [] book = []
replay (tallies key by ttl now ∷ calls) book =
    let entry = bump (live_at now (book key)) by ttl now in
    entry.value ∷ replay calls (λ k. if key == k then some entry else book k)
replay (looks key now ∷ calls) book =
    option_case (live_at now (book key)) 0 (λ e. e.value) ∷ replay calls book

-- From a time on, the counters that have not lapsed are the same.
Agree : ℕ → Map Counter → Book → Type 0
Agree from m f = (k : String) (t : ℕ) → from ≤ t → live_at t (get m k) ≡ live_at t (f k)

pub get-read_counter :
    (m : Map Counter) (k : String) (now : ℕ) (j : String)
    → get (read_counter m k now).0 j ≡ (if k == j then live_at now (get m k) else get m j)
unfolding read_counter
get-read_counter m k now j = ground (arith, eq_iff k j, get-delete m k j)

pub read_counter-value :
    (m : Map Counter) (k : String) (now : ℕ)
    → (read_counter m k now).1 ≡ option_case (live_at now (get m k)) none (λ e. some e.value)
unfolding read_counter
read_counter-value m k now = ground arith

-- What `increment` stores, from what it read and the counter it left.
abbrev stored_entry : Option ℕ → Option Counter → ℕ → ℕ → ℕ → Counter
stored_entry existing after by ttl now = record {
  value = or_default existing 0 + by;
  expires_at =
      option_case existing (now + ttl) (λ _. option_case after (now + ttl) (λ e. e.expires_at));
}

stored_entry-bump :
    (o after : Option Counter) (existing : Option ℕ) (by ttl now : ℕ)
    → existing ≡ option_case o none (λ e. some e.value)
    → after ≡ o
    → stored_entry existing after by ttl now ≡ bump o by ttl now
stored_entry-bump none after existing by ttl now e f = rw e refl
stored_entry-bump (some c) after existing by ttl now e f = rw (e, f) refl

module _ (m : Map Counter) (k : String) (by ttl now : ℕ) where
  entry-bump :
      stored_entry (read_counter m k now).1 (get (read_counter m k now).0 k) by ttl now
      ≡ bump (live_at now (get m k)) by ttl now
  entry-bump =
      stored_entry-bump (live_at now (get m k)) (get (read_counter m k now).0 k)
        (read_counter m k now).1 by ttl now (read_counter-value m k now)
        (get-read_counter m k now k ∙ rw (eq_self k) refl)

  pub increment_counter-value :
      (increment_counter m k by ttl now).1 ≡ (bump (live_at now (get m k)) by ttl now).value
  unfolding increment_counter
  increment_counter-value = ap (λ (c : Counter). c.value) entry-bump

  pub get-increment_counter :
      (j : String)
      → get (increment_counter m k by ttl now).0 j
        ≡ (if k == j then some (bump (live_at now (get m k)) by ttl now) else get m j)
  unfolding increment_counter
  get-increment_counter j =
      get-set (read_counter m k now).0 k j
        (stored_entry (read_counter m k now).1 (get (read_counter m k now).0 k) by ttl now)
      ∙ rw (entry-bump, get-read_counter m k now j) (go (k == j))
    where
      go :
          (b : Bool)
          → (if b
              then some (bump (live_at now (get m k)) by ttl now)
              else (if b then live_at now (get m k) else get m j))
            ≡ (if b then some (bump (live_at now (get m k)) by ttl now) else get m j)
      go true = refl
      go false = refl

pub live_at_later :
    (o : Option Counter) (now t : ℕ) → now ≤ t → live_at t (live_at now o) ≡ live_at t o
live_at_later none now t h = refl
live_at_later (some e) now t h = ground arith

Agree-read :
    (from now : ℕ) (m : Map Counter) (f : Book) (k : String)
    → from ≤ now
    → Agree from m f
    → Agree now (read_counter m k now).0 f
unfolding Agree
Agree-read from now m f k h a j t le =
    ground (
      arith,
      get-read_counter m k now j,
      live_at_later (get m k) now t le,
      eq_iff k j,
      a j t,
      a k t,
    )

Agree-increment :
    (from now : ℕ) (m : Map Counter) (f : Book) (k : String) (by ttl : ℕ)
    → from ≤ now
    → Agree from m f
    → Agree now
        (increment_counter m k by ttl now).0
        (λ j. if k == j then some (bump (live_at now (f k)) by ttl now) else f j)
unfolding Agree
Agree-increment from now m f k by ttl h a j t le =
    rw (get-increment_counter m k by ttl now j, a k now h)
      (elim (Bool-cases (k == j)) [ inl e ↦ rw e refl | inr e ↦ rw e (a j t (omega arith)) ])

pub value_of_live :
    (o : Option Counter) (existing : Option ℕ)
    → existing ≡ option_case o none (λ e. some e.value)
    → or_default existing 0 ≡ option_case o 0 (λ e. e.value)
value_of_live none existing e = rw e refl
value_of_live (some c) existing e = rw e refl

-- Whatever calls are made, in the order of their times, the store answers as counters would that
-- are never forgotten and count as absent once their deadline has passed: the deletions do not show.
pub run_refines :
    (calls : List CounterCall) (from : ℕ) (m : Map Counter) (f : Book)
    → InOrder from calls
    → ((k : String) (t : ℕ) → from ≤ t → live_at t (get m k) ≡ live_at t (f k))
    → run calls m ≡ replay calls f
unfolding run Agree
run_refines [] from m f o a = refl
run_refines (tallies k by ttl now ∷ calls) from m f o a =
    rw (increment_counter-value m k by ttl now, a k now o.0)
      (ap (◌∷◌ (bump (live_at now (f k)) by ttl now).value)
        (run_refines calls now _ _ o.1 (Agree-increment from now m f k by ttl o.0 a)))
run_refines (looks k now ∷ calls) from m f o a =
    rw
      (
        value_of_live (live_at now (get m k)) (read_counter m k now).1 (read_counter-value m k now),
        a k now o.0,
      )
      (ap (◌∷◌ (option_case (live_at now (f k)) 0 (λ e. e.value)))
        (run_refines calls now _ f o.1 (Agree-read from now m f k o.0 a)))
