-- ===== src/Policy/Quota/Consuming.antt =====
-- packages/policy-engine/src/quota-guard.ts: `consume` over any counters that count.
use ryvan_os.Base.{
  ℕ, ◌+◌, ◌≤◌, ◌<◌, String, ◌≡◌, refl, ◌∙◌, ◌↔◌, inl, inr, true, false, not, List, [], ◌∷◌, map,
  arith, ltb, ◌==◌, All-weaken, Distinct, is_some, eq_sym, Bool-cases, any, find, All,
}
use ryvan_os.Policy.Budget.{BudgetScope}
use ryvan_os.Policy.Quota.{
  applicable, Limits, consume, QuotaPeriod, QuotaLimit, CounterStore, window_ms, counter_key,
  to_status, increment_all,
}

-- What the guard relies on, at one instant.
pub record Counts (c : CounterStore) : Type 0 where
  pub counted :
      (s : c.Counters) (k : String) (by ttl now : ℕ)
      → (c.increment s k by ttl now).1 ≡ (c.read s k now).1 + by
  pub kept :
      (s : c.Counters) (k : String) (by ttl now : ℕ)
      → 0 < ttl
      → (c.read (c.increment s k by ttl now).0 k now).1 ≡ (c.read s k now).1 + by
  pub others :
      (s : c.Counters) (k j : String) (by ttl now : ℕ)
      → (k == j) ≡ false
      → (c.read (c.increment s k by ttl now).0 j now).1 ≡ (c.read s j now).1

window_ms-pos : (l : QuotaLimit) → 0 < window_ms l.period
window_ms-pos l = go l.period
  where
    go : (p : QuotaPeriod) → 0 < window_ms p
    go QuotaPeriod.minute = omega arith
    go QuotaPeriod.hour = omega arith
    go QuotaPeriod.day = omega arith
    go QuotaPeriod.month = omega arith

All-join {ℓ κ μ ν} :
    {A : Type ℓ} {P : A → Type κ} {Q : A → Type μ} {R : A → Type ν} (xs : List A)
    → ((a : A) → P a → Q a → R a)
    → All P xs
    → All Q xs
    → All R xs
All-join [] f p q = tt
All-join (x ∷ xs) f p q = (f x p.0 q.0, All-join xs f p.1 q.1)

module _ (c : CounterStore) (laws : Counts c) (scope : BudgetScope) (amount now : ℕ) where
  abbrev key_of : QuotaLimit → String
  key_of l = counter_key l scope now

  abbrev used : c.Counters → QuotaLimit → ℕ
  used s l = (c.read s (key_of l) now).1

  -- The counters of other keys stay.
  increment_all-others :
      (ls : List QuotaLimit) (s : c.Counters) (k : String)
      → any (λ y. y == k) (map key_of ls) ≡ false
      → (c.read (increment_all c s ls scope amount now).0 k now).1 ≡ (c.read s k now).1
  unfolding increment_all
  increment_all-others [] s k h = refl
  increment_all-others (l ∷ ls) s k h =
      increment_all-others ls (c.increment s (key_of l) amount (window_ms l.period) now).0 k
        (ground arith)
      ∙ laws.others s (key_of l) k amount (window_ms l.period) now (ground arith)

  keys_apart :
      (k : String) (ls : List QuotaLimit)
      → any (λ y. y == k) (map key_of ls) ≡ false
      → All (λ l. (k == key_of l) ≡ false) ls
  keys_apart k [] h = tt
  keys_apart k (l ∷ ls) h = (ground (arith, eq_sym k (key_of l)), keys_apart k ls (ground arith))

  used_apart :
      (l : QuotaLimit) (ls : List QuotaLimit) (s : c.Counters)
      → any (λ y. y == key_of l) (map key_of ls) ≡ false
      → All (λ m. used (c.increment s (key_of l) amount (window_ms l.period) now).0 m ≡ used s m) ls
  used_apart l ls s h =
      All-weaken ls (λ m n. laws.others s (key_of l) (key_of m) amount (window_ms l.period) now n)
        (keys_apart (key_of l) ls h)

  statuses_same :
      (u v : QuotaLimit → ℕ) (ls : List QuotaLimit)
      → All (λ l. u l ≡ v l) ls
      → map (λ l. to_status l (u l + amount) now) ls ≡ map (λ l. to_status l (v l + amount) now) ls
  statuses_same u v [] h = refl
  statuses_same u v (l ∷ ls) h = rw (h.0, statuses_same u v ls h.1) refl

  increment_all-statuses :
      (ls : List QuotaLimit) (s : c.Counters)
      → Distinct (map key_of ls)
      → (increment_all c s ls scope amount now).1
        ≡ map (λ l. to_status l (used s l + amount) now) ls
  unfolding increment_all
  increment_all-statuses [] s d = refl
  increment_all-statuses (l ∷ ls) s d =
      let s' = (c.increment s (key_of l) amount (window_ms l.period) now).0 in
      let rest : (increment_all c s' ls scope amount now).1
          ≡ map (λ m. to_status m (used s m + amount) now) ls =
        increment_all-statuses ls s' d.1
        ∙ statuses_same (used s') (used s) ls (used_apart l ls s d.0) in
      rw (laws.counted s (key_of l) amount (window_ms l.period) now, rest) refl

  increment_all-used :
      (ls : List QuotaLimit) (s : c.Counters)
      → Distinct (map key_of ls)
      → All (λ l. used (increment_all c s ls scope amount now).0 l ≡ used s l + amount) ls
  unfolding increment_all
  increment_all-used [] s d = tt
  increment_all-used (l ∷ ls) s d =
      let s' = (c.increment s (key_of l) amount (window_ms l.period) now).0 in
      (
        increment_all-others ls s' (key_of l) d.0
            ∙ laws.kept s (key_of l) amount (window_ms l.period) now (window_ms-pos l),
        All-join ls (λ m p q. p ∙ rw q refl) (increment_all-used ls s' d.1) (used_apart l ls s d.0),
      )

  Within : c.Counters → QuotaLimit → Type 0
  Within s l = used s l + amount ≤ l.limit

  found_exceeded :
      (s : c.Counters) (ls : List QuotaLimit)
      → (is_some (find (λ t. t.exceeded) (map (λ l. to_status l (used s l + amount) now) ls))
          ≡ false)
        ↔ All (Within s) ls
  unfolding Within
  found_exceeded s [] = (λ _. tt, λ _. refl)
  found_exceeded s (l ∷ ls) =
      let ih = found_exceeded s ls in
      elim (Bool-cases (ltb l.limit (used s l + amount))) [
        | inl over ↦ rw over (λ h. cc, λ h. absurd (let bad = h.0 in ground arith))
        | inr fits ↦ rw fits (λ h. (ground arith, ih.0 h), λ h. ih.1 h.1)
      ]

  allowed_iff :
      (s : c.Counters) (ls : List QuotaLimit)
      → (not (is_some (find (λ t. t.exceeded) (map (λ l. to_status l (used s l + amount) now) ls)))
          ≡ true)
        ↔ All (Within s) ls
  allowed_iff s ls =
      let f = found_exceeded s ls in (λ h. f.0 (ground arith), λ h. ground (arith, f.1 h))

  -- `consume` reports, for each limit that governs the call, the usage with the amount added. The
  -- call is allowed exactly when it stays within every one of them, and its amount is counted
  -- against each of them even when it is refused.
  pub consume_lem :
      (limits : Limits) (s : c.Counters) (resource : String)
      → Distinct (map key_of (applicable limits resource scope))
      → ((consume c limits s resource scope amount now).1.statuses
          ≡ map (λ l. to_status l (used s l + amount) now) (applicable limits resource scope))
        × (((consume c limits s resource scope amount now).1.allowed ≡ true)
            ↔ All (λ l. used s l + amount ≤ l.limit) (applicable limits resource scope))
        × All
            (λ l. used (consume c limits s resource scope amount now).0 l ≡ used s l + amount)
            (applicable limits resource scope)
  unfolding consume Within
  consume_lem limits s resource d =
      let ls = applicable limits resource scope in
      let e = increment_all-statuses ls s d in
      (e, rw e (allowed_iff s ls), increment_all-used ls s d)
