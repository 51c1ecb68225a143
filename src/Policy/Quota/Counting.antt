-- ===== src/Policy/Quota/Counting.antt =====
-- packages/policy-engine/src/quota-guard.ts: the process-local counters count, and whose counter a
-- caller's usage goes to.
use text.Mathlib.TextLemmas.{append_assoc as text_assoc, append_cancel_left, append_cancel_right}
use ryvan_os.Policy.Quota.{window_ms, or_star}
use ryvan_os.Base.{
  ℕ, ◌+◌, ◌/◌, ◌<◌, String, ◌≡◌, refl, sym, ap, ◌∙◌, inl, inr, true, false, Option, none, some,
  List, [], ◌∷◌, arith, eq_iff, ◌==◌, option_case, Bool-cases, eq_self, decimal, join_colons,
}
use ryvan_os.Base.Map.{Map, get}
use Prim.Native.String.{◌++◌ as append}
use ryvan_os.Policy.Budget.{BudgetScope}
use ryvan_os.Policy.Quota.{QuotaLimit, counter_key}
use ryvan_os.Policy.Quota.Consuming.{Counts}
use ryvan_os.Policy.Quota.Counters.{Counter, live_at, read_counter, increment_counter, in_memory}
use ryvan_os.Policy.Quota.Counters.Refining.{
  bump, read_counter-value, value_of_live, get-increment_counter, increment_counter-value,
}

abbrev value_at : ℕ → Option Counter → ℕ
value_at now o = option_case (live_at now o) 0 (λ e. e.value)

read-value :
    (m : Map Counter) (k : String) (now : ℕ) → (in_memory.read m k now).1 ≡ value_at now (get m k)
read-value m k now =
    value_of_live (live_at now (get m k)) (read_counter m k now).1 (read_counter-value m k now)

value_at-bump :
    (o : Option Counter) (by ttl now : ℕ)
    → 0 < ttl
    → value_at now (some (bump (live_at now o) by ttl now)) ≡ value_at now o + by
value_at-bump none by ttl now h = ground arith
value_at-bump (some e) by ttl now h = ground arith

bump-value :
    (o : Option Counter) (by ttl now : ℕ)
    → (bump o by ttl now).value ≡ option_case o 0 (λ e. e.value) + by
bump-value none by ttl now = refl
bump-value (some e) by ttl now = refl

pub in_memory-Counts : Counts in_memory
in_memory-Counts = record {
  counted = λ m k by ttl now.
      increment_counter-value m k by ttl now
      ∙ bump-value (live_at now (get m k)) by ttl now
      ∙ ap (λ (n : ℕ). n + by) (sym (read-value m k now));
  kept = λ m k by ttl now h.
      read-value (increment_counter m k by ttl now).0 k now
      ∙ ap (value_at now) {y = some (bump (live_at now (get m k)) by ttl now)}
          (get-increment_counter m k by ttl now k ∙ rw (eq_self k) refl)
      ∙ value_at-bump (get m k) by ttl now h
      ∙ ap (λ (n : ℕ). n + by) (sym (read-value m k now));
  others = λ m k j by ttl now n.
      read-value (increment_counter m k by ttl now).0 j now
      ∙ ap (value_at now) {y = get m j} (get-increment_counter m k by ttl now j ∙ rw n refl)
      ∙ sym (read-value m j now);
}

-- The rest after a first part that is the same.
after_part :
    (p a b : String) (xs ys : List String)
    → join_colons (p ∷ a ∷ xs) ≡ join_colons (p ∷ b ∷ ys)
    → join_colons (a ∷ xs) ≡ join_colons (b ∷ ys)
after_part p a b xs ys h = append_cancel_left ":" _ _ (append_cancel_left p _ _ h)

same_user :
    (id resource org u v agent : String) (rest : List String)
    → join_colons ("quota" ∷ id ∷ resource ∷ org ∷ u ∷ agent ∷ rest)
      ≡ join_colons ("quota" ∷ id ∷ resource ∷ org ∷ v ∷ agent ∷ rest)
    → u ≡ v
same_user id resource org u v agent rest h =
    let h1 =
      after_part "quota" id id (resource ∷ org ∷ u ∷ agent ∷ rest)
        (resource ∷ org ∷ v ∷ agent ∷ rest) h in
    let h2 = after_part id resource resource (org ∷ u ∷ agent ∷ rest) (org ∷ v ∷ agent ∷ rest) h1 in
    let h3 = after_part resource org org (u ∷ agent ∷ rest) (v ∷ agent ∷ rest) h2 in
    append_cancel_right u v (append ":" (join_colons (agent ∷ rest)))
      (after_part org u v (agent ∷ rest) (agent ∷ rest) h3)

-- Two users are counted apart under a limit for their whole organization: what one consumes leaves
-- the counter of the other as it was, so together they may use it twice.
pub users_counted_apart :
    (limit : QuotaLimit) (caller : BudgetScope) (u v : String) (now : ℕ)
    → (u == v) ≡ false
    → (counter_key limit (record caller { user_id = some u }) now
        == counter_key limit (record caller { user_id = some v }) now)
      ≡ false
unfolding counter_key
users_counted_apart limit caller u v now h =
    elim (Bool-cases (
      counter_key limit (record caller { user_id = some u }) now
      == counter_key limit (record caller { user_id = some v }) now)) [
        | inr apart ↦ apart
        | inl same ↦ absurd (
            let e : u ≡ v =
              same_user limit.id limit.resource (or_star caller.org_id) u v
                (or_star caller.agent_id) (decimal (now / window_ms limit.period) ∷ [])
                ((eq_iff _ _).0 same) in
            let t : (u == v) ≡ true = (eq_iff u v).1 e in cc)
      ]

-- A colon in an id moves the border between two parts of the key: the user `z` of the organization
-- `x:y` and the user `y:z` of the organization `x` share one counter.
pub colons_collide :
    (limit : QuotaLimit) (x y z : String) (agent : Option String) (now : ℕ)
    → counter_key limit
        (record { org_id = some (append x (append ":" y)); user_id = some z; agent_id = agent })
        now
      ≡ counter_key limit
          (record { org_id = some x; user_id = some (append y (append ":" z)); agent_id = agent })
          now
unfolding counter_key
colons_collide limit x y z agent now = simp text_assoc
