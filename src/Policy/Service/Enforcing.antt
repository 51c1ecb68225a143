-- ===== src/Policy/Service/Enforcing.antt =====
-- packages/policy-engine/src/policy-service.ts: what an enforced decision rests on.
use ryvan_os.Policy.Engine.{evaluate}
use ryvan_os.Policy.Budget.{BudgetStatus, spent_usd, scope_covers}
use ryvan_os.Policy.Budget.Spending.{check_lem}
use ryvan_os.Policy.Quota.{consume, QuotaOutcome, QuotaStatus}
use ryvan_os.Policy.Service.{
  denial, countable, within_budgets, by_quota, by_rules, scope_of, quota_denied, enforce, breached,
  budget_reason,
}
use ryvan_os.Base.Map.{values}
use ryvan_os.Policy.Budget.{check}
use ryvan_os.Base.{
  ℕ, ◌+◌, String, ◌≡◌, refl, sym, ◌∙◌, subst, inl, inr, Bool, true, false, Option, none, some, List,
  [], ◌∷◌, arith, ltb, is_some, or_default, Bool-cases, Option-cases, keep_if, any, find, Result,
  throws, returns,
}
use ryvan_os.Policy.Types.{PolicyEffect, PolicyRequest, PolicyDecision}
use ryvan_os.Policy.Approvals.{ApprovalRequest, Requests}
use ryvan_os.Policy.Quota.{CounterStore}
use ryvan_os.Policy.Service.{PolicyService, Enforced, by_effect, with_approval}

is_some-find {ℓ} : {A : Type ℓ} (p : A → Bool) (xs : List A) → is_some (find p xs) ≡ any p xs
is_some-find p [] = refl
is_some-find p (x ∷ xs) = ground (arith, is_some-find p xs)

module _ (c : CounterStore) where
  -- Where the decision of a result comes from: the rules, or a denial before them.
  Rests : Result PolicyDecision → Result Enforced → Type 0
  Rests rules answer =
      (e : Enforced) → answer ≡ returns e → e.decision.allowed ≡ true → rules ≡ returns e.decision

  with_approval-Rests :
      (d : PolicyDecision) (raised : Result (Requests × ApprovalRequest)) (s : PolicyService c)
      → Rests (returns d) (with_approval c d raised s).1
  unfolding Rests with_approval
  with_approval-Rests d (throws x) s e h a = cc
  with_approval-Rests d (returns (approvals, approval)) s e h a = ground arith

  by_effect-Rests :
      (effect : PolicyEffect) (d : PolicyDecision) (s : PolicyService c) (r : PolicyRequest)
      (id : String) (now : ℕ)
      → Rests (returns d) (by_effect c effect d s r id now).1
  unfolding by_effect Rests
  by_effect-Rests PolicyEffect.require_approval d s r id now e h a = with_approval-Rests d _ s e h a
  by_effect-Rests PolicyEffect.allow d s r id now e h a = ground arith
  by_effect-Rests PolicyEffect.deny d s r id now e h a = ground arith

  by_rules-Rests :
      (rules : Result PolicyDecision) (s : PolicyService c) (r : PolicyRequest) (id : String)
      (now : ℕ)
      → Rests rules (by_rules c rules s r id now).1
  unfolding by_rules Rests
  by_rules-Rests (throws x) s r id now e h a = cc
  by_rules-Rests (returns d) s r id now e h a = by_effect-Rests d.effect d s r id now e h a

  quota_denied-refuses :
      (q : Option QuotaStatus) (s : PolicyService c) (now : ℕ) (e : Enforced)
      → (quota_denied c q s now).1 ≡ returns e
      → e.decision.allowed ≡ false
  unfolding quota_denied
  quota_denied-refuses none s now e h = cc
  quota_denied-refuses (some q) s now e h = ground arith

  by_quota-Rests :
      (outcome : QuotaOutcome) (s : PolicyService c) (r : PolicyRequest) (id : String) (now : ℕ)
      (e : Enforced)
      → (by_quota c outcome s r id now).1 ≡ returns e
      → e.decision.allowed ≡ true
      → (outcome.allowed ≡ true) × (evaluate s.engine r now ≡ returns e.decision)
  unfolding by_quota Rests
  by_quota-Rests outcome s r id now e h a = elim (Bool-cases outcome.allowed) [
    | inl fits ↦ (fits, by_rules-Rests (evaluate s.engine r now) _ r id now e (rw fits at h) a)
    | inr over ↦
        absurd (let refused = quota_denied-refuses outcome.exceeded _ now e (rw over at h) in cc)
  ]

  -- What `consume` answers for the request.
  abbrev pub quota_outcome : PolicyService c → PolicyRequest → String → ℕ → QuotaOutcome
  quota_outcome s r resource now =
      (consume c s.limits s.counters resource (scope_of r.subject) (or_default r.quota_amount 1)
        now).1

  within_budgets-Rests :
      (s : PolicyService c) (r : PolicyRequest) (id : String) (now : ℕ) (e : Enforced)
      → (within_budgets c s r id now).1 ≡ returns e
      → e.decision.allowed ≡ true
      → ((resource : String)
          → countable r.quota_resource ≡ some resource
          → (quota_outcome s r resource now).allowed ≡ true)
        × (evaluate s.engine r now ≡ returns e.decision)
  unfolding within_budgets Rests
  within_budgets-Rests s r id now e h a = elim (Option-cases (countable r.quota_resource)) [
    | inl uncounted ↦ (
      λ resource named. cc,
      by_rules-Rests (evaluate s.engine r now) _ r id now e (rw uncounted at h) a,
    )
    | inr (resource, named) ↦
        let (fits, rules) =
          by_quota-Rests (quota_outcome s r resource now) _ r id now e (rw named at h) a in
        (
          λ other again.
              let same : resource ≡ other = ground (arith, named, again) in
              subst (λ (k : String). (quota_outcome s r k now).allowed ≡ true) same fits,
          rules,
        )
  ]

  -- Whether some budget that covers the request is below its spend with the estimate added.
  abbrev pub overspent : PolicyService c → PolicyRequest → ℕ → Bool
  overspent s r now =
      any
        (λ l.
          ltb l.limit_usd
            (spent_usd s.budgets l.scope l.period now + or_default r.estimated_cost_usd 0))
        (keep_if (λ l. scope_covers l.scope (scope_of r.subject)) (values s.budgets.limits))

  overspent-breached :
      (s : PolicyService c) (r : PolicyRequest) (now : ℕ)
      → is_some (breached c s r now) ≡ overspent s r now
  overspent-breached s r now =
      is_some-find (λ (b : BudgetStatus). b.exceeded)
        (check s.budgets (scope_of r.subject) (or_default r.estimated_cost_usd 0) now)
      ∙ (check_lem s.budgets (scope_of r.subject) (or_default r.estimated_cost_usd 0) now).1

  -- A request is allowed only if no budget that covers it would be overspent, the quotas of the
  -- resource that it names have room for it, and the rules allow it with this very decision.
  pub enforce_allowed :
      (s : PolicyService c) (r : PolicyRequest) (id : String) (now : ℕ) (e : Enforced)
      → (enforce c s r id now).1 ≡ returns e
      → e.decision.allowed ≡ true
      → (overspent s r now ≡ false)
        × ((resource : String)
            → countable r.quota_resource ≡ some resource
            → (quota_outcome s r resource now).allowed ≡ true)
        × (evaluate s.engine r now ≡ returns e.decision)
  unfolding enforce
  enforce_allowed s r id now e h a = elim (Option-cases (breached c s r now)) [
    | inr (b, found) ↦ absurd (let bad = rw found at h in ground arith)
    | inl clear ↦
        let (quota, rules) = within_budgets-Rests s r id now e (rw clear at h) a in
        (sym (overspent-breached s r now) ∙ rw clear refl, quota, rules)
  ]

  -- When some budget that covers the request would be overspent, it is denied whatever the rules
  -- say, and neither a quota nor an approval is touched.
  pub overspent_denied :
      (s : PolicyService c) (r : PolicyRequest) (id : String) (now : ℕ)
      → overspent s r now ≡ true
      → (e : Enforced) × ((enforce c s r id now).1 ≡ returns e)
        × (e.decision.effect ≡ PolicyEffect.deny)
        × (e.decision.allowed ≡ false)
        × ((enforce c s r id now).0.counters ≡ s.counters)
        × ((enforce c s r id now).0.approvals ≡ s.approvals)
  unfolding enforce
  overspent_denied s r id now over = elim (Option-cases (breached c s r now)) [
    | inl clear ↦
        absurd (let w = overspent-breached s r now in let bad = rw (clear, over) at w in cc)
    | inr (b, found) ↦ (
      record {
        decision = denial (budget_reason b) now;
        approval_id = none;
        budget = some b;
        quota = none;
      },
      rw found refl,
      refl,
      refl,
      rw found refl,
      rw found refl,
    )
  ]
