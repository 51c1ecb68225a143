-- ===== src/Policy/Service.antt =====
-- packages/policy-engine/src/policy-service.ts: `enforce` over the budgets, the quotas, the rules and
-- the approvals, on the process-local approval store. The timer and the logger are left out.
pub mod Enforcing
pub mod Tests
use Prim.Native.String.{◌++◌ as append}
use ryvan_os.Policy.Budget.{record_spend}
use ryvan_os.Policy.Approvals.{expire_stale}
use ryvan_os.Base.{
  ℕ, String, false, Option, none, some, List, [], ◌∷◌, ◌++◌, map, is_empty, quoted, if◌then◌else◌,
  or_default, option_case, find, thrown, Result, throws, returns, decimal,
}
use ryvan_os.Policy.Types.{PolicyEffect, PolicySubject, PolicyRequest, PolicyDecision}
use ryvan_os.Policy.Engine.{PolicyEngine, evaluate}
use ryvan_os.Policy.Approvals.{
  ApprovalStatus, ApprovalRequest, RaiseApprovalInput, Decision, grants, denies, Requests, raise,
  read, decide_request,
}
use ryvan_os.Policy.Budget.{
  BudgetGuard, BudgetPeriod, BudgetScope, BudgetStatus, check, take_new_warnings,
}
use ryvan_os.Policy.Quota.{
  CounterStore, Limits, QuotaPeriod, QuotaStatus, QuotaOutcome, consume, quota_warnings,
}

-- What the service puts on the event bus, by the id or the effect that it is about.
pub data PolicyEvent : Type 0 where
  cost_exceeded cost_threshold quota_warning quota_exceeded : String → PolicyEvent
  approval_requested approval_granted approval_denied : String → PolicyEvent
  policy_evaluated : PolicyEffect → PolicyEvent
  policy_denied : String → PolicyEvent

-- A decision, with what `enforce` adds to it.
pub record Enforced : Type 0 where
  pub decision : PolicyDecision
  pub approval_id : Option String
  pub budget : Option BudgetStatus
  pub quota : Option QuotaStatus

abbrev pub scope_of : PolicySubject → BudgetScope
scope_of subject = record {
  org_id = subject.org_id;
  user_id = subject.user_id;
  agent_id = subject.agent_id;
}

abbrev budget_period_name : BudgetPeriod → String
budget_period_name BudgetPeriod.hour = "hour"
budget_period_name BudgetPeriod.day = "day"
budget_period_name BudgetPeriod.month = "month"
budget_period_name BudgetPeriod.total = "total"

abbrev quota_period_name : QuotaPeriod → String
quota_period_name QuotaPeriod.minute = "minute"
quota_period_name QuotaPeriod.hour = "hour"
quota_period_name QuotaPeriod.day = "day"
quota_period_name QuotaPeriod.month = "month"

-- `toFixed(4)` of a whole amount.
abbrev fixed : ℕ → String
fixed n = append (decimal n) ".0000"

pub budget_reason : BudgetStatus → String
budget_reason b = append "Budget " (
    append (quoted b.limit_id) (
      append " exceeded: " (
        append (fixed b.spent_usd) (
          append " of "
            (append (fixed b.limit_usd) (append " USD per " (budget_period_name b.period)))))))

quota_reason : QuotaStatus → String
quota_reason q = append "Quota " (
    append (quoted q.limit_id) (
      append " exceeded: " (
        append (decimal q.used) (
          append " of " (
            append (decimal q.limit)
              (append " " (append q.resource (append " per " (quota_period_name q.period)))))))))

abbrev pub denial : String → ℕ → PolicyDecision
denial reason now = record {
  effect = PolicyEffect.deny;
  allowed = false;
  reason = reason;
  matched_rule_ids = [];
  evaluated_at = now;
}

-- `emitDecision`.
abbrev decision_events : PolicyDecision → List PolicyEvent
decision_events d = elim d.effect [
  | PolicyEffect.deny ↦ policy_evaluated d.effect ∷ policy_denied d.reason ∷ []
  | _ ↦ policy_evaluated d.effect ∷ []
]

-- A resource is counted when the request names one.
abbrev pub countable : Option String → Option String
countable none = none
countable (some r) = if is_empty r then none else some r

pub record PolicyService (c : CounterStore) : Type 0 where
  pub engine : PolicyEngine
  pub budgets : BudgetGuard
  pub limits : Limits
  pub counters : c.Counters
  pub approvals : Requests
  pub approval_ttl : ℕ
  pub emitted : List PolicyEvent

module _ (c : CounterStore) where
  abbrev publish : List PolicyEvent → PolicyService c → PolicyService c
  publish events s = record s { emitted = s.emitted ++ events }

  abbrev decided : PolicyDecision → PolicyService c → PolicyService c × Result Enforced
  decided d s = (
    publish (decision_events d) s,
    returns (record { decision = d; approval_id = none; budget = none; quota = none }),
  )

  abbrev approval_input : PolicyRequest → PolicyDecision → RaiseApprovalInput
  approval_input request d = record {
    action = request.action;
    resource = request.resource;
    subject = request.subject;
    reason = d.reason;
    ttl_ms = none;
  }

  -- From the raised approval on.
  with_approval :
      PolicyDecision
      → Result (Requests × ApprovalRequest)
      → PolicyService c
      → PolicyService c × Result Enforced
  with_approval d (throws e) s = (s, throws e)
  with_approval d (returns (approvals, approval)) s = (
    publish (approval_requested approval.id ∷ decision_events d)
        (record s { approvals = approvals }),
    returns (record { decision = d; approval_id = some approval.id; budget = none; quota = none }),
  )

  by_effect :
      PolicyEffect
      → PolicyDecision
      → PolicyService c
      → PolicyRequest
      → String
      → ℕ
      → PolicyService c × Result Enforced
  unfolding with_approval
  by_effect PolicyEffect.require_approval d s request id now =
      with_approval d (raise s.approvals (approval_input request d) s.approval_ttl id now) s
  by_effect PolicyEffect.allow d s request id now = decided d s
  by_effect PolicyEffect.deny d s request id now = decided d s

  -- From the decision of the rules on; `id` is what `generateId` returns.
  by_rules :
      Result PolicyDecision
      → PolicyService c
      → PolicyRequest
      → String
      → ℕ
      → PolicyService c × Result Enforced
  unfolding by_effect
  by_rules (throws e) s request id now = (s, throws e)
  by_rules (returns d) s request id now = by_effect d.effect d s request id now

  -- `outcome.exceeded!`.
  quota_denied : Option QuotaStatus → PolicyService c → ℕ → PolicyService c × Result Enforced
  quota_denied none s now = (s, throws (thrown "exceeded"))
  quota_denied (some q) s now =
      let d = denial (quota_reason q) now in
      (
        publish (quota_exceeded q.limit_id ∷ decision_events d) s,
        returns (record { decision = d; approval_id = none; budget = none; quota = some q }),
      )

  by_quota :
      QuotaOutcome
      → PolicyService c
      → PolicyRequest
      → String
      → ℕ
      → PolicyService c × Result Enforced
  unfolding by_rules quota_denied quota_reason
  by_quota outcome s request id now =
      let warned =
        publish (map (λ q. quota_warning q.limit_id) (quota_warnings s.limits outcome.statuses))
          s in
      if outcome.allowed
      then by_rules (evaluate s.engine request now) warned request id now
      else quota_denied outcome.exceeded warned now

  -- From the budget warnings on.
  within_budgets : PolicyService c → PolicyRequest → String → ℕ → PolicyService c × Result Enforced
  unfolding by_quota by_rules
  within_budgets s request id now =
      let (budgets, warnings) = take_new_warnings s.budgets now in
      let warned =
        publish (map (λ (b : BudgetStatus). cost_threshold b.limit_id) warnings)
          (record s { budgets = budgets }) in
      option_case (countable request.quota_resource)
        (by_rules (evaluate s.engine request now) warned request id now)
        (λ resource.
          let (counters, outcome) =
            consume c s.limits s.counters resource (scope_of request.subject)
              (or_default request.quota_amount 1) now in
          by_quota outcome (record warned { counters = counters }) request id now)

  abbrev pub breached : PolicyService c → PolicyRequest → ℕ → Option BudgetStatus
  breached s request now =
      find (λ b. b.exceeded)
        (check s.budgets (scope_of request.subject) (or_default request.estimated_cost_usd 0) now)

  unfoldable pub enforce :
      PolicyService c → PolicyRequest → String → ℕ → PolicyService c × Result Enforced
  unfolding within_budgets budget_reason
  enforce s request id now =
      option_case (breached s request now) (within_budgets s request id now) (λ b.
        let d = denial (budget_reason b) now in
        (
          publish (cost_exceeded b.limit_id ∷ decision_events d) s,
          returns (record { decision = d; approval_id = none; budget = some b; quota = none }),
        ))

  unfoldable pub request_approval :
      PolicyService c → RaiseApprovalInput → String → ℕ → PolicyService c × Result ApprovalRequest
  request_approval s input id now = elim (raise s.approvals input s.approval_ttl id now) [
    | throws e ↦ (s, throws e)
    | returns (approvals, approval) ↦ (
      publish (approval_requested approval.id ∷ []) (record s { approvals = approvals }),
      returns approval,
    )
  ]

  -- An unknown id reads as expired.
  unfoldable pub approval_status : PolicyService c → String → ℕ → PolicyService c × ApprovalStatus
  approval_status s id now =
      let (approvals, found) = read s.approvals id now in
      (record s { approvals = approvals }, option_case found ApprovalStatus.expired (λ a. a.status))

  abbrev decision_event : Decision → String → PolicyEvent
  decision_event grants id = approval_granted id
  decision_event denies id = approval_denied id

  -- `grantApproval` and `denyApproval`.
  unfoldable pub decide_service :
      PolicyService c
      → String
      → Decision
      → String
      → Option String
      → ℕ
      → PolicyService c × Result ApprovalRequest
  decide_service s id decision decided_by remark now =
      let (approvals, answer) = decide_request s.approvals id decision decided_by remark now in
      (
        elim answer [
          | throws e ↦ record s { approvals = approvals }
          | returns a ↦
              publish (decision_event decision a.id ∷ []) (record s { approvals = approvals })
        ],
        answer,
      )

  -- `recordSpend`.
  unfoldable pub record_service_spend :
      PolicyService c → BudgetScope → ℕ → Option String → ℕ → PolicyService c
  record_service_spend s scope amount reason now = record s {
    budgets = record_spend s.budgets scope amount reason now;
  }

  unfoldable pub sweep_approvals : PolicyService c → ℕ → PolicyService c
  sweep_approvals s now =
      let (approvals, swept) = expire_stale s.approvals now in
      publish (map (λ (a : ApprovalRequest). approval_denied a.id) swept)
        (record s { approvals = approvals })
