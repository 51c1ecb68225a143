-- ===== src/Policy/Service/Tests.antt =====
-- A service with one budget, one quota and no rules.
use ryvan_os.Base.Map.{get}
use ryvan_os.Policy.Quota.{consume, QuotaPeriod}
use ryvan_os.Policy.Engine.{matching_rules, resolve, evaluate}
use ryvan_os.Policy.Types.{PolicyRequest, PolicyDecision, PolicyEffect}
use ryvan_os.Policy.Service.Enforcing.{enforce_allowed, quota_outcome, overspent}
use ryvan_os.Policy.Budget.{status_for, check, BudgetPeriod, spent_usd, BudgetScope}
use ryvan_os.Policy.Service.{countable, PolicyService, enforce, Enforced}
use ryvan_os.Base.{ℕ, String, ◌≡◌, refl, true, false, none, some, [], ◌∷◌, returns}
use ryvan_os.Policy.Quota.Counters.{increment_counter, in_memory}

abbrev acme : BudgetScope
acme = record { org_id = some "acme"; user_id = none; agent_id = none }

abbrev service : PolicyService in_memory
service = record {
  engine = record { rules = []; default_effect = PolicyEffect.allow };
  budgets = record {
    limits =
        (
          "day",
          record {
            id = "day";
            scope = acme;
            period = BudgetPeriod.day;
            limit_usd = 100;
            warn_at = none;
          },
        )
        ∷ [];
    records = [];
    max_records = 10;
    warned = [];
  };
  limits =
      (
        "plan",
        record {
          id = "plan";
          resource = "missions";
          scope = acme;
          period = QuotaPeriod.minute;
          limit = 2;
          warn_at = none;
        },
      )
      ∷ [];
  counters = [];
  approvals = [];
  approval_ttl = 1000;
  emitted = [];
}

abbrev launch : ℕ → PolicyRequest
launch cost = record {
  action = "mission:execute";
  resource = none;
  subject = record {
    user_id = none;
    agent_id = none;
    org_id = some "acme";
    project_id = none;
    roles = none;
  };
  attributes = none;
  estimated_cost_usd = some cost;
  quota_resource = some "missions";
  quota_amount = none;
}

abbrev allowed_decision : PolicyDecision
allowed_decision = record {
  effect = PolicyEffect.allow;
  allowed = true;
  reason = "No policy rule matched; default effect \"allow\" applied";
  matched_rule_ids = [];
  evaluated_at = 7;
}

abbrev allowed : Enforced
allowed = record { decision = allowed_decision; approval_id = none; budget = none; quota = none }

enforces : (enforce in_memory service (launch 40) "apr" 7).1 ≡ returns allowed
unfolding enforce check status_for spent_usd consume increment_counter get evaluate resolve
    matching_rules
enforces = refl

enforce_allowed_example :
    (overspent in_memory service (launch 40) 7 ≡ false)
    × ((resource : String)
        → countable (some "missions") ≡ some resource
        → (quota_outcome in_memory service (launch 40) resource 7).allowed ≡ true)
    × (evaluate service.engine (launch 40) 7 ≡ returns allowed_decision)
enforce_allowed_example =
    enforce_allowed in_memory service (launch 40) "apr" 7 allowed enforces refl
