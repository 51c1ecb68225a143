-- ===== src/Policy/Tests.antt =====
-- Rules and approvals at concrete values.
use ryvan_os.Policy.Approvals.Deciding.{decide_request_lem, decided_as, decidable, has_returned}
use ryvan_os.Policy.Engine.Deciding.{evaluate_lem, Resolved}
use ryvan_os.Policy.Engine.{PolicyEngine, evaluate}
use ryvan_os.Policy.Approvals.{
  lapse, grants, decide_request, ApprovalStatus, ApprovalRequest, Requests,
}
use ryvan_os.Base.Map.{get}
use ryvan_os.Policy.Types.{
  PolicyCondition, PolicyDecision, PolicyRequest, PolicyRule, PolicyEffect, PolicySubject,
}
use ryvan_os.Base.{ℕ, String, ◌≡◌, refl, true, none, some, [], ◌∷◌, if◌then◌else◌, returns}
use ryvan_os.Base.Int.{pos}

abbrev anyone : PolicySubject
anyone = record {
  user_id = some "ada";
  agent_id = none;
  org_id = some "acme";
  project_id = none;
  roles = some ("operator" ∷ []);
}

abbrev everything : PolicyCondition
everything = record {
  actions = none;
  resources = none;
  roles = none;
  agent_ids = none;
  org_ids = none;
  cost_above_usd = none;
  attributes = none;
  predicate = none;
}

abbrev rule : String → PolicyEffect → ℕ → PolicyCondition → PolicyRule
rule id effect priority when = record {
  id = id;
  name = id;
  effect = effect;
  when = when;
  priority = some (pos priority);
  reason = some id;
  enabled = none;
}

abbrev for_tools : PolicyCondition
for_tools = record everything { actions = some ("tool:*" ∷ []) }

abbrev deny_tools : PolicyRule
deny_tools = rule "no-tools" PolicyEffect.deny 1 for_tools

abbrev engine : PolicyEngine
engine = record {
  rules =
      ("no-tools", deny_tools)
      ∷ (
        "operators",
        rule "operators" PolicyEffect.allow 2
            (record everything { roles = some ("operator" ∷ []) }),
      )
      ∷ [];
  default_effect = PolicyEffect.allow;
}

abbrev request : PolicyRequest
request = record {
  action = "tool:send";
  resource = none;
  subject = anyone;
  attributes = none;
  estimated_cost_usd = none;
  quota_resource = none;
  quota_amount = none;
}

evaluate_lem_example :
    (decision : PolicyDecision) × (evaluate engine request 5 ≡ returns decision)
    × Resolved engine request decision
evaluate_lem_example = evaluate_lem engine request 5 refl

abbrev verdict : PolicyDecision
verdict = record {
  effect = PolicyEffect.allow;
  allowed = true;
  reason = "operators";
  matched_rule_ids = "no-tools" ∷ "operators" ∷ [];
  evaluated_at = 5;
}

abbrev waiting : ApprovalRequest
waiting = record {
  id = "appr-1";
  action = "tool:send";
  resource = none;
  subject = anyone;
  reason = "check";
  status = ApprovalStatus.pending;
  requested_at = 0;
  expires_at = 100;
  decided_at = none;
  decided_by = none;
  decision_note = none;
}

abbrev requests : Requests
requests = ("appr-1", waiting) ∷ []

decide_request_lem_example :
    let r = decide_request requests "appr-1" grants "bob" none 99 in
    (has_returned r.1 ≡ decidable waiting "bob" 99)
    × (get r.0 "appr-1"
        ≡ some (
            if decidable waiting "bob" 99
            then decided_as waiting grants "bob" none 99
            else lapse waiting 99))
unfolding get
decide_request_lem_example = decide_request_lem requests "appr-1" grants "bob" none 99 waiting refl
