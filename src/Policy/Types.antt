-- ===== src/Policy/Types.antt =====
-- packages/policy-engine/src/types.ts. Amounts of money are counted in a smallest unit.
use ryvan_os.Base.{ℕ, String, Bool, Option, List}
use ryvan_os.Base.Int.{ℤ}
use ryvan_os.Base.Map.{Map}

pub data PolicyEffect : Type 0 where
  allow deny require_approval : PolicyEffect

pub record PolicySubject : Type 0 where
  pub user_id : Option String
  pub agent_id : Option String
  pub org_id : Option String
  pub project_id : Option String
  pub roles : Option (List String)

-- Attribute values are compared as texts.
pub record PolicyRequest : Type 0 where
  pub action : String
  pub resource : Option String
  pub subject : PolicySubject
  pub attributes : Option (Map String)
  pub estimated_cost_usd : Option ℕ
  pub quota_resource : Option String
  pub quota_amount : Option ℕ

pub record PolicyCondition : Type 0 where
  pub actions : Option (List String)
  pub resources : Option (List String)
  pub roles : Option (List String)
  pub agent_ids : Option (List String)
  pub org_ids : Option (List String)
  pub cost_above_usd : Option ℕ
  pub attributes : Option (Map String)
  pub predicate : Option (PolicyRequest → Bool)

pub record PolicyRule : Type 0 where
  pub id : String
  pub name : String
  pub effect : PolicyEffect
  pub when : PolicyCondition
  pub priority : Option ℤ
  pub reason : Option String
  pub enabled : Option Bool

pub record PolicyDecision : Type 0 where
  pub effect : PolicyEffect
  pub allowed : Bool
  pub reason : String
  pub matched_rule_ids : List String
  pub evaluated_at : ℕ
