-- ===== src/Policy/Engine.antt =====
-- packages/policy-engine/src/policy-engine.ts: the rule store and the decision procedure.
pub mod Deciding
use ryvan_os.Policy.Matcher.{matches_condition}
use ryvan_os.Policy.Types.{PolicyDecision, PolicyRequest, PolicyRule, PolicyEffect}
use ryvan_os.Base.Map.{has, set, values, Map, get, delete}
use Prim.Native.String.{◌++◌ as append}
use ryvan_os.Base.Int.{ℤ, pos, int_leb}
use ryvan_os.Base.{
  ℕ, String, Bool, true, false, ◌&&◌, some, List, [], ◌∷◌, map, ltb, is_empty, quoted,
  if◌then◌else◌, or_default, option_case, keep_if, validation_error, Result, throws, returns, ◌>>◌,
  throw_if,
}

abbrev pub effect_strength : PolicyEffect → ℕ
effect_strength PolicyEffect.allow = 0
effect_strength PolicyEffect.require_approval = 1
effect_strength PolicyEffect.deny = 2

abbrev pub is_allow : PolicyEffect → Bool
is_allow PolicyEffect.allow = true
is_allow _ = false

abbrev effect_name : PolicyEffect → String
effect_name PolicyEffect.allow = "allow"
effect_name PolicyEffect.deny = "deny"
effect_name PolicyEffect.require_approval = "require_approval"

pub record PolicyEngine : Type 0 where
  pub rules : Map PolicyRule
  pub default_effect : PolicyEffect

-- Effects other than the three, and a missing condition, cannot be written here.
unfoldable pub add_rule : PolicyEngine → PolicyRule → Result PolicyEngine
add_rule engine rule =
    throw_if (is_empty rule.id) (validation_error "rule.id")
    >> throw_if (is_empty rule.name) (validation_error "rule.name")
    >> returns (record engine { rules = set engine.rules rule.id rule })

unfoldable pub remove_rule : PolicyEngine → String → PolicyEngine × Bool
remove_rule engine id = (record engine { rules = delete engine.rules id }, has engine.rules id)

unfoldable pub set_enabled : PolicyEngine → String → Bool → Result PolicyEngine
set_enabled engine id enabled =
    option_case (get engine.rules id) (throws (validation_error "ruleId")) (λ rule.
      returns
        (record engine { rules = set engine.rules id (record rule { enabled = some enabled }) }))

-- A rule counts unless `enabled` is false.
abbrev pub applies : PolicyRequest → PolicyRule → Bool
applies request rule = or_default rule.enabled true && matches_condition rule.when request

unfoldable pub matching_rules : PolicyEngine → PolicyRequest → List PolicyRule
matching_rules engine request = keep_if (applies request) (values engine.rules)

abbrev pub priority_of : PolicyRule → ℤ
priority_of rule = or_default rule.priority (pos 0)

abbrev int_max : ℤ → ℤ → ℤ
int_max a b = if int_leb a b then b else a

-- `Math.max(...)` of the priorities of one rule and more.
abbrev pub top_priority : PolicyRule → List PolicyRule → ℤ
top_priority rule [] = priority_of rule
top_priority rule (r ∷ rs) = int_max (priority_of rule) (top_priority r rs)

abbrev pub contends : ℤ → PolicyRule → Bool
contends top rule = int_leb top (priority_of rule) && int_leb (priority_of rule) top

-- `reduce` over the contenders, which starts from the first.
abbrev pub strongest_of : PolicyRule → List PolicyRule → PolicyRule
strongest_of strongest [] = strongest
strongest_of strongest (rule ∷ rules) =
    strongest_of
      (if ltb (effect_strength strongest.effect) (effect_strength rule.effect)
        then rule
        else strongest)
      rules

abbrev pub decide : PolicyEffect → List PolicyRule → String → ℕ → PolicyDecision
decide effect matched reason now = record {
  effect = effect;
  allowed = is_allow effect;
  reason = reason;
  matched_rule_ids = map (λ r. r.id) matched;
  evaluated_at = now;
}

abbrev default_reason : PolicyEffect → String
default_reason effect =
    append "No policy rule matched; default effect "
      (append (quoted (effect_name effect)) " applied")

abbrev reason_of : PolicyRule → String
reason_of rule = or_default rule.reason (
    append "Rule "
      (append (quoted rule.name) (append " applied effect " (quoted (effect_name rule.effect)))))

-- The decision on the rules that match; `contenders` is never empty when a rule matches.
unfoldable pub resolve : PolicyEffect → List PolicyRule → ℕ → PolicyDecision
resolve default_effect [] now = decide default_effect [] (default_reason default_effect) now
resolve default_effect (r ∷ rs) now = elim (keep_if (contends (top_priority r rs)) (r ∷ rs)) [
  | [] ↦ decide r.effect (r ∷ rs) (reason_of r) now
  | c ∷ cs ↦
      let decisive = strongest_of c cs in decide decisive.effect (r ∷ rs) (reason_of decisive) now
]

unfoldable pub evaluate : PolicyEngine → PolicyRequest → ℕ → Result PolicyDecision
evaluate engine request now =
    throw_if (is_empty request.action) (validation_error "request.action")
    >> returns (resolve engine.default_effect (matching_rules engine request) now)
