-- ===== src/Policy/Matcher.antt =====
-- packages/policy-engine/src/matcher.ts: whether a rule's condition fits a request.
use ryvan_os.Common.Glob.{matches_glob}
use ryvan_os.Base.Map.{get, Map}
use ryvan_os.Policy.Types.{PolicyRequest, PolicyCondition}
use ryvan_os.Base.{
  String, Bool, true, false, not, ◌&&◌, Option, some, List, [], ◌∷◌, ltb, ◌==◌, is_empty,
  or_default, option_case, opt_eq, any,
}

-- `xs.includes(x)`.
abbrev pub includes : List String → String → Bool
includes xs x = any (λ y. y == x) xs

-- An optional field that must be present, not empty, and one of the listed ones.
abbrev pub listed : Option String → List String → Bool
listed value ids = option_case value false (λ v. not (is_empty v) && includes ids v)

abbrev pub attributes_match : Map String → Map String → Bool
attributes_match [] held = true
attributes_match ((key, expected) ∷ rest) held =
    opt_eq (get held key) (some expected) && attributes_match rest held

unfoldable pub matches_condition : PolicyCondition → PolicyRequest → Bool
matches_condition c request =
    option_case c.actions true (matches_glob request.action)
    && option_case c.resources true (λ patterns.
      option_case request.resource false (λ r. not (is_empty r) && matches_glob r patterns))
    && option_case c.roles true
        (λ roles. any (includes (or_default request.subject.roles [])) roles)
    && option_case c.agent_ids true (listed request.subject.agent_id)
    && option_case c.org_ids true (listed request.subject.org_id)
    && option_case c.cost_above_usd true
        (λ cost. ltb cost (or_default request.estimated_cost_usd 0))
    && option_case c.attributes true
        (λ expected. attributes_match expected (or_default request.attributes []))
    && option_case c.predicate true (λ p. p request)
