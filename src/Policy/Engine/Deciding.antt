-- ===== src/Policy/Engine/Deciding.antt =====
-- packages/policy-engine/src/policy-engine.ts: which of the matching rules decides.
use ryvan_os.Policy.Engine.{
  matching_rules, PolicyEngine, evaluate, reason_of, decide, is_allow, resolve, priority_of,
  top_priority, effect_strength, contends, strongest_of,
}
use ryvan_os.Policy.Types.{PolicyRule, PolicyRequest, PolicyEffect, PolicyDecision}
use ryvan_os.Base.Int.{ℤ, int_leb}
use ryvan_os.Base.{
  ℕ, ◌≡◌, refl, sym, ◌∙◌, subst, ◌⊎◌, inl, inr, Bool, true, false, not, ◌&&◌, ◌||◌, List, [], ◌∷◌,
  map, arith, ltb, leb, is_empty, All-weaken, All-of_members, if◌then◌else◌, if_both, Bool-cases,
  keep_if, any, Member, here, there, All, All-member, Member-cons, Member-keep_if, keep_if-Member,
  any-holds, any-of_Member, returns,
}

-- The rules that `d` beats or ties with.
abbrev pub beats : PolicyRule → PolicyRule → Bool
beats d r =
    int_leb (priority_of r) (priority_of d)
    && (not (int_leb (priority_of d) (priority_of r))
        || leb (effect_strength r.effect) (effect_strength d.effect))

top_priority-ge :
    (r : PolicyRule) (rs : List PolicyRule)
    → All (λ x. int_leb (priority_of x) (top_priority r rs) ≡ true) (r ∷ rs)
top_priority-ge r [] = (ground arith, tt)
top_priority-ge r (s ∷ rs) =
    let ih = top_priority-ge s rs in
    (ground arith, All-weaken (s ∷ rs) (λ x h. ground (arith, h)) ih)

top_priority-some :
    (r : PolicyRule) (rs : List PolicyRule) → any (contends (top_priority r rs)) (r ∷ rs) ≡ true
top_priority-some r [] = ground arith
top_priority-some r (s ∷ rs) =
    let (m, i, h) = any-holds (contends (top_priority s rs)) (s ∷ rs) (top_priority-some s rs) in
    if_both (λ (top : ℤ). any (contends top) (r ∷ s ∷ rs) ≡ true)
      (int_leb (priority_of r) (top_priority s rs))
      (any-of_Member (contends (top_priority s rs)) (there {x = r} i) h)
      (any-of_Member (contends (priority_of r)) {a = r} (here {xs = s ∷ rs}) (ground arith))

abbrev IsStrongest : PolicyRule → List PolicyRule → Type 0
IsStrongest d rules =
    Member d rules
    × All (λ x. leb (effect_strength x.effect) (effect_strength d.effect) ≡ true) rules

strongest_of-IsStrongest :
    (c : PolicyRule) (cs : List PolicyRule) → IsStrongest (strongest_of c cs) (c ∷ cs)
strongest_of-IsStrongest c [] = (here, (ground arith, tt))
strongest_of-IsStrongest c (d ∷ cs) =
    go (ltb (effect_strength c.effect) (effect_strength d.effect)) refl
      (strongest_of-IsStrongest c cs) (strongest_of-IsStrongest d cs)
  where
    go :
        (b : Bool)
        → ltb (effect_strength c.effect) (effect_strength d.effect) ≡ b
        → IsStrongest (strongest_of c cs) (c ∷ cs)
        → IsStrongest (strongest_of d cs) (d ∷ cs)
        → IsStrongest (strongest_of (if b then d else c) cs) (c ∷ d ∷ cs)
    go true e old new = (there new.0, (ground (arith, new.1.0), new.1))
    go false e old new = (
      elim (Member-cons old.0) [
        | inl q ↦ subst (λ x. Member x (c ∷ d ∷ cs)) (sym q) here
        | inr n ↦ there (there n)
      ],
      (old.1.0, (ground (arith, old.1.0), old.1.1)),
    )

beats_by :
    (top : ℤ) (d x : PolicyRule)
    → contends top d ≡ true
    → int_leb (priority_of x) top ≡ true
    → (contends top x ≡ true → leb (effect_strength x.effect) (effect_strength d.effect) ≡ true)
    → beats d x ≡ true
beats_by top d x h le f = elim (Bool-cases (contends top x)) [
  | inl k ↦ let g = f k in ground arith
  | inr k ↦ ground arith
]

-- The decisive rule: it matches, and no matching rule outvotes it.
pub record Decides (d : PolicyRule) (matched : List PolicyRule) (decision : PolicyDecision)
    : Type 0 where
  pub is_matched : Member d matched
  pub unbeaten : All (λ r. beats d r ≡ true) matched
  pub effect : decision.effect ≡ d.effect
  pub allowed : decision.allowed ≡ is_allow d.effect
  pub ids : decision.matched_rule_ids ≡ map (λ r. r.id) matched

resolve-Decides :
    (fallback : PolicyEffect) (r : PolicyRule) (rs : List PolicyRule) (now : ℕ)
    → (d : PolicyRule) × Decides d (r ∷ rs) (resolve fallback (r ∷ rs) now)
unfolding resolve
resolve-Decides fallback r rs now = go (keep_if (contends (top_priority r rs)) (r ∷ rs)) refl
  where
    go :
        (cs : List PolicyRule)
        → keep_if (contends (top_priority r rs)) (r ∷ rs) ≡ cs
        → (d : PolicyRule) × Decides d (r ∷ rs) (elim cs [
          | [] ↦ decide r.effect (r ∷ rs) (reason_of r) now
          | c ∷ cs ↦
              let decisive = strongest_of c cs in
              decide decisive.effect (r ∷ rs) (reason_of decisive) now
        ])
    go [] e =
        let (m, i, h) =
          any-holds (contends (top_priority r rs)) (r ∷ rs) (top_priority-some r rs) in
        let kept = keep_if-Member (contends (top_priority r rs)) (r ∷ rs) i h in
        elim (subst (λ xs. Member m xs) e kept) [ ]
    go (c ∷ cs) e =
        let d = strongest_of c cs in
        let (i, strong) = strongest_of-IsStrongest c cs in
        let (matched, h) =
          Member-keep_if (contends (top_priority r rs)) (r ∷ rs)
            (subst (λ xs. Member d xs) (sym e) i) in
        (
          d,
          record {
            is_matched = matched;
            unbeaten = All-of_members (r ∷ rs) (λ x m.
                beats_by (top_priority r rs) d x h
                  (All-member (λ y. int_leb (priority_of y) (top_priority r rs) ≡ true)
                    (top_priority-ge r rs) m)
                  (λ k.
                    All-member
                      (λ y. leb (effect_strength y.effect) (effect_strength d.effect) ≡ true) strong
                      (subst (λ xs. Member x xs) e
                        (keep_if-Member (contends (top_priority r rs)) (r ∷ rs) m k))));
            effect = refl;
            allowed = refl;
            ids = refl;
          },
        )

abbrev pub Resolved : PolicyEngine → PolicyRequest → PolicyDecision → Type 0
Resolved engine request decision =
    ((matching_rules engine request ≡ []) × (decision.effect ≡ engine.default_effect))
    ⊎ ((d : PolicyRule) × Decides d (matching_rules engine request) decision)

resolve-Resolved :
    (engine : PolicyEngine) (request : PolicyRequest) (now : ℕ)
    → Resolved engine request (resolve engine.default_effect (matching_rules engine request) now)
unfolding resolve
resolve-Resolved engine request now = go (matching_rules engine request) refl
  where
    go :
        (rules : List PolicyRule)
        → matching_rules engine request ≡ rules
        → Resolved engine request
            (resolve engine.default_effect (matching_rules engine request) now)
    go [] e = inl (e, rw e refl)
    go (r ∷ rs) e = let (d, h) = resolve-Decides engine.default_effect r rs now in inr (d, rw e h)

-- A request with an action is always decided: by the default effect when no rule matches, and
-- otherwise by a matching rule that no other matching rule outvotes, by a higher priority or, at
-- the same priority, by a stronger effect. The decision names every matching rule.
pub evaluate_lem :
    (engine : PolicyEngine) (request : PolicyRequest) (now : ℕ)
    → is_empty request.action ≡ false
    → (decision : PolicyDecision) × (evaluate engine request now ≡ returns decision)
      × Resolved engine request decision
unfolding evaluate
evaluate_lem engine request now h = (
  resolve engine.default_effect (matching_rules engine request) now,
  rw h refl,
  resolve-Resolved engine request now,
)

evaluate-Resolved :
    (engine : PolicyEngine) (request : PolicyRequest) (now : ℕ) (decision : PolicyDecision)
    → evaluate engine request now ≡ returns decision
    → Resolved engine request decision
unfolding evaluate
evaluate-Resolved engine request now decision e =
    let same : resolve engine.default_effect (matching_rules engine request) now ≡ decision =
      ground arith in
    subst (Resolved engine request) same (resolve-Resolved engine request now)

-- A deny that matches an allowed request is outranked: some matching rule that allows has a higher
-- priority.
pub deny_outranked :
    (engine : PolicyEngine) (request : PolicyRequest) (now : ℕ) (decision : PolicyDecision)
    (r : PolicyRule)
    → evaluate engine request now ≡ returns decision
    → decision.effect ≡ PolicyEffect.allow
    → Member r (matching_rules engine request)
    → r.effect ≡ PolicyEffect.deny
    → (d : PolicyRule) × Member d (matching_rules engine request)
      × (d.effect ≡ PolicyEffect.allow)
      × (int_leb (priority_of d) (priority_of r) ≡ false)
deny_outranked engine request now decision r e a m k =
    go (evaluate-Resolved engine request now decision e)
  where
    outranks :
        (d r : PolicyRule)
        → beats d r ≡ true
        → d.effect ≡ PolicyEffect.allow
        → r.effect ≡ PolicyEffect.deny
        → int_leb (priority_of d) (priority_of r) ≡ false
    outranks d r b p q = ground (arith, b, p, q)

    go :
        Resolved engine request decision
        → (d : PolicyRule) × Member d (matching_rules engine request)
          × (d.effect ≡ PolicyEffect.allow)
          × (int_leb (priority_of d) (priority_of r) ≡ false)
    go (inl (e, f)) = elim (subst (λ xs. Member r xs) e m) [ ]
    go (inr (d, h)) =
        let allows : d.effect ≡ PolicyEffect.allow = sym h.effect ∙ a in
        (
          d,
          h.is_matched,
          allows,
          outranks d r (All-member (λ x. beats d x ≡ true) h.unbeaten m) allows k,
        )
