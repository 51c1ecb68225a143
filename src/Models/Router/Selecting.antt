-- ===== src/Models/Router/Selecting.antt =====
-- packages/models/src/router.ts: which model `selectModel` picks.
use ryvan_os.Models.Registry.{ModelConfig, RoutingHints, is_capable}
use ryvan_os.Models.Router.{
  ModelRouter, is_affordable, local_of, preferring_local, placed, candidates, price, first_model,
  select_model,
}
use ryvan_os.Base.Map.{values}
use ryvan_os.Base.{
  ◌≤◌, ◌≡◌, refl, subst, ◌⊎◌, inl, inr, true, false, List, [], ◌∷◌, arith, ltb, if_both, Bool-cases,
  length, keep_if, Member, here, there, All-member, Member-cons, Member-keep_if, keep_if-Member,
  returns, sort_by, IsSorted, sort_by-IsSorted, sort_by-Member, Member-sort_by,
}

-- A model that the hints allow, and that is not passed over for a local one.
pub record Eligible (r : ModelRouter) (hints : RoutingHints) (m : ModelConfig) : Type 0 where
  pub known : Member m (values r.registry.models)
  pub capable : is_capable hints.required_capabilities m ≡ true
  pub affordable : is_affordable hints m ≡ true
  pub place :
      (m.is_local ≡ true) ⊎ ((hints.privacy_sensitive ≡ false) × (hints.prefer_local ≡ false))

preferring-Member :
    (ms : List ModelConfig) {m : ModelConfig} → Member m (preferring_local ms) → Member m ms
preferring-Member ms {m} i = elim (Bool-cases (ltb 0 (length (keep_if local_of ms)))) [
  | inl some_local ↦ (Member-keep_if local_of ms (rw some_local at i)).0
  | inr no_local ↦ rw no_local at i
]

Member-local : {ms : List ModelConfig} {m : ModelConfig} → Member m ms → ltb 0 (length ms) ≡ true
Member-local here = ground arith
Member-local (there i) = ground arith

local-preferring :
    (ms : List ModelConfig) {m : ModelConfig}
    → Member m ms
    → m.is_local ≡ true
    → Member m (preferring_local ms)
local-preferring ms {m} i l =
    let among : Member m (keep_if local_of ms) = keep_if-Member local_of ms i l in
    rw (Member-local among) among

placed-Member :
    (hints : RoutingHints) (ms : List ModelConfig) {m : ModelConfig}
    → Member m (placed hints ms)
    → Member m ms × (hints.privacy_sensitive ≡ true → m.is_local ≡ true)
placed-Member hints ms {m} i = elim (Bool-cases hints.privacy_sensitive) [
  | inl sensitive ↦
      let (among, is_local) = Member-keep_if local_of ms (rw sensitive at i) in
      (among, (λ q. is_local))
  | inr public ↦ (
    elim (Bool-cases hints.prefer_local) [
      | inl prefers ↦ preferring-Member ms (rw (public, prefers) at i)
      | inr open_to ↦ rw (public, open_to) at i
    ],
    (λ q. cc),
  )
]

Eligible-placed :
    (hints : RoutingHints) (ms : List ModelConfig) {m : ModelConfig}
    → Member m ms
    → (m.is_local ≡ true) ⊎ ((hints.privacy_sensitive ≡ false) × (hints.prefer_local ≡ false))
    → Member m (placed hints ms)
Eligible-placed hints ms {m} i (inr (public, open_to)) = rw (public, open_to) i
Eligible-placed hints ms {m} i (inl l) =
    if_both (Member m) hints.privacy_sensitive (keep_if-Member local_of ms i l)
      (if_both (Member m) hints.prefer_local (local-preferring ms i l) i)

first-IsSorted :
    (ms : List ModelConfig) {m : ModelConfig}
    → IsSorted price ms
    → first_model ms ≡ returns m
    → Member m ms × ((o : ModelConfig) → Member o ms → price m ≤ price o)
first-IsSorted [] s h = cc
first-IsSorted (x ∷ xs) {m} s h =
    let same : x ≡ m = ground arith in
    subst
      (λ (y : ModelConfig).
        Member y (x ∷ xs) × ((o : ModelConfig) → Member o (x ∷ xs) → price y ≤ price o))
      same
      (
        here,
        (λ o i. elim (Member-cons i) [
          | inl q ↦ rw q (omega arith)
          | inr n ↦ All-member (λ b. price x ≤ price b) s.0 n
        ]),
      )

-- A model that is picked is registered, has the required capabilities, costs no more than the
-- call may, and is local when the request is sensitive; and none that is eligible has a lower
-- price.
pub select_model_lem :
    (r : ModelRouter) (hints : RoutingHints) (m : ModelConfig)
    → select_model r hints ≡ returns m
    → Member m (values r.registry.models)
      × (is_capable hints.required_capabilities m ≡ true)
      × (is_affordable hints m ≡ true)
      × (hints.privacy_sensitive ≡ true → m.is_local ≡ true)
      × ((o : ModelConfig) → Eligible r hints o → price m ≤ price o)
unfolding select_model candidates
select_model_lem r hints m picked =
    let cs = candidates r hints in
    let (in_sorted, least) = first-IsSorted (sort_by price cs) (sort_by-IsSorted price cs) picked in
    let (in_placed, affordable) =
      Member-keep_if (is_affordable hints) _ (Member-sort_by price cs in_sorted) in
    let (in_capable, sensitive) = placed-Member hints _ in_placed in
    let (in_list, capable) = Member-keep_if (is_capable hints.required_capabilities) _ in_capable in
    let (known, any_way) = Member-keep_if (is_capable []) (values r.registry.models) in_list in
    (
      known,
      capable,
      affordable,
      sensitive,
      (λ o e.
          let listed = keep_if-Member (is_capable []) _ e.known refl in
          let able = keep_if-Member (is_capable hints.required_capabilities) _ listed e.capable in
          let in_place = Eligible-placed hints _ able e.place in
          least o (
            sort_by-Member price cs
              (keep_if-Member (is_affordable hints) _ in_place e.affordable))),
    )
