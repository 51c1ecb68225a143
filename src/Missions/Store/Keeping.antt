-- ===== src/Missions/Store/Keeping.antt =====
-- packages/mission-engine/src/store.ts: missions are stored under their ids.
use ryvan_os.Missions.Types.{Mission}
use ryvan_os.Missions.Store.{save, MissionFilter, mission_passes, list_missions}
use ryvan_os.Base.Map.{Map, get, set, values, keys}
use ryvan_os.Base.{
  String, ◌≡◌, refl, true, false, some, [], ◌∷◌, arith, eq_iff, ◌==◌, Distinct, any, Member, here,
  there, All, Member-keep_if, Member-sort_by,
}

pub record IsStore (m : Map Mission) : Type 0 where
  pub keyed : All (λ (e : String × Mission). e.1.id ≡ e.0) m
  pub distinct : Distinct (keys m)

pub stored_id :
    (m : Map Mission) (k : String) {v : Mission}
    → All (λ (e : String × Mission). e.1.id ≡ e.0) m
    → get m k ≡ some v
    → v.id ≡ k
unfolding get
stored_id [] k h e = cc
stored_id ((j, w) ∷ m) k {v} h e = ground (arith, eq_iff j k, stored_id m k {v = v} h.1)

any_value :
    (m : Map Mission) {v : Mission}
    → All (λ (e : String × Mission). e.1.id ≡ e.0) m
    → Member v (values m)
    → any (λ x. x == v.id) (keys m) ≡ true
any_value [] h i = elim i [ ]
any_value ((j, w) ∷ m) h here = ground (arith, h.0, eq_iff j w.id)
any_value ((j, w) ∷ m) {v} h (there i) = ground (arith, any_value m {v = v} h.1 i)

pub get-Member :
    (m : Map Mission) {v : Mission} → IsStore m → Member v (values m) → get m v.id ≡ some v
unfolding get
get-Member [] h i = elim i [ ]
get-Member ((j, w) ∷ m) h here = ground (arith, h.keyed.0, eq_iff j w.id)
get-Member ((j, w) ∷ m) {v} h (there i) = ground (
  arith,
  get-Member m {v = v} (record { keyed = h.keyed.1; distinct = h.distinct.1 }) i,
  any_value m {v = v} h.keyed.1 i,
  h.distinct.0,
  eq_iff j v.id,
)

set_other :
    (m : Map Mission) (k j : String) (v : Mission)
    → any (λ x. x == j) (keys m) ≡ false
    → (k == j) ≡ false
    → any (λ x. x == j) (keys (set m k v)) ≡ false
unfolding set
set_other [] k j v h n = ground arith
set_other ((i, w) ∷ m) k j v h n = ground (arith, set_other m k j v)

pub save-IsStore : (m : Map Mission) (v : Mission) → IsStore m → IsStore (save m v)
unfolding set
save-IsStore m v h = record { keyed = go m h.keyed; distinct = apart m h.distinct }
  where
    go :
        (m : Map Mission)
        → All (λ (e : String × Mission). e.1.id ≡ e.0) m
        → All (λ (e : String × Mission). e.1.id ≡ e.0) (set m v.id v)
    go [] h = (refl, tt)
    go ((j, w) ∷ m) h = ground (arith, eq_iff j v.id, go m h.1)

    apart : (m : Map Mission) → Distinct (keys m) → Distinct (keys (set m v.id v))
    apart [] h = (refl, tt)
    apart ((j, w) ∷ m) h =
        ground (arith, eq_iff j v.id, eq_iff v.id j, apart m h.1, set_other m v.id j v h.0)

pub Member-list_missions :
    (m : Map Mission) (filter : MissionFilter) {v : Mission}
    → IsStore m
    → Member v (list_missions m filter)
    → (get m v.id ≡ some v) × (mission_passes filter v ≡ true)
unfolding list_missions
Member-list_missions m filter {v} h i =
    let (among, passes) =
      Member-keep_if (mission_passes filter) (values m)
        (Member-sort_by (λ (x : Mission). x.created_at) _ i) in
    (get-Member m h among, passes)
