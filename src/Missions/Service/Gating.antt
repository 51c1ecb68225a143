-- ===== src/Missions/Service/Gating.antt =====
-- packages/mission-engine/src/mission-service.ts: a launch that is not allowed.
use Prim.Native.String.{◌++◌ as append}
use ryvan_os.Missions.Types.{
  Mission, MissionStatus, PolicyGate, PolicyVerdict, PolicyEffectLike, LaunchMissionInput,
}
use ryvan_os.Missions.State.{save_and_emit, as_failed, MissionEventType, Missions, Ports, Meanwhile}
use ryvan_os.Missions.Service.{
  as_awaiting, verdict_given, enforced, check_policy, new_mission, policy_checked, launch,
}
use ryvan_os.Base.Map.{get-set_same, get}
use ryvan_os.Base.{ℕ, String, ◌≡◌, refl, Bool, true, false, some, is_empty, returns, returned}

abbrev pub allows : PolicyEffectLike → Bool
allows PolicyEffectLike.allow = true
allows _ = false

-- How a mission that is not allowed is left.
abbrev pub blocked_as : PolicyEffectLike → MissionStatus
blocked_as PolicyEffectLike.require_approval = MissionStatus.awaiting_approval
blocked_as _ = MissionStatus.failed

module _ (ports : Ports) (meanwhile : Meanwhile) (now : ℕ) where
  given_blocked :
      (f : PolicyEffectLike) (verdict : PolicyVerdict) (s : Missions) (v : Mission)
      → allows f ≡ false
      → let r = verdict_given ports meanwhile now f verdict s v in
        (m : Mission) × (r.1 ≡ false)
        × (get r.0.store v.id ≡ some m)
        × (m.status ≡ blocked_as f)
        × (r.0.calls ≡ s.calls)
  given_blocked PolicyEffectLike.allow verdict s v h = cc
  given_blocked PolicyEffectLike.deny verdict s v h =
      let failed = as_failed v (append "policy denied: " verdict.reason) now in
      (failed, refl, get-set_same s.store v.id failed, refl, refl)
  given_blocked PolicyEffectLike.require_approval verdict s v h =
      let waits = as_awaiting v verdict in
      (waits, refl, get-set_same s.store v.id waits, refl, refl)

  -- A mission with a type that the policy gate denies ends as failed, one that it wants approved
  -- awaits that; both are stored and handed out so, and neither starts a workflow run.
  pub launch_blocked :
      (s : Missions) (id correlation_id : String) (input : LaunchMissionInput) (gate : PolicyGate)
      (verdict : PolicyVerdict)
      → is_empty input.type ≡ false
      → ports.policy ≡ some gate
      → gate.enforce
          (new_mission ports meanwhile now id correlation_id input)
          input.estimated_cost_usd
        ≡ returned verdict
      → allows verdict.effect ≡ false
      → (after : Missions) × (m : Mission) × (launch ports meanwhile now s id correlation_id input
          ≡ (after, returns m))
        × (get after.store id ≡ some m)
        × (m.status ≡ blocked_as verdict.effect)
        × (after.calls ≡ s.calls)
  unfolding launch policy_checked
  launch_blocked s id correlation_id input gate verdict named gated answer blocked =
      let v = new_mission ports meanwhile now id correlation_id input in
      let told = save_and_emit s v MissionEventType.mission_created in
      let (m, held, stored, status, calls) = given_blocked verdict.effect verdict told v blocked in
      let checked : check_policy ports meanwhile now told v input.estimated_cost_usd
          ≡ enforced ports meanwhile now told v (returned verdict) =
        rw (gated, answer) refl in
      (
        (verdict_given ports meanwhile now verdict.effect verdict told v).0,
        m,
        rw (named, checked, held, stored) refl,
        stored,
        status,
        calls,
      )
