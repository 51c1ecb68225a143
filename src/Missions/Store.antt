-- ===== src/Missions/Store.antt =====
-- packages/mission-engine/src/store.ts. Clones are values.
pub mod Keeping
use ryvan_os.Missions.Types.{Mission, MissionStatus, status_eq}
use ryvan_os.Base.Map.{Map, set, values}
use ryvan_os.Base.{
  String, Bool, true, ◌&&◌, ◌||◌, Option, none, some, List, is_empty, option_case, opt_eq, keep_if,
  sort_by,
}

pub record MissionFilter : Type 0 where
  pub status : Option MissionStatus
  pub type : Option String
  pub org_id : Option String
  pub run_id : Option String

abbrev pub save : Map Mission → Mission → Map Mission
save missions mission = set missions mission.id mission

abbrev org_of : Mission → Option String
org_of mission = option_case mission.subject none (λ s. s.org_id)

-- A filter's text counts only if it is truthy.
abbrev text_passes : Option String → Option String → Bool
text_passes wanted value = option_case wanted true (λ w. is_empty w || opt_eq value (some w))

abbrev pub mission_passes : MissionFilter → Mission → Bool
mission_passes filter mission =
    option_case filter.status true (λ s. status_eq mission.status s)
    && text_passes filter.type (some mission.type)
    && text_passes filter.org_id (org_of mission)
    && text_passes filter.run_id mission.run_id

abbrev pub no_filter : MissionFilter
no_filter = record { status = none; type = none; org_id = none; run_id = none }

unfoldable pub list_missions : Map Mission → MissionFilter → List Mission
list_missions missions filter =
    sort_by (λ (m : Mission). m.created_at) (keep_if (mission_passes filter) (values missions))
