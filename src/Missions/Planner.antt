-- ===== src/Missions/Planner.antt =====
-- packages/mission-engine/src/planner.ts.
use Prim.Native.String.{◌++◌ as append}
use ryvan_os.Missions.Types.{Mission, MissionPlan}
use ryvan_os.Base.Map.{Map, get, set, values}
use ryvan_os.Base.{
  String, Option, some, List, [], ◌∷◌, is_empty, quoted, or_default, option_case, validation_error,
  Result, returns, ◌>>◌, throw_if, Outcome, returned, threw,
}

pub record MissionTemplate : Type 0 where
  pub type : String
  pub workflow_id : String
  pub workflow_version : Option String
  pub defaults : Option (Map String)
  pub description : Option String

unfoldable pub register_template :
    Map MissionTemplate → MissionTemplate → Result (Map MissionTemplate)
register_template templates template =
    throw_if (is_empty template.type) (validation_error "template.type")
    >> throw_if (is_empty template.workflow_id) (validation_error "template.workflowId")
    >> returns (set templates template.type template)

abbrev pub list_templates : Map MissionTemplate → List MissionTemplate
list_templates = values

-- `{ ...defaults, ...input }`.
unfoldable pub spread : Map String → Map String → Map String
spread base [] = base
spread base ((k, v) ∷ m) = spread (set base k v) m

-- The message of a template that is not found is that of `NotFoundError`.
unfoldable pub plan_mission : Map MissionTemplate → Mission → Outcome MissionPlan
unfolding spread
plan_mission templates mission =
    option_case (get templates mission.type)
      (threw (append "MissionTemplate " (append (quoted mission.type) " not found")))
      (λ template. returned (record {
        workflow_id = template.workflow_id;
        workflow_version = template.workflow_version;
        input = spread (or_default template.defaults []) mission.input;
        rationale = some (
            or_default template.description
              (append "Template for mission type " (quoted mission.type)));
      }))
