-- ===== src/Workflow/Registry.antt =====
-- packages/workflow-engine/src/registry.ts: versioned definitions and named handlers.
pub mod Versions
pub mod Tests
use ryvan_os.Workflow.Validator.{validate_definition}
use ryvan_os.Workflow.Types.{WorkflowDefinition, StepDefinition, Json}
use ryvan_os.Base.Map.{set, values, get, keys, Map, has}
use Prim.Native.String.{◌++◌ as append}
use ryvan_os.Base.{
  ℕ, String, Bool, false, ◌||◌, Option, some, List, [], ◌∷◌, ◌++◌, ◌==◌, is_empty, if◌then◌else◌,
  option_case, any, validation_error, conflict_error, not_found_error, Result, throws, returns,
  ◌>>◌, throw_if, Outcome,
}

abbrev pub key : String → String → String
key id version = append id (append "@" version)

pub record WorkflowRegistry : Type 0 where
  pub definitions : Map WorkflowDefinition
  pub latest : Map String
  pub handlers : Map (String → ℕ → Outcome Json)

abbrev pub registered : WorkflowRegistry → WorkflowDefinition → WorkflowRegistry
registered registry definition = record registry {
  definitions = set registry.definitions (key definition.id definition.version) definition;
  latest = set registry.latest definition.id definition.version;
}

unfoldable pub register : WorkflowRegistry → WorkflowDefinition → Result WorkflowRegistry
register registry definition =
    validate_definition definition
    >> (throw_if (has registry.definitions (key definition.id definition.version))
          (conflict_error "WorkflowDefinition")
        >> returns (registered registry definition))

-- `get`; an empty version counts as none.
unfoldable pub find_definition :
    WorkflowRegistry → String → Option String → Result WorkflowDefinition
find_definition registry id version =
    let missing : Result WorkflowDefinition = throws (not_found_error "WorkflowDefinition" id) in
    option_case (option_case version (get registry.latest id) (λ v. some v)) missing (λ v.
      if is_empty v
      then missing
      else option_case (get registry.definitions (key id v))
          (throws (not_found_error "WorkflowDefinition" (key id v)))
          (λ definition. returns definition))

unfoldable pub has_definition : WorkflowRegistry → String → Option String → Bool
has_definition registry id version =
    option_case (option_case version (get registry.latest id) (λ v. some v)) false
      (λ v. has registry.definitions (key id v))

abbrev pub list_definitions : WorkflowRegistry → List WorkflowDefinition
list_definitions registry = values registry.definitions

unfoldable pub register_handler :
    WorkflowRegistry → String → (String → ℕ → Outcome Json) → Result WorkflowRegistry
register_handler registry name handler =
    throw_if (is_empty name) (validation_error "handler.name")
    >> returns (record registry { handlers = set registry.handlers name handler })

abbrev pub handler_names : WorkflowRegistry → List String
handler_names registry = keys registry.handlers

abbrev add_missing : WorkflowRegistry → Option String → List String → List String
add_missing registry name missing = option_case name missing (λ n.
    if is_empty n || has registry.handlers n || any (λ m. m == n) missing
    then missing
    else missing ++ n ∷ [])

abbrev pub missing_in : WorkflowRegistry → List StepDefinition → List String → List String
missing_in registry [] missing = missing
missing_in registry (step ∷ steps) missing =
    missing_in registry steps
      (add_missing registry step.compensate (add_missing registry step.handler missing))

unfoldable pub missing_handlers : WorkflowRegistry → WorkflowDefinition → List String
missing_handlers registry definition = missing_in registry definition.steps []
