-- ===== src/Workflow/Validator.antt =====
-- packages/workflow-engine/src/validator.ts: what a definition must be before it is registered.
pub mod Checked
pub mod Tests
use ryvan_os.Workflow.Types.{StepDefinition, StepKind, WorkflowDefinition}
use Prim.Native.String.{◌++◌ as append}
use ryvan_os.Base.{
  ℕ, zero, suc, ◌+◌, String, Bool, true, false, not, ◌&&◌, Option, none, some, List, [], ◌∷◌, ◌++◌,
  map, nat_eq, ◌==◌, is_empty, if◌then◌else◌, option_case, length, any, Error, validation_error,
  Result, throws, returns, ◌>>◌, throw_if,
}

abbrev pub contains : List String → String → Bool
contains xs x = any (λ y. y == x) xs

abbrev blank : Option String → Bool
blank o = option_case o true is_empty

abbrev falsy : Option ℕ → Bool
falsy o = option_case o true (λ n. nat_eq n 0)

abbrev field : StepDefinition → String → Error
field step name = validation_error (append "step." (append step.id (append "." name)))

-- What the kind of a step requires: the field that is missing, if one is.
abbrev missing_field : StepKind → StepDefinition → Option String
missing_field StepKind.action step = if blank step.handler then some "handler" else none
missing_field StepKind.conditional step = if step.condition then none else some "condition"
missing_field StepKind.approval step =
    if option_case step.approval true (λ a. is_empty a.reason) then some "approval.reason" else none
missing_field StepKind.event step =
    if option_case step.event true (λ e. is_empty e.type) then some "event.type" else none
missing_field StepKind.schedule step =
    if option_case step.schedule true (λ s. falsy s.delay_ms && falsy s.resume_at)
    then some "schedule"
    else none
missing_field StepKind.unknown step = some "kind"

unfoldable pub validate_step : StepDefinition → Result (Unit {0})
validate_step step =
    throw_if (is_empty step.id) (validation_error "step.id")
    >> throw_if (is_empty step.name) (field step "name")
    >> option_case (missing_field step.kind step) (returns tt) (λ name. throws (field step name))
    >> throw_if (option_case step.retry false (λ r. nat_eq r.max_attempts 0))
        (field step "retry.maxAttempts")

-- The first loop of `validateDefinition`: `seen` are the ids so far.
unfoldable pub validate_ids : List String → List StepDefinition → Result (Unit {0})
validate_ids seen [] = returns tt
validate_ids seen (step ∷ steps) =
    validate_step step
    >> throw_if (contains seen step.id) (validation_error "step.id")
    >> validate_ids (seen ++ step.id ∷ []) steps

unfoldable pub validate_depends : List String → String → List String → Result (Unit {0})
validate_depends ids id [] = returns tt
validate_depends ids id (d ∷ ds) =
    throw_if (not (contains ids d)) (validation_error (append "step." (append id ".dependsOn")))
    >> throw_if (d == id) (validation_error (append "step." (append id ".dependsOn")))
    >> validate_depends ids id ds

-- The second loop.
unfoldable pub validate_dependencies : List String → List StepDefinition → Result (Unit {0})
validate_dependencies known_ids [] = returns tt
validate_dependencies known_ids (step ∷ steps) =
    validate_depends known_ids step.id step.depends_on >> validate_dependencies known_ids steps

-- `new Map(steps.map(...)).get(id) ?? []`: the last step of an id counts.
abbrev edges_of : List StepDefinition → String → List String
edges_of [] id = []
edges_of (s ∷ ss) id =
    if contains (map (λ t. t.id) ss) id
    then edges_of ss id
    else if s.id == id
    then s.depends_on
    else []

-- `path.slice(path.indexOf(id))`.
abbrev path_from : List String → String → List String
path_from [] id = []
path_from (x ∷ xs) id = if x == id then x ∷ xs else path_from xs id

-- The ids that are done, and a cycle if one was found.
abbrev pub Walked : Type 0
Walked = List String × Option (List String)

abbrev walk_each : (List String → String → Walked) → List String → List String → Walked
walk_each walk visited [] = (visited, none)
walk_each walk visited (d ∷ ds) =
    let (next, cycle) = walk visited d in
    let rest = walk_each walk next ds in option_case cycle rest (λ c. (next, some c))

-- `walk`, on fuel; the set `visiting` holds what `path` holds.
unfoldable pub walk : ℕ → List StepDefinition → List String → List String → String → Walked
walk zero steps path visited id = (visited, none)
walk (suc fuel) steps path visited id =
    let (after, cycle) =
      walk_each (walk fuel steps (path ++ id ∷ [])) visited (edges_of steps id) in
    if contains visited id
    then (visited, none)
    else if contains path id
    then (visited, some (path_from path id ++ id ∷ []))
    else (option_case cycle (after ++ id ∷ []) (λ c. after), cycle)

-- A path holds no id twice, so it is never longer than the list of steps.
unfoldable pub find_cycle : List StepDefinition → Option (List String)
unfolding walk
find_cycle steps = (walk_each (walk (length steps + 2) steps []) [] (map (λ t. t.id) steps)).1

unfoldable pub validate_definition : WorkflowDefinition → Result (Unit {0})
validate_definition definition =
    throw_if (is_empty definition.id) (validation_error "definition.id")
    >> throw_if (is_empty definition.version) (validation_error "definition.version")
    >> throw_if (nat_eq (length definition.steps) 0) (validation_error "definition.steps")
    >> validate_ids [] definition.steps
    >> validate_dependencies (map (λ t. t.id) definition.steps) definition.steps
    >> option_case (find_cycle definition.steps) (returns tt)
        (λ c. throws (validation_error "definition.steps"))
