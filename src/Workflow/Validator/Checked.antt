-- ===== src/Workflow/Validator/Checked.antt =====
-- packages/workflow-engine/src/validator.ts: definitions that pass validation.
use ryvan_os.Workflow.Driver.Progressing.{drive_loop-ends, pending_in}
use ryvan_os.Workflow.Driver.{drive_loop, Exec, Round}
use ryvan_os.Workflow.Environment.{Settles, ids}
use ryvan_os.Workflow.Types.{WorkflowDefinition, StepDefinition}
use ryvan_os.Workflow.Validator.{
  validate_definition, validate_step, contains, validate_ids, validate_dependencies,
  validate_depends,
}
use ryvan_os.Base.{
  ℕ, ◌+◌, ◌<◌, String, ◌≡◌, refl, inl, inr, Bool, true, false, List, [], ◌∷◌, ◌++◌, arith, ◌==◌,
  Distinct, is_some, eq_sym, Bool-cases, any, All, any-append, Error, validation_error, Result,
  throws, returns, ◌>>◌, throw_if,
}

pub >>-returns {ℓ} :
    {B : Type ℓ} (m : Result (Unit {0})) (k : Result B) {b : B}
    → (m >> k) ≡ returns b
    → (m ≡ returns tt) × (k ≡ returns b)
>>-returns (throws e) k h = cc
>>-returns (returns tt) k h = (refl, h)

pub throw_if-returns : (b : Bool) (e : Error) → throw_if b e ≡ returns tt → b ≡ false
throw_if-returns true e h = cc
throw_if-returns false e h = refl

-- No step of the list has an id that was seen.
Unseen : List String → List StepDefinition → Type 0
Unseen seen steps = All (λ s. contains seen s.id ≡ false) steps

Unseen-split :
    (seen : List String) (id : String) (steps : List StepDefinition)
    → Unseen (seen ++ id ∷ []) steps
    → Unseen seen steps × (any (λ y. y == id) (ids steps) ≡ false)
unfolding Unseen
Unseen-split seen id [] h = (tt, refl)
Unseen-split seen id (s ∷ steps) h =
    let (rest, other) = Unseen-split seen id steps h.1 in
    let split = any-append (λ y. y == s.id) seen (id ∷ []) in
    ((ground (arith, split, h.0), rest), ground (arith, split, h.0, other, eq_sym id s.id))

validate_ids-Distinct :
    (seen : List String) (steps : List StepDefinition)
    → validate_ids seen steps ≡ returns tt
    → Unseen seen steps × Distinct (ids steps)
unfolding validate_ids Unseen
validate_ids-Distinct seen [] h = (tt, tt)
validate_ids-Distinct seen (step ∷ steps) h =
    let (first, later) =
      >>-returns
        (validate_step step >> throw_if (contains seen step.id) (validation_error "step.id"))
        (validate_ids (seen ++ step.id ∷ []) steps) h in
    let (valid, fresh) =
      >>-returns (validate_step step)
        (throw_if (contains seen step.id) (validation_error "step.id")) first in
    let (unseen, distinct) = validate_ids-Distinct (seen ++ step.id ∷ []) steps later in
    let (rest, other) = Unseen-split seen step.id steps unseen in
    ((throw_if-returns (contains seen step.id) _ fresh, rest), (other, distinct))

-- Each dependency is a step of the definition, and another one.
abbrev pub DependsWell : List String → StepDefinition → Type 0
DependsWell known_ids step =
    All (λ d. (contains known_ids d ≡ true) × ((d == step.id) ≡ false)) step.depends_on

validate_depends-All :
    (known_ids : List String) (id : String) (ds : List String)
    → validate_depends known_ids id ds ≡ returns tt
    → All (λ d. (contains known_ids d ≡ true) × ((d == id) ≡ false)) ds
unfolding validate_depends
validate_depends-All known_ids id [] h = tt
validate_depends-All known_ids id (d ∷ ds) h = elim (Bool-cases (contains known_ids d)) [
  | inr missing ↦ let bad = rw missing at h in cc
  | inl known ↦ elim (Bool-cases (d == id)) [
    | inl same ↦ let bad = rw (known, same) at h in cc
    | inr other ↦ ((known, other), validate_depends-All known_ids id ds (rw (known, other) at h))
  ]
]

validate_dependencies-All :
    (known_ids : List String) (steps : List StepDefinition)
    → validate_dependencies known_ids steps ≡ returns tt
    → All (DependsWell known_ids) steps
unfolding validate_dependencies
validate_dependencies-All known_ids [] h = tt
validate_dependencies-All known_ids (step ∷ steps) h =
    let (one, more) =
      >>-returns (validate_depends known_ids step.id step.depends_on)
        (validate_dependencies known_ids steps) h in
    (
      validate_depends-All known_ids step.id step.depends_on one,
      validate_dependencies-All known_ids steps more,
    )

pub validate_definition-Distinct :
    (definition : WorkflowDefinition)
    → validate_definition definition ≡ returns tt
    → Distinct (ids definition.steps)
unfolding validate_definition
validate_definition-Distinct definition h =
    let (checked, acyclic) = >>-returns _ _ h in
    let (numbered, depends) = >>-returns _ _ checked in
    let (header, distinct) = >>-returns _ _ numbered in
    (validate_ids-Distinct [] definition.steps distinct).1

-- A definition that passes validation has steps with distinct ids, whose dependencies are other
-- steps of the definition; so driving a run of it ends, in at most as many rounds as it has pending
-- steps and one more.
pub validated_drive-ends :
    (definition : WorkflowDefinition) (concurrency : ℕ) (rounds : ℕ → Round) (x : Exec)
    → validate_definition definition ≡ returns tt
    → 0 < concurrency
    → ((n : ℕ) → Settles (rounds n).env)
    → Distinct (ids definition.steps)
      × All (DependsWell (ids definition.steps)) definition.steps
      × (is_some (
            drive_loop
              (pending_in definition.steps x.live.run.steps + 1)
              definition
              concurrency
              rounds
              0
              x
              false)
          ≡ true)
unfolding validate_definition
validated_drive-ends definition concurrency rounds x h p s =
    let count = pending_in definition.steps x.live.run.steps in
    let enough : count < count + 1 = omega arith in
    let (checked, acyclic) = >>-returns _ _ h in
    let (numbered, depends) = >>-returns _ _ checked in
    let d = validate_definition-Distinct definition h in
    (
      d,
      validate_dependencies-All (ids definition.steps) definition.steps depends,
      drive_loop-ends definition concurrency rounds d p s (count + 1) 0 x false enough,
    )
