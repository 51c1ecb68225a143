-- ===== src/Workflow/Registry/Versions.antt =====
-- packages/workflow-engine/src/registry.ts: the versions of a definition.
use ryvan_os.Workflow.Types.{WorkflowDefinition}
use ryvan_os.Workflow.Validator.Checked.{throw_if-returns, >>-returns}
use ryvan_os.Base.Map.{get-set, set, Map, get, get-set_same, has}
use ryvan_os.Workflow.Validator.{validate_definition}
use ryvan_os.Workflow.Registry.{registered, key, WorkflowRegistry, find_definition, register}
use ryvan_os.Base.{
  String, ◌≡◌, refl, sym, ap, ◌∙◌, inl, inr, true, false, none, some, arith, eq_iff, ◌==◌, is_empty,
  is_some, Bool-cases, Option-cases, conflict_error, returns, throw_if,
}

registered-lem :
    (registry next : WorkflowRegistry) (definition : WorkflowDefinition)
    → register registry definition ≡ returns next
    → (is_empty definition.version ≡ false)
      × (has registry.definitions (key definition.id definition.version) ≡ false)
      × (registered registry definition ≡ next)
unfolding register validate_definition
registered-lem registry next definition h =
    let (valid, stored) = >>-returns (validate_definition definition) _ h in
    let (fresh, made) =
      >>-returns
        (throw_if (has registry.definitions (key definition.id definition.version))
          (conflict_error "WorkflowDefinition"))
        (returns (registered registry definition)) stored in
    (
      versioned valid,
      throw_if-returns (has registry.definitions (key definition.id definition.version)) _ fresh,
      ground (arith, made),
    )
  where
    versioned : validate_definition definition ≡ returns tt → is_empty definition.version ≡ false
    versioned v = elim (Bool-cases (is_empty definition.version)) [
      | inr e ↦ e
      | inl e ↦ elim (Bool-cases (is_empty definition.id)) [
        | inl d ↦ let bad = rw d at v in cc
        | inr d ↦ let bad = rw (d, e) at v in cc
      ]
    ]

-- A definition that was registered is found under its version, and as the latest of its id.
pub register_finds :
    (registry next : WorkflowRegistry) (definition : WorkflowDefinition)
    → register registry definition ≡ returns next
    → (find_definition next definition.id (some definition.version) ≡ returns definition)
      × (find_definition next definition.id none ≡ returns definition)
unfolding find_definition
register_finds registry next definition h =
    let (named, fresh, made) = registered-lem registry next definition h in
    let stored =
      get-set_same registry.definitions (key definition.id definition.version) definition in
    rw (← made) (
      rw (named, stored) refl,
      rw (get-set_same registry.latest definition.id definition.version, named, stored) refl,
    )

other_key :
    (m : Map WorkflowDefinition) (j k : String) (d : WorkflowDefinition)
    → has m j ≡ false
    → get m k ≡ some d
    → (j == k) ≡ false
other_key m j k d h e = elim (Bool-cases (j == k)) [
  | inr n ↦ n
  | inl q ↦
      let present : has m j ≡ true =
        ap (λ i. is_some (get m i)) ((eq_iff j k).0 q) ∙ ap is_some e in
      let bad = sym h ∙ present in cc
]

-- Registering a definition never changes what an id and version that were registered before stand
-- for.
pub register_keeps :
    (registry next : WorkflowRegistry) (definition published : WorkflowDefinition)
    (id version : String)
    → register registry definition ≡ returns next
    → find_definition registry id (some version) ≡ returns published
    → find_definition next id (some version) ≡ returns published
unfolding find_definition
register_keeps registry next definition published id version h f =
    let (_, fresh, made) = registered-lem registry next definition h in
    let new = key definition.id definition.version in
    elim (Bool-cases (is_empty version)) [
      | inl blank ↦ let bad = rw blank at f in cc
      | inr named ↦ elim (Option-cases (get registry.definitions (key id version))) [
        | inl gone ↦ let bad = rw (named, gone) at f in cc
        | inr (old, found) ↦
            let other : (new == key id version) ≡ false =
              other_key registry.definitions new (key id version) old fresh found in
            let kept : get (set registry.definitions new definition) (key id version) ≡ some old =
              rw (get-set registry.definitions new (key id version) definition, other) found in
            let same = rw (named, found) at f in rw (← made) (rw (named, kept) same)
      ]
    ]
