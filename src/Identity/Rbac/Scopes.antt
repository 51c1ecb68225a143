-- ===== src/Identity/Rbac/Scopes.antt =====
-- packages/identity/src/rbac.ts: roles that are assigned within a scope.
use ryvan_os.Base.Map.{All-values-set, Map, get, get-delete, get-set, has, set, values}
use ryvan_os.Identity.Rbac.Sets.{
  contains-add_self, get-All, drop_role-Within, Within-All-add, add_all-Within, Within,
  ScopedDirect,
}
use ryvan_os.Identity.Rbac.{
  collect_permissions, new_engine, removes, assigns, built_in_roles, is_valid_scope, contains,
  defines, set_or_delete, attempt, scope_key, drop_role, scopes_of, direct, after, without, given,
  remove_role, remove_checked, assign_checked, scope_role, with_scope, add, Op, AccessScope,
  has_permission, assign_role, run_all, effective_role_ids, RbacEngine, define_role,
}
use ryvan_os.Base.{
  String, ◌≡◌, refl, ap, ◌∙◌, inl, inr, Bool, true, false, not, ◌&&◌, ◌||◌, Option, none, some,
  List, [], ◌∷◌, arith, eq_iff, nat_eq, ◌==◌, is_empty, if◌then◌else◌, or_default, if_both,
  Bool-cases, length, any, All, All-append, validation_error, returns, ◌>>◌, throw_if,
}

module _ (engine : RbacEngine) (user role : String) (h : ScopedDirect engine) where
  -- An engine that differs in what one user holds.
  Changed : RbacEngine → List String → Map (List String) → Type 0
  Changed next roles scopes =
      (u : String)
      → (direct next u ≡ (if user == u then roles else direct engine u))
        × (scopes_of next u ≡ (if user == u then scopes else scopes_of engine u))

  Changed-ScopedDirect :
      (next : RbacEngine) (roles : List String) (scopes : Map (List String))
      → Changed next roles scopes
      → All (Within roles) (values scopes)
      → ScopedDirect next
  unfolding Changed
  Changed-ScopedDirect next roles scopes c a = record { held = λ u. go u (user == u) refl }
    where
      go :
          (u : String) (b : Bool)
          → (user == u) ≡ b
          → All (Within (direct next u)) (values (scopes_of next u))
      go u true e = let (d, s) = c u in rw (d, s, e) a
      go u false e = let (d, s) = c u in rw (d, s, e) (h.held u)

  Within-after_add : All (Within (add (direct engine user) role)) (values (scopes_of engine user))
  Within-after_add =
      Within-All-add (direct engine user) (values (scopes_of engine user)) role (h.held user)

  assigned : RbacEngine
  assigned = record engine {
    user_roles = set engine.user_roles user (add (direct engine user) role);
  }

  assigned-ScopedDirect : ScopedDirect assigned
  unfolding assigned Changed
  assigned-ScopedDirect =
      Changed-ScopedDirect assigned (add (direct engine user) role) (scopes_of engine user)
        (λ u. (
          ground (arith, get-set engine.user_roles user u (add (direct engine user) role)),
          ground (arith, eq_iff user u),
        ))
        Within-after_add

  scoped-ScopedDirect : (key : String) → ScopedDirect (scope_role assigned user role key)
  unfolding assigned Changed
  scoped-ScopedDirect key =
      let roles = add (direct engine user) role in
      let scopes = scopes_of engine user in
      let old = or_default (get scopes key) [] in
      let wide = set scopes key (add old role) in
      Changed-ScopedDirect (scope_role assigned user role key) roles wide
        (λ u. (
          ground (arith, get-set engine.user_roles user u roles),
          ground (arith, get-set engine.scoped_assignments user u wide),
        ))
        (All-values-set (Within roles) scopes key (add old role) Within-after_add (
          if_both (Within roles) (contains old role)
            (get-All (Within roles) scopes key tt Within-after_add)
            (All-append (λ x. contains roles x ≡ true) old (role ∷ [])
              (get-All (Within roles) scopes key tt Within-after_add)
              (contains-add_self (direct engine user) role, tt))))

  assign_checked-ScopedDirect :
      (scope : Option AccessScope) → ScopedDirect (assign_checked engine user role scope)
  unfolding assigned
  assign_checked-ScopedDirect none = assigned-ScopedDirect
  assign_checked-ScopedDirect (some s) =
      if_both ScopedDirect (given s.org_id || given s.project_id)
        (scoped-ScopedDirect (scope_key s)) assigned-ScopedDirect

  empty_of_length {ℓ} : {V : Type ℓ} (xs : List V) → nat_eq (length xs) 0 ≡ true → xs ≡ []
  empty_of_length [] e = refl
  empty_of_length (x ∷ xs) e = ground arith

  none_default {ℓ} :
      {V : Type ℓ} (m : Map (List V)) → has m user ≡ false → or_default (get m user) [] ≡ []
  none_default m gone = ground (arith, gone)

  get-set_or_delete {ℓ} :
      {V : Type ℓ} (m : Map (List V)) (left : List V) (u : String)
      → (has m user ≡ false → left ≡ [])
      → or_default (get (set_or_delete m user left) u) []
        ≡ (if user == u then left else or_default (get m u) [])
  get-set_or_delete m left u f = elim (Bool-cases (has m user)) [
    | inr gone ↦ let none_left = f gone in ground (arith, gone, none_left, eq_iff user u)
    | inl there_is ↦ elim (Bool-cases (nat_eq (length left) 0)) [
      | inl e ↦
          (let none_left = empty_of_length left e in
            ground (arith, there_is, e, none_left, get-delete m user u))
      | inr e ↦ ground (arith, there_is, e, get-set m user u left)
    ]
  ]

  remove_checked-ScopedDirect : ScopedDirect (remove_checked engine user role)
  unfolding Changed
  remove_checked-ScopedDirect =
      Changed-ScopedDirect (remove_checked engine user role) (without (direct engine user) role)
        (drop_role (scopes_of engine user) role)
        (λ u. (
          get-set_or_delete engine.user_roles (without (direct engine user) role) u
              (λ gone. ap (λ xs. without xs role) (none_default engine.user_roles gone)),
          get-set_or_delete engine.scoped_assignments (drop_role (scopes_of engine user) role) u
              (λ gone. ap (λ xs. drop_role xs role) (none_default engine.scoped_assignments gone)),
        ))
        (drop_role-Within (direct engine user) (scopes_of engine user) role (h.held user))

attempt-ScopedDirect :
    (op : Op) (engine : RbacEngine)
    → ScopedDirect engine
    → ScopedDirect (after engine (attempt op engine))
unfolding define_role assign_role remove_role
attempt-ScopedDirect (defines role) engine h = defined (
    is_empty role.id
    || is_empty role.name
    || nat_eq (length role.permissions) 0
    || not (is_valid_scope role.scope)
    || (has engine.roles role.id && any (λ r. r.id == role.id) built_in_roles))
  where
    defined :
        (b : Bool)
        → ScopedDirect (
            after engine (
              throw_if b (validation_error "role")
              >> returns (record engine { roles = set engine.roles role.id role })))
    defined true = h
    defined false = record { held = h.held }
attempt-ScopedDirect (assigns user role scope) engine h = elim (Bool-cases (is_empty user)) [
  | inl e ↦ rw e h
  | inr e ↦ elim (Bool-cases (has engine.roles role)) [
    | inl k ↦ rw (e, k) (assign_checked-ScopedDirect engine user role h scope)
    | inr k ↦ rw (e, k) h
  ]
]
attempt-ScopedDirect (removes user role) engine h = elim (Bool-cases (is_empty user)) [
  | inl e ↦ rw e h
  | inr e ↦ rw e (remove_checked-ScopedDirect engine user role h)
]

run_all-ScopedDirect :
    (ops : List Op) (engine : RbacEngine) → ScopedDirect engine → ScopedDirect (run_all engine ops)
unfolding run_all
run_all-ScopedDirect [] engine h = h
run_all-ScopedDirect (op ∷ ops) engine h =
    run_all-ScopedDirect ops _ (attempt-ScopedDirect op engine h)

effective_lem :
    (engine : RbacEngine) (user : String) (scope : Option AccessScope)
    → ScopedDirect engine
    → effective_role_ids engine user scope ≡ effective_role_ids engine user none
unfolding effective_role_ids
effective_lem engine user none h = refl
effective_lem engine user (some s) h = elim (Bool-cases (nat_eq (length (direct engine user)) 0)) [
  | inl e ↦ rw e refl
  | inr e ↦ rw e (
      ap (with_scope (scopes_of engine user) s.org_id "org:") (within s.project_id "project:")
      ∙ within s.org_id "org:")
]
  where
    within :
        (id : Option String) (prefix : String)
        → with_scope (scopes_of engine user) id prefix (direct engine user) ≡ direct engine user
    within id prefix =
        if_both (λ (xs : List String). xs ≡ direct engine user) (given id)
          (add_all-Within (direct engine user) _
            (get-All (Within (direct engine user)) (scopes_of engine user) _ tt (h.held user)))
          refl

-- Whatever roles are defined, assigned and removed, a permission check answers the same in every
-- scope: a role that was assigned for one project or organization is held in all of them.
pub scope_ignored :
    (ops : List Op) (user permission : String) (scope : Option AccessScope)
    → has_permission (run_all new_engine ops) user permission scope
      ≡ has_permission (run_all new_engine ops) user permission none
unfolding has_permission get
scope_ignored ops user permission scope =
    let engine = run_all new_engine ops in
    let fresh : ScopedDirect new_engine = record { held = λ u. tt } in
    let same = effective_lem engine user scope (run_all-ScopedDirect ops new_engine fresh) in
    ap
      (λ roles.
        throw_if (is_empty user) (validation_error "userId")
        >> throw_if (is_empty permission) (validation_error "permission")
        >> (let held = collect_permissions engine roles in
            returns (contains held "*" || contains held permission)))
      same
