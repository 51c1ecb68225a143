-- ===== src/Identity/Rbac.antt =====
-- packages/identity/src/rbac.ts: roles, their assignment to users, and permission checks. A set is
-- a list in the order of insertion.
pub mod Sets
pub mod Scopes
pub mod Tests
use ryvan_os.Base.Map.{delete, Map, set, get, has}
use Prim.Native.String.{◌++◌ as append}
use ryvan_os.Base.{
  ℕ, zero, suc, String, Bool, true, false, not, ◌&&◌, ◌||◌, Option, none, some, List, [], ◌∷◌, ◌++◌,
  map, nat_eq, ◌==◌, is_empty, if◌then◌else◌, or_default, option_case, length, keep_if, any, all,
  validation_error, Result, throws, returns, ◌>>◌, throw_if,
}

-- `unknown` stands for every scope but the three.
pub data RoleScope : Type 0 where
  system organization project unknown : RoleScope

pub record Role : Type 0 where
  pub id : String
  pub name : String
  pub permissions : List String
  pub scope : RoleScope

abbrev pub is_valid_scope : RoleScope → Bool
is_valid_scope RoleScope.unknown = false
is_valid_scope _ = true

abbrev built_in : String → List String → RoleScope → Role
built_in id permissions scope = record {
  id = id;
  name = id;
  permissions = permissions;
  scope = scope;
}

abbrev pub contains : List String → String → Bool
contains xs x = any (λ y. y == x) xs

-- `Set.add` and `Set.delete`.
abbrev pub add : List String → String → List String
add xs x = if contains xs x then xs else xs ++ x ∷ []

abbrev pub without : List String → String → List String
without xs x = keep_if (λ y. not (y == x)) xs

-- The permissions of an organization's administrator, which its owner holds too.
abbrev project_permissions : List String
project_permissions =
    "project:read" ∷ "project:update" ∷ "project:delete" ∷ "project:members:manage"
    ∷ "project:settings:manage" ∷ []

abbrev admin_permissions : List String
admin_permissions =
    "org:settings:manage" ∷ "org:projects:create" ∷ "org:projects:delete" ∷ "org:api-keys:manage"
    ∷ project_permissions

abbrev pub built_in_roles : List Role
built_in_roles =
    built_in "system:admin" ("*" ∷ []) RoleScope.system
    ∷ built_in "org:owner"
        ("org:read" ∷ "org:update" ∷ "org:delete" ∷ "org:members:manage" ∷ "org:billing:manage"
          ∷ admin_permissions)
        RoleScope.organization
    ∷ built_in "org:admin" ("org:read" ∷ "org:update" ∷ "org:members:manage" ∷ admin_permissions)
        RoleScope.organization
    ∷ built_in "org:member" ("org:read" ∷ "project:read" ∷ "project:update" ∷ [])
        RoleScope.organization
    ∷ built_in "project:admin" project_permissions RoleScope.project
    ∷ built_in "project:member" ("project:read" ∷ "project:update" ∷ []) RoleScope.project
    ∷ built_in "project:viewer" ("project:read" ∷ []) RoleScope.project
    ∷ []

abbrev pub role_hierarchy : Map (List String)
role_hierarchy =
    ("org:owner", "org:admin" ∷ [])
    ∷ ("org:admin", "org:member" ∷ [])
    ∷ ("project:admin", "project:member" ∷ [])
    ∷ ("project:member", "project:viewer" ∷ [])
    ∷ []

pub record RbacEngine : Type 0 where
  pub roles : Map Role
  pub user_roles : Map (List String)
  pub scoped_assignments : Map (Map (List String))

-- The optional `scope` argument.
pub record AccessScope : Type 0 where
  pub org_id : Option String
  pub project_id : Option String

abbrev set_roles : List Role → Map Role
set_roles [] = []
set_roles (r ∷ rs) = set (set_roles rs) r.id r

abbrev pub new_engine : RbacEngine
new_engine = record { roles = set_roles built_in_roles; user_roles = []; scoped_assignments = [] }

-- The four guards all throw a `ValidationError` on the role.
unfoldable pub define_role : RbacEngine → Role → Result RbacEngine
define_role engine role =
    throw_if
      (is_empty role.id
        || is_empty role.name
        || nat_eq (length role.permissions) 0
        || not (is_valid_scope role.scope)
        || (has engine.roles role.id && any (λ r. r.id == role.id) built_in_roles))
      (validation_error "role")
    >> returns (record engine { roles = set engine.roles role.id role })

abbrev pub given : Option String → Bool
given o = option_case o false (λ s. not (is_empty s))

abbrev text : Option String → String
text o = or_default o "undefined"

abbrev pub scope_key : AccessScope → String
scope_key scope =
    if given scope.project_id
    then append "project:" (text scope.project_id)
    else append "org:" (text scope.org_id)

abbrev pub direct : RbacEngine → String → List String
direct engine user = or_default (get engine.user_roles user) []

abbrev pub scopes_of : RbacEngine → String → Map (List String)
scopes_of engine user = or_default (get engine.scoped_assignments user) []

abbrev pub scope_role : RbacEngine → String → String → String → RbacEngine
scope_role engine user role key =
    let scopes = scopes_of engine user in
    record engine {
      scoped_assignments =
          set engine.scoped_assignments user
            (set scopes key (add (or_default (get scopes key) []) role));
    }

abbrev pub assign_direct : RbacEngine → String → String → RbacEngine
assign_direct engine user role = record engine {
  user_roles = set engine.user_roles user (add (direct engine user) role);
}

-- What `assignRole` writes, once its arguments are checked.
abbrev pub assign_checked : RbacEngine → String → String → Option AccessScope → RbacEngine
assign_checked engine user role none = assign_direct engine user role
assign_checked engine user role (some s) =
    if given s.org_id || given s.project_id
    then scope_role (assign_direct engine user role) user role (scope_key s)
    else assign_direct engine user role

unfoldable pub assign_role : RbacEngine → String → String → Option AccessScope → Result RbacEngine
assign_role engine user role scope =
    throw_if (is_empty user) (validation_error "userId")
    >> throw_if (not (has engine.roles role)) (validation_error "roleId")
    >> returns (assign_checked engine user role scope)

-- An entry that becomes empty is deleted.
abbrev pub drop_role : Map (List String) → String → Map (List String)
drop_role [] role = []
drop_role ((key, roles) ∷ rest) role =
    let left = without roles role in
    if nat_eq (length left) 0 then drop_role rest role else (key, left) ∷ drop_role rest role

-- The map entry of a user whose set has become `left`.
abbrev pub set_or_delete {ℓ} : {V : Type ℓ} → Map (List V) → String → List V → Map (List V)
set_or_delete m user left =
    if has m user then if nat_eq (length left) 0 then delete m user else set m user left else m

abbrev pub remove_checked : RbacEngine → String → String → RbacEngine
remove_checked engine user role = record engine {
  user_roles = set_or_delete engine.user_roles user (without (direct engine user) role);
  scoped_assignments =
      set_or_delete engine.scoped_assignments user (drop_role (scopes_of engine user) role);
}

unfoldable pub remove_role : RbacEngine → String → String → Result RbacEngine
remove_role engine user role =
    throw_if (is_empty user) (validation_error "userId")
    >> returns (remove_checked engine user role)

abbrev pub add_all : List String → List String → List String
add_all xs [] = xs
add_all xs (r ∷ rs) = add_all (add xs r) rs

abbrev pub with_scope : Map (List String) → Option String → String → List String → List String
with_scope scopes id prefix roles =
    if given id then add_all roles (or_default (get scopes (append prefix (text id))) []) else roles

unfoldable pub effective_role_ids : RbacEngine → String → Option AccessScope → List String
effective_role_ids engine user scope =
    let roles = direct engine user in
    if nat_eq (length roles) 0
    then []
    else option_case scope roles (λ s.
      let scopes = scopes_of engine user in
      with_scope scopes s.org_id "org:" (with_scope scopes s.project_id "project:" roles))

-- What `collect` has gathered and which roles it has visited.
abbrev Collected : Type 0
Collected = List String × List String

abbrev fold_each : (Collected → String → Collected) → Collected → List String → Collected
fold_each f c [] = c
fold_each f c (x ∷ xs) = fold_each f (f c x) xs

-- `collect`, on fuel for the depth of the hierarchy.
unfoldable pub collect : ℕ → RbacEngine → Collected → String → Collected
collect zero engine c role = c
collect (suc fuel) engine (permissions, visited) role =
    let own =
      option_case (get engine.roles role) permissions (λ r. add_all permissions r.permissions) in
    let below = or_default (get role_hierarchy role) [] in
    let deeper = fold_each (collect fuel engine) (own, visited ++ role ∷ []) below in
    if contains visited role then (permissions, visited) else deeper

-- `role_hierarchy` is three roles deep.
abbrev pub hierarchy_fuel : ℕ
hierarchy_fuel = 4

unfoldable pub collect_permissions : RbacEngine → List String → List String
collect_permissions engine roles = (fold_each (collect hierarchy_fuel engine) ([], []) roles).0

unfoldable pub has_permission : RbacEngine → String → String → Option AccessScope → Result Bool
has_permission engine user permission scope =
    let all = collect_permissions engine (effective_role_ids engine user scope) in
    throw_if (is_empty user) (validation_error "userId")
    >> throw_if (is_empty permission) (validation_error "permission")
    >> returns (contains all "*" || contains all permission)

abbrev present : List (Option Role) → List Role
present [] = []
present (none ∷ os) = present os
present (some r ∷ os) = r ∷ present os

unfoldable pub get_user_roles : RbacEngine → String → Result (List Role)
get_user_roles engine user =
    throw_if (is_empty user) (validation_error "userId")
    >> returns (present (map (get engine.roles) (direct engine user)))

unfoldable pub get_role_permissions : RbacEngine → String → Result (List String)
get_role_permissions engine role =
    throw_if (is_empty role) (validation_error "roleId")
    >> returns (collect_permissions engine (role ∷ []))

pub data Op : Type 0 where
  defines : Role → Op
  assigns : String → String → Option AccessScope → Op
  removes : String → String → Op

abbrev pub attempt : Op → RbacEngine → Result RbacEngine
attempt (defines role) engine = define_role engine role
attempt (assigns user role scope) engine = assign_role engine user role scope
attempt (removes user role) engine = remove_role engine user role

-- A call that throws changes nothing.
abbrev pub after : RbacEngine → Result RbacEngine → RbacEngine
after engine (returns next) = next
after engine (throws e) = engine

unfoldable pub run_all : RbacEngine → List Op → RbacEngine
run_all engine [] = engine
run_all engine (op ∷ ops) = run_all (after engine (attempt op engine)) ops
