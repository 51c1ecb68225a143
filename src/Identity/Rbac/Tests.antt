-- ===== src/Identity/Rbac/Tests.antt =====
-- A role for one project, held in another.
use ryvan_os.Base.Map.{get, set}
use ryvan_os.Identity.Rbac.Scopes.{scope_ignored}
use ryvan_os.Identity.Rbac.{
  collect, collect_permissions, effective_role_ids, new_engine, assign_role, run_all,
  has_permission, assigns, Op, AccessScope,
}
use ryvan_os.Base.{String, ◌≡◌, refl, true, Option, none, some, List, [], ◌∷◌, returns}

abbrev project : String → Option AccessScope
project id = some (record { org_id = none; project_id = some id })

abbrev ops : List Op
ops = assigns "ada" "project:member" (project "p1") ∷ []

elsewhere :
    has_permission (run_all new_engine ops) "ada" "project:update" (project "p2") ≡ returns true
unfolding has_permission run_all assign_role effective_role_ids collect_permissions collect get set
elsewhere = refl

scope_ignored_example :
    has_permission (run_all new_engine ops) "ada" "project:update" (project "p2")
    ≡ has_permission (run_all new_engine ops) "ada" "project:update" none
scope_ignored_example = scope_ignored ops "ada" "project:update" (project "p2")
