-- ===== src/Permission/Roles.antt =====
-- usecase/role_usecase.go. The id that uniuri.New makes is an argument.
pub mod Authority
pub mod BuiltinRows
pub mod Builtin
use baru_reso_headless_contr.Prelude.{
  Bool, true, false, ◌&&◌, ◌||◌, not, Option, none, some, List, [], ◌∷◌, String, str_eq, contains,
  if◌then◌else◌, Result, ok, err, Error, builtin_role, invalid_permission_key, other, guard,
}
use baru_reso_headless_contr.Prelude.Exec.{Exec, return, fail, query, check, resume, ◌>>=◌, ◌>>◌}
use baru_reso_headless_contr.Permission.Tables.{
  Db, Group, Role, RoleScope, normal_scope, system_scope, read, get_group, find_group, load_role,
  scope_fits,
}
use baru_reso_headless_contr.Permission.Check.{
  Ctx, require_permission_for_group, require_system_permission, require_subset_of_caller,
  is_system_key, system_role_manage, group_members_manage,
}
use baru_reso_headless_contr.Permission.RoleTables.{
  insert_role, set_role_name, remove_role, replace_permissions,
}

-- The keys of `AllPermissionKeys`.
abbrev pub all_permission_keys : List String
all_permission_keys =
    "host:read" ∷ "host:write" ∷ "host:use" ∷ "session:read" ∷ "session:write" ∷ "account:read"
    ∷ "account:write" ∷ "account:use" ∷ "group:members.manage" ∷ "group:edit" ∷ "system:user.create"
    ∷ "system:user.delete" ∷ "system:user.list" ∷ "system:group.list" ∷ "system:group.manage"
    ∷ "system:role.manage" ∷ []

pub is_valid_permission_key : String → Bool
is_valid_permission_key key = contains all_permission_keys key

abbrev pub key_in_scope : RoleScope → String → Bool
key_in_scope normal_scope key = not (is_system_key key)
key_in_scope system_scope key = is_system_key key

-- The loop of `validatePermissionKeys`.
pub validate_permission_keys : RoleScope → List String → Result (Unit {0})
unfolding is_valid_permission_key
validate_permission_keys scope [] = ok tt
validate_permission_keys scope (k ∷ ks) =
    let rest = validate_permission_keys scope ks in
    if is_valid_permission_key k && key_in_scope scope k then rest else err invalid_permission_key

-- The group of a role, if it has one: nil and "" are global.
abbrev pub group_given : Option String → Option String
group_given none = none
group_given (some g) = if str_eq g "" then none else some g

-- The group must exist and fit the scope.
require_group_fits : RoleScope → Option String → Exec Db (Unit {0})
require_group_fits scope none = return tt
require_group_fits scope (some id) = do
  g ← query (λ db. read db get_group (find_group id db.groups))
  check (scope_fits scope g.group_type) (other "scope does not match group type")

-- `requireRoleMutation`, and the authorization of `CreateRole`.
require_mutation : Ctx → Option String → Exec Db (Unit {0})
require_mutation ctx none = query (λ db. require_system_permission db ctx system_role_manage)
require_mutation ctx (some id) =
    query (λ db. require_permission_for_group db ctx id group_members_manage)

-- The subset rule, for a role of a group.
require_subset : Ctx → Option String → List String → Exec Db (Unit {0})
require_subset ctx none keys = return tt
require_subset ctx (some id) keys = query (λ db. require_subset_of_caller db ctx id keys)

-- An empty list of keys is not written.
write_keys : Role → List String → Exec Db Role
write_keys role [] = return role
write_keys role (k ∷ ks) = do
  replace_permissions role.id (k ∷ ks)
  return (record role { permission_keys = k ∷ ks })

pub create_role_call :
    Ctx → String → Option String → String → RoleScope → List String → Exec Db Role
unfolding require_group_fits require_mutation require_subset write_keys
create_role_call ctx id group name scope keys = do
  check (not (str_eq name "")) (other "role name is required")
  query (λ db. validate_permission_keys scope keys)
  require_group_fits scope (group_given group)
  require_mutation ctx (group_given group)
  require_subset ctx (group_given group) keys
  role ← insert_role id group name scope
  write_keys role keys

-- `none` leaves the keys as they are, that is, `OverwritePermKeys` is false.
validate_new_keys : RoleScope → Option (List String) → Result (Unit {0})
validate_new_keys scope none = ok tt
validate_new_keys scope (some keys) = validate_permission_keys scope keys

subset_of_new : Ctx → Option String → Option (List String) → Exec Db (Unit {0})
unfolding require_subset
subset_of_new ctx group none = return tt
subset_of_new ctx group (some keys) = require_subset ctx group keys

-- Only another name is written.
write_name : String → String → Option String → Exec Db (Unit {0})
write_name id old none = return tt
write_name id old (some new) = if str_eq new old then return tt else set_role_name id new

write_new_keys : String → Option (List String) → Exec Db (Unit {0})
write_new_keys id none = return tt
write_new_keys id (some keys) = replace_permissions id keys

pub update_role : Ctx → String → Option String → Option (List String) → Exec Db Role
unfolding require_mutation validate_new_keys subset_of_new write_name write_new_keys
update_role ctx id name keys = do
  role ← query (λ db. load_role db id)
  check (not role.is_builtin) builtin_role
  query (λ db. validate_new_keys role.scope keys)
  require_mutation ctx (group_given role.group_id)
  subset_of_new ctx (group_given role.group_id) keys
  write_name id role.name name
  write_new_keys id keys
  query (λ db. load_role db id)

pub delete_role_call : Ctx → String → Exec Db (Unit {0})
unfolding require_mutation
delete_role_call ctx id = do
  role ← query (λ db. load_role db id)
  check (not role.is_builtin) builtin_role
  require_mutation ctx (group_given role.group_id)
  remove_role id
