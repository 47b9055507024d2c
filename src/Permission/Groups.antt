-- ===== src/Permission/Groups.antt =====
-- usecase/group_usecase.go. Each method takes the claims of its context; the id that uniuri.New
-- makes is an argument.
pub mod Escalation
pub mod SystemGroup
pub mod RoleChanges
pub mod Calls
mod Examples
use baru_reso_headless_contr.Prelude.{
  Bool, true, false, ◌&&◌, not, Option, none, some, List, [], ◌∷◌, String, str_eq, if◌then◌else◌,
  Result, ok, err, Error, not_found, group_operation_forbidden, other,
}
use Prim.Native.String.{◌++◌}
use baru_reso_headless_contr.Prelude.Exec.{Exec, return, fail, query, check, ◌>>=◌, ◌>>◌}
use baru_reso_headless_contr.Permission.Tables.{
  load_role, Db, Group, GroupMember, GroupType, personal, normal, system, Role, RoleScope,
  normal_scope, system_scope, read, get_group, get_role, get_member, list_members, list_groups,
  personal_group, find_group, find_role, find_member, find_personal_group, members_of_group,
  insert_group, insert_member, delete_member, set_member_role, set_group_name, remove_group,
  scope_fits, is_personal, is_system, memberships_of_user,
}
use baru_reso_headless_contr.Permission.Check.{
  Ctx, current_user_id, require_permission_for_group, require_system_permission, subset_of_caller,
  system_group_manage, system_group_list, group_members_manage, group_edit, has_system_permission,
}

abbrev pub seed_role_admin : String
seed_role_admin = "seed-admin"

unfoldable pub group_of : String → Exec Db Group
group_of id = query (λ db. read db get_group (find_group id db.groups))

unfoldable pub role_of : String → Exec Db Role
role_of id = query (λ db. load_role db id)

require_group_permission : Ctx → String → String → Exec Db (Unit {0})
require_group_permission ctx group key = query (λ db. require_permission_for_group db ctx group key)

require_system : Ctx → String → Exec Db (Unit {0})
require_system ctx key = query (λ db. require_system_permission db ctx key)

abbrev is_normal : GroupType → Bool
is_normal normal = true
is_normal _ = false

pub is_role_assignable_to_group : Role → Group → Bool
is_role_assignable_to_group role group = scope_fits role.scope group.group_type

require_perm_subset_of_caller : Ctx → Group → Role → Exec Db (Unit {0})
require_perm_subset_of_caller ctx group role =
    query (λ db. subset_of_caller db ctx group.id role.permission_keys)

pub create_group : Ctx → String → String → String → Exec Db Group
unfolding require_system
create_group ctx id name creator = do
  require_system ctx system_group_manage
  check (not (str_eq name "")) (other "group name is required")
  g ← insert_group (record { id = id; name = name; group_type = normal })
  insert_member (record {
    group_id = g.id;
    user_id = creator;
    role_id = seed_role_admin;
    added_by = some creator;
  })
  return g

pub update_group_name : Ctx → String → String → Exec Db Group
unfolding group_of require_group_permission
update_group_name ctx id name = do
  g ← group_of id
  check (is_normal g.group_type) group_operation_forbidden
  require_group_permission ctx id group_edit
  set_group_name id name
  group_of id

pub delete_group : Ctx → String → Exec Db (Unit {0})
unfolding group_of require_group_permission
delete_group ctx id = do
  g ← group_of id
  check (is_normal g.group_type) group_operation_forbidden
  require_group_permission ctx id group_edit
  remove_group id

pub add_group_member : Ctx → String → String → String → Option String → Exec Db GroupMember
unfolding group_of role_of require_group_permission require_perm_subset_of_caller
add_group_member ctx group user role added_by = do
  require_group_permission ctx group group_members_manage
  g ← group_of group
  check (not (is_personal g.group_type)) group_operation_forbidden
  r ← role_of role
  check (is_role_assignable_to_group r g) (other "role scope does not match group type")
  require_perm_subset_of_caller ctx g r
  insert_member (record { group_id = group; user_id = user; role_id = role; added_by = added_by })

-- The loop that looks for a member other than `user`.
pub has_other_member : String → List GroupMember → Bool
has_other_member user [] = false
has_other_member user (m ∷ ms) = if str_eq m.user_id user then has_other_member user ms else true

-- Only of the system group: some member must stay.
pub keep_last_member : GroupType → String → String → Exec Db (Unit {0})
unfolding has_other_member
keep_last_member system group user = do
  ms ← query (λ db. read db list_members (ok (members_of_group group db.members)))
  check (has_other_member user ms) group_operation_forbidden
keep_last_member _ group user = return tt

pub remove_group_member : Ctx → String → String → Exec Db (Unit {0})
unfolding group_of require_group_permission keep_last_member
remove_group_member ctx group user = do
  g ← group_of group
  check (not (is_personal g.group_type)) group_operation_forbidden
  require_group_permission ctx group group_members_manage
  keep_last_member g.group_type group user
  delete_member group user

-- Of a personal group the system permission is required.
pub require_role_change : Ctx → GroupType → String → Exec Db (Unit {0})
unfolding require_system require_group_permission
require_role_change ctx personal group = require_system ctx system_group_manage
require_role_change ctx _ group = require_group_permission ctx group group_members_manage

pub member_of : String → String → Exec Db GroupMember
member_of group user = query (λ db. read db get_member (find_member group user db.members))

pub update_group_member_role : Ctx → String → String → String → Exec Db GroupMember
unfolding group_of role_of require_role_change require_perm_subset_of_caller member_of
update_group_member_role ctx group user role = do
  g ← group_of group
  require_role_change ctx g.group_type group
  r ← role_of role
  check (is_role_assignable_to_group r g) (other "role scope does not match group type")
  require_perm_subset_of_caller ctx g r
  member_of group user
  set_member_role group user role
  member_of group user

abbrev is_global : Option String → Bool
is_global none = true
is_global (some g) = str_eq g ""

abbrev is_normal_scope : RoleScope → Bool
is_normal_scope normal_scope = true
is_normal_scope system_scope = false

pub validate_personal_role_assignable : String → Exec Db (Unit {0})
unfolding role_of
validate_personal_role_assignable role = do
  r ← role_of role
  check (is_normal_scope r.scope) (other "personal group role must be a normal-scope role")
  check (is_global r.group_id) (other "personal group role must be a global role")

pub create_personal_group : String → String → Exec Db Group
create_personal_group user role = do
  g ←
      insert_group
        (record { id = user ++ "-personal"; name = user ++ "-personal"; group_type = personal })
  insert_member (record { group_id = g.id; user_id = user; role_id = role; added_by = none })
  return g

-- Only a missing group is made; any other error of the lookup is passed on.
pub after_lookup : String → String → Result Group → Exec Db Group
unfolding create_personal_group
after_lookup user role (ok g) = return g
after_lookup user role (err not_found) =
    create_personal_group user (if str_eq role "" then seed_role_admin else role)
after_lookup user role (err e) = fail e

-- A requested role is validated.
pub validate_requested_role : String → Exec Db (Unit {0})
validate_requested_role role =
    if str_eq role "" then return tt else validate_personal_role_assignable role

pub ensure_personal_group_for_user : String → String → Exec Db Group
unfolding validate_requested_role after_lookup
ensure_personal_group_for_user user role = do
  validate_requested_role role
  (λ db.
      after_lookup user role
        (read db personal_group (find_personal_group user db.members db.groups)) db)
