-- ===== src/Permission/Check.antt =====
-- usecase/permission_usecase.go, and the permission keys of domain/entity/permission.go.
-- A context holds the user id of its claims, if it has claims.
pub mod Rows
pub mod Grants
pub mod Reads
mod Examples
use text.Mathlib.Text.{starts_with}
use baru_reso_headless_contr.Prelude.{
  Bool, true, false, ◌&&◌, Option, none, some, List, [], ◌∷◌, ◌++◌, String, str_eq, contains,
  if◌then◌else◌, Result, ok, err, unauthenticated, permission_denied, ◌>>=◌, ◌>>◌, guard,
}
use baru_reso_headless_contr.Permission.Tables.{
  Db, Group, GroupMember, get_user_permissions_for_group, list_user_system_permissions,
  system_group_id, read, list_memberships, personal_group, memberships_of_user, find_personal_group,
}

abbrev pub system_group_manage : String
system_group_manage = "system:group.manage"

abbrev pub system_group_list : String
system_group_list = "system:group.list"

abbrev pub group_members_manage : String
group_members_manage = "group:members.manage"

abbrev pub group_edit : String
group_edit = "group:edit"

abbrev pub system_role_manage : String
system_role_manage = "system:role.manage"

unfoldable pub is_system_key : String → Bool
is_system_key key = starts_with key "system:"

-- The claims of the request's context.
abbrev pub Ctx : Type 0
Ctx = Option String

unfoldable pub current_user_id : Ctx → Result String
current_user_id none = err unauthenticated
current_user_id (some user) = if str_eq user "" then err unauthenticated else ok user

pub has_system_permission : Db → String → String → Result Bool
has_system_permission db user key = do
  keys ← list_user_system_permissions db user
  ok (contains keys key)

-- The membership part: `none` of the caller's keys is read without a group.
in_group : Db → String → String → String → Result Bool
in_group db user group key =
    if str_eq group ""
    then ok false
    else (do keys ← get_user_permissions_for_group db user group; ok (contains keys key))

unfoldable pub has_permission : Db → String → String → String → Result Bool
unfolding in_group has_system_permission
has_permission db user group key =
    if str_eq key ""
    then ok true
    else if is_system_key key
    then has_system_permission db user key
    else (do
      direct ← in_group db user group key
      if direct then ok true else has_system_permission db user system_group_manage)

pub has_all_permissions : Db → String → String → List String → Result Bool
has_all_permissions db user group [] = ok true
has_all_permissions db user group (k ∷ ks) = do
  held ← has_permission db user group k
  if held then has_all_permissions db user group ks else ok false

pub resolve_group_id_for_user : Db → String → String → Result String
resolve_group_id_for_user db user requested =
    if str_eq requested ""
    then (do g ← read db personal_group (find_personal_group user db.members db.groups); ok g.id)
    else ok requested

-- The loop of `ResolveListGroupFilter` over the memberships.
readable_groups : Db → String → String → List GroupMember → Result (List String)
readable_groups db user key [] = ok []
readable_groups db user key (m ∷ ms) =
    let rest = readable_groups db user key ms in
    if str_eq m.group_id system_group_id
    then rest
    else if str_eq key ""
    then (do gs ← rest; ok (m.group_id ∷ gs))
    else (do
      held ← has_permission db user m.group_id key
      gs ← rest
      ok (if held then m.group_id ∷ gs else gs))

-- `none` is `listAll`.
-- The groups to filter by when the caller may not list all.
own_groups : Db → String → String → Result (Option (List String))
unfolding readable_groups
own_groups db user key = do
  memberships ← read db list_memberships (ok (memberships_of_user user db.members))
  groups ← readable_groups db user key memberships
  ok (some groups)

-- `none` is `listAll`.
pub resolve_list_group_filter : Db → String → String → Result (Option (List String))
unfolding own_groups
resolve_list_group_filter db user key = do
  list_all ← has_system_permission db user system_group_list
  if list_all then ok none else own_groups db user key

pub can_read_group : Db → String → String → String → Result Bool
can_read_group db user group key = do
  can_list ← has_system_permission db user system_group_list
  if can_list then ok true else has_permission db user group key

pub require_permission_for_group : Db → Ctx → String → String → Result (Unit {0})
require_permission_for_group db ctx group key = do
  user ← current_user_id ctx
  held ← has_permission db user group key
  guard held permission_denied

pub require_system_permission : Db → Ctx → String → Result (Unit {0})
require_system_permission db ctx key = do
  user ← current_user_id ctx
  held ← has_system_permission db user key
  guard held permission_denied

pub require_all_permissions_for_group : Db → Ctx → String → List String → Result (Unit {0})
require_all_permissions_for_group db ctx group [] = ok tt
require_all_permissions_for_group db ctx group (k ∷ ks) = do
  require_permission_for_group db ctx group k
  require_all_permissions_for_group db ctx group ks

-- The loop of `RequireAnyPermissionForGroup`.
any_permission : Db → String → String → List String → Result (Unit {0})
any_permission db user group [] = err permission_denied
any_permission db user group (k ∷ ks) =
    let rest = any_permission db user group ks in
    (do held ← has_permission db user group k; if held then ok tt else rest)

pub require_any_permission_for_group : Db → Ctx → String → List String → Result (Unit {0})
unfolding any_permission
require_any_permission_for_group db ctx group keys = do
  user ← current_user_id ctx
  any_permission db user group keys

pub can_read_group_any : Db → String → String → List String → Result Bool
can_read_group_any db user group [] = ok false
can_read_group_any db user group (k ∷ ks) =
    let rest = can_read_group_any db user group ks in
    (do readable ← can_read_group db user group k; if readable then ok true else rest)

-- `requirePermSubsetOfCaller` and `requireSubsetOfCaller`: the loop over the keys.
pub caller_holds_all : Db → String → String → List String → Result (Unit {0})
caller_holds_all db caller group [] = ok tt
caller_holds_all db caller group (k ∷ ks) = do
  held ← has_permission db caller group k
  guard held permission_denied
  caller_holds_all db caller group ks

-- `GroupUsecase.requirePermSubsetOfCaller`: a role without keys passes without a look at the claims.
pub subset_of_caller : Db → Ctx → String → List String → Result (Unit {0})
subset_of_caller db ctx group [] = ok tt
subset_of_caller db ctx group (k ∷ ks) = do
  caller ← current_user_id ctx
  caller_holds_all db caller group (k ∷ ks)

-- `RoleUsecase.requireSubsetOfCaller`: the claims are read first.
pub require_subset_of_caller : Db → Ctx → String → List String → Result (Unit {0})
require_subset_of_caller db ctx group keys = do
  caller ← current_user_id ctx
  caller_holds_all db caller group keys
