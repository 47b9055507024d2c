-- ===== src/Rpc/Interceptor/Admits.antt =====
-- adapter/rpc/permission_interceptor.go: what each rule asks for, in terms of the rows of the tables.
use baru_reso_headless_contr.Prelude.{
  All, ◌≡◌, ◌≢◌, ◌⊎◌, true, false, some, List, [], ◌∷◌, String, Result, ok,
}
use baru_reso_headless_contr.Permission.Tables.{
  Db, Group, Role, has_row, system_group_id, find_group, load_role, is_personal,
}
use baru_reso_headless_contr.Permission.Check.{
  Ctx, resolve_group_id_for_user, system_group_manage, system_group_list, group_edit,
  group_members_manage, system_role_manage,
}
use baru_reso_headless_contr.Permission.Check.Rows.{Holds}
use baru_reso_headless_contr.Permission.Check.Grants.{CallerGranted}
use baru_reso_headless_contr.Rpc.Text.{trim_space}
use baru_reso_headless_contr.Rpc.Interceptor.{
  Rule, require_auth_only, public_rpc, require_authenticated, require_system_perm,
  check_host_permission, check_session_permission, check_account_permission, check_group_permission,
  check_start_headless_host, check_create_headless_account, check_start_world,
  check_update_session_parameters, check_update_group_member_role, check_list_roles,
  check_create_role, check_role_mutation, Resources, Request, group_or_empty,
}

-- The caller's role in the system group has the key.
abbrev pub CallerHolds : Db → Ctx → String → Type 0
CallerHolds db ctx key = (user : String) × (ctx ≡ some user) × Holds db user system_group_id key

-- The caller may look at a group.
pub data Reads (db : Db) (ctx : Ctx) (group : String) : Type 0 where
  lists_all : CallerHolds db ctx system_group_list → Reads db ctx group
  edits : CallerGranted db ctx group group_edit → Reads db ctx group
  belongs :
      (user : String) → ctx ≡ some user → has_row group user db.members ≡ true → Reads db ctx group

-- The caller is granted the keys on the group that a lookup finds.
abbrev pub OnFound : Result String → Db → Ctx → List String → Type 0
OnFound found db ctx keys =
    (group : String) × (found ≡ ok group) × All (CallerGranted db ctx group) keys

-- Global roles are the system's business, a group's those of its managers.
abbrev pub Manages : Db → Ctx → String → Type 0
Manages db ctx group =
    ((group ≡ "") × CallerHolds db ctx system_role_manage)
    ⊎ ((group ≢ "") × CallerGranted db ctx group group_members_manage)

-- What each rule makes sure of.
abbrev pub Admits : Resources → Db → Ctx → Request → Rule → Type 0
Admits res db ctx req require_auth_only = Unit
Admits res db ctx req public_rpc = Unit
Admits res db ctx req require_authenticated = (user : String) × (ctx ≡ some user)
Admits res db ctx req (require_system_perm key) = CallerHolds db ctx key
Admits res db ctx req (check_host_permission key) =
    OnFound (res.group_of_host (trim_space req.host_id)) db ctx (key ∷ [])
Admits res db ctx req (check_session_permission key) =
    OnFound (res.group_of_session (trim_space req.session_id)) db ctx (key ∷ [])
Admits res db ctx req (check_account_permission key) =
    OnFound (res.group_of_account (trim_space req.account_id)) db ctx (key ∷ [])
Admits res db ctx req (check_group_permission key true) = Reads db ctx (trim_space req.group_id)
Admits res db ctx req (check_group_permission key false) =
    CallerGranted db ctx (trim_space req.group_id) key
Admits res db ctx req check_start_headless_host =
    OnFound (res.group_of_account req.account_id) db ctx ("host:write" ∷ "account:use" ∷ [])
Admits res db ctx req check_create_headless_account =
    (user : String) × OnFound (resolve_group_id_for_user db user req.group_id) db ctx
      ("account:write" ∷ [])
Admits res db ctx req check_start_world =
    OnFound (res.group_of_host req.host_id) db ctx
      ("host:use" ∷ "account:use" ∷ "session:write" ∷ [])
Admits res db ctx req check_update_session_parameters =
    OnFound (res.group_of_session req.session_id) db ctx ("session:write" ∷ [])
Admits res db ctx req check_update_group_member_role =
    (g : Group) × (find_group req.group_id db.groups ≡ ok g)
    × (CallerHolds db ctx system_group_manage
        ⊎ (is_personal g.group_type ≡ false)
          × CallerGranted db ctx req.group_id group_members_manage)
Admits res db ctx req check_list_roles =
    (trim_space req.group_id ≡ "") ⊎ Reads db ctx (trim_space req.group_id)
Admits res db ctx req check_create_role = Manages db ctx req.group_id
Admits res db ctx req check_role_mutation =
    (role : Role) × (load_role db req.role_id ≡ ok role)
    × Manages db ctx (group_or_empty role.group_id)
