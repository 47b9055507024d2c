-- ===== src/Permission/Check/Reads.antt =====
-- usecase/permission_usecase.go: the tables that the decisions read.
use baru_reso_headless_contr.Prelude.{◌≡◌, refl, List, String}
use baru_reso_headless_contr.Permission.Tables.{
  Db, Group, get_user_permissions_for_group, list_user_system_permissions,
}
use baru_reso_headless_contr.Permission.Check.{in_group, has_permission, has_system_permission}

-- The decisions read the roles and the memberships only.
module _ (db : Db) (groups : List Group) where
  pub has_system_permission-groups :
      (user key : String)
      → has_system_permission (record db { groups = groups }) user key
        ≡ has_system_permission db user key
  unfolding has_system_permission list_user_system_permissions
  has_system_permission-groups user key = refl

  pub has_permission-groups :
      (user group key : String)
      → has_permission (record db { groups = groups }) user group key
        ≡ has_permission db user group key
  unfolding has_permission in_group get_user_permissions_for_group has_system_permission
      list_user_system_permissions
  has_permission-groups user group key = refl
