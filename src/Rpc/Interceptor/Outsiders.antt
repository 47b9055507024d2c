-- ===== src/Rpc/Interceptor/Outsiders.antt =====
-- adapter/rpc/permission_interceptor.go: what a user outside a group learns of it.
use baru_reso_headless_contr.Rpc.Interceptor.Passes.{not_listed}
use baru_reso_headless_contr.Permission.Check.Reads.{
  has_system_permission-groups, has_permission-groups,
}
use baru_reso_headless_contr.Prelude.{◌≡◌, inl, inr, false, List, String, Bool-cases}
use baru_reso_headless_contr.Permission.Tables.{Db, Group, has_row, list_groups}
use baru_reso_headless_contr.Permission.Check.{system_group_list, group_edit}
use baru_reso_headless_contr.Rpc.Interceptor.{
  check_membership, check_edit_or_member, check_group_readable,
}

module _ (db : Db) (groups : List Group) where
  check_membership-outside :
      (user group : String)
      → has_row group user db.members ≡ false
      → check_membership (record db { groups = groups }) user group ≡ check_membership db user group
  unfolding check_membership
  check_membership-outside user group outside = elim (Bool-cases (db.down list_groups)) [
    | inl down ↦ rw down
    | inr up ↦ rw (
      up,
      not_listed user group db.members groups outside,
      not_listed user group db.members db.groups outside,
    )
  ]

-- Nothing of a group that a user does not belong to shows in whether the user may look at it: the
-- answer is the same whatever the table of groups holds, the group's row included.
pub check_group_readable-same :
    (db : Db) (user group : String) (groups : List Group)
    → has_row group user db.members ≡ false
    → check_group_readable (record db { groups = groups }) user group
      ≡ check_group_readable db user group
unfolding check_group_readable check_edit_or_member
check_group_readable-same db user group groups outside = rw (
  has_system_permission-groups db groups user system_group_list,
  has_permission-groups db groups user group group_edit,
  check_membership-outside db groups user group outside,
)
