-- ===== src/Permission/Groups/Escalation.antt =====
-- usecase/group_usecase.go: who can add members and change roles, and to what.
use baru_reso_headless_contr.Prelude.{
  contains, ◌&&◌, db_error, if◌then◌else◌, ◌≡◌, ◌≢◌, refl, Bool, true, false, Option, ◌∷◌, String,
  ok, err, arith, All,
}
use baru_reso_headless_contr.Prelude.Outcome.{
  Outcome-map, Outcome, refused, done, Outcome-query, Outcome-check,
}
use baru_reso_headless_contr.Permission.Tables.{
  load_role-ok, role_exists, group_exists, add_member, Db, Group, GroupMember, Role, personal,
  scope_fits, read-ok, find_group, find_role, has_row, insert_member, get_group,
}
use baru_reso_headless_contr.Permission.Check.{Ctx, group_members_manage}
use baru_reso_headless_contr.Permission.Check.Grants.{
  require_permission_for_group-Granted, CallerGranted, subset_of_caller-Granted,
}
use baru_reso_headless_contr.Permission.Groups.{is_role_assignable_to_group, add_group_member}

-- What holds when a member was added.
pub record Added (ctx : Ctx) (group user role : String) (added_by : Option String) (db : Db)
    (m : GroupMember) (db' : Db) : Type 0 where
  pub row : m ≡ record { group_id = group; user_id = user; role_id = role; added_by = added_by }
  pub only_insert : db' ≡ record db { members = m ∷ db.members }
  pub was_absent : has_row group user db.members ≡ false
  pub may_manage : CallerGranted db ctx group group_members_manage
  pub to_group : Group
  pub group_found : find_group group db.groups ≡ ok to_group
  pub not_personal : to_group.group_type ≢ personal
  pub with_role : Role
  pub role_found : find_role role db.roles ≡ ok with_role
  pub scope_matches : scope_fits with_role.scope to_group.group_type ≡ true
  pub keys_held : All (λ k. CallerGranted db ctx to_group.id k) with_role.permission_keys

-- What an insertion of a member does.
record Inserted (m : GroupMember) (db : Db) (a : GroupMember) (db' : Db) : Type 0 where
  row : a ≡ m
  only_insert : db' ≡ record db { members = a ∷ db.members }
  was_absent : has_row m.group_id m.user_id db.members ≡ false

insert_member-Outcome :
    (m : GroupMember) (db : Db) → Outcome (Inserted m db) db (insert_member m db)
unfolding insert_member
insert_member-Outcome m db =
    go (db.down add_member) (has_row m.group_id m.user_id db.members)
      (group_exists m.group_id db.groups
        && contains db.users m.user_id
        && role_exists m.role_id db.roles)
      refl
  where
    go :
        (down present allowed : Bool)
        → has_row m.group_id m.user_id db.members ≡ present
        → Outcome (Inserted m db) db (
            if down
            then (err db_error, db)
            else if present
            then (err db_error, db)
            else if allowed
            then (ok m, record db { members = m ∷ db.members })
            else (err db_error, db))
    go true present allowed e = refused db_error refl
    go false true allowed e = refused db_error refl
    go false false false e = refused db_error refl
    go false false true e =
        done m (record db { members = m ∷ db.members }) refl
          (record { row = refl; only_insert = refl; was_absent = e })

-- Adding a member either fails and changes no table, or inserts exactly that row, into a group that
-- is not personal, on behalf of a caller who may manage its members, with a role whose scope fits
-- the group's type and whose every key the caller is granted there. That the role belongs to the
-- group, which docs/permissions.md asks of a custom role, is checked nowhere and so is not stated.
pub add_group_member-Outcome :
    (ctx : Ctx) (group user role : String) (added_by : Option String) (db : Db)
    → Outcome
        (Added ctx group user role added_by db)
        db
        (add_group_member ctx group user role added_by db)
unfolding add_group_member is_role_assignable_to_group
add_group_member-Outcome ctx group user role added_by db = Outcome-query _ _ db (λ _ may.
    Outcome-query _ _ db (λ g found. Outcome-check _ _ _ db (λ shared.
      Outcome-query _ _ db (λ r role_found. Outcome-check _ _ _ db (λ fits.
        Outcome-query _ _ db (λ _ held.
          Outcome-map _ _ _ (insert_member-Outcome _ db) (λ a db' inserted. record {
            row = inserted.row;
            only_insert = inserted.only_insert;
            was_absent = inserted.was_absent;
            may_manage = require_permission_for_group-Granted db ctx group group_members_manage may;
            to_group = g;
            group_found = read-ok db get_group (find_group group db.groups) g found;
            not_personal = λ e. ground arith;
            with_role = r;
            role_found = load_role-ok db role r role_found;
            scope_matches = fits;
            keys_held = subset_of_caller-Granted db ctx g.id r.permission_keys held;
          })))))))
