-- ===== src/Permission/Groups/RoleChanges.antt =====
-- usecase/group_usecase.go: who can change the role of a member, and to what.
use baru_reso_headless_contr.Prelude.{List, [], ◌∷◌, str_eq, ◌&&◌, if◌then◌else◌, subst, sym, ap}
use baru_reso_headless_contr.Prelude.Table.{Each}
use baru_reso_headless_contr.Permission.Tables.{GroupMember}
use baru_reso_headless_contr.Prelude.{◌≡◌, refl, true, String, ok, arith, All, if◌then◌else◌}
use baru_reso_headless_contr.Prelude.Exec.{query}
use baru_reso_headless_contr.Prelude.Outcome.{
  Effect, untouched, changed, Effect-query, Effect-guard, Effect-write, Effect-check,
}
use baru_reso_headless_contr.Permission.Tables.{
  Db, Group, GroupType, personal, normal, system, Role, scope_fits, find_group, find_role, read-ok,
  get_group, load_role-ok, rows_with_role, set_member_role, is_personal,
}
use baru_reso_headless_contr.Permission.Check.{Ctx, system_group_manage, group_members_manage}
use baru_reso_headless_contr.Permission.Check.Grants.{
  is_system_key-system_group_manage, CallerGranted, require_permission_for_group-Granted,
  subset_of_caller-Granted, require_system_permission-Granted,
}
use baru_reso_headless_contr.Permission.Groups.{
  update_group_member_role, require_role_change, member_of, is_role_assignable_to_group,
}

-- The key that is needed to change a role in a group of this type.
abbrev pub key_to_change : GroupType → String
key_to_change t = if is_personal t then system_group_manage else group_members_manage

-- The member of the group has the role, every other row is as it was.
abbrev pub MemberRow : String → String → String → GroupMember → GroupMember → Type 0
MemberRow group user role m m' =
    m'
    ≡ (if str_eq m.group_id group && str_eq m.user_id user then record m { role_id = role } else m)

rows_with_role-Each :
    (group user role : String) (ms : List GroupMember)
    → Each (MemberRow group user role) ms (rows_with_role group user role ms)
unfolding rows_with_role
rows_with_role-Each group user role [] = tt
rows_with_role-Each group user role (m ∷ ms) =
    (ground arith, rows_with_role-Each group user role ms)

-- What holds when a role was changed. The group of the role is not part of it.
pub record RoleChanged (ctx : Ctx) (group user role : String) (db db' : Db) : Type 0 where
  pub only_members : db' ≡ record db { members = db'.members }
  pub rows : Each (MemberRow group user role) db.members db'.members
  pub changed_in : Group
  pub group_found : find_group group db.groups ≡ ok changed_in
  pub may_change : CallerGranted db ctx group (key_to_change changed_in.group_type)
  pub to_role : Role
  pub role_found : find_role role db.roles ≡ ok to_role
  pub scope_matches : scope_fits to_role.scope changed_in.group_type ≡ true
  pub keys_held : All (λ k. CallerGranted db ctx changed_in.id k) to_role.permission_keys

require_role_change-keeps :
    (ctx : Ctx) (t : GroupType) (group : String) (db : Db)
    → (require_role_change ctx t group db).1 ≡ db
unfolding require_role_change query
require_role_change-keeps ctx personal group db = refl
require_role_change-keeps ctx normal group db = refl
require_role_change-keeps ctx system group db = refl

require_role_change-Granted :
    (ctx : Ctx) (t : GroupType) (group : String) (a : Unit {0}) (db : Db)
    → (require_role_change ctx t group db).0 ≡ ok a
    → CallerGranted db ctx group (key_to_change t)
unfolding require_role_change query
require_role_change-Granted ctx personal group a db h =
    require_system_permission-Granted db ctx group system_group_manage
      is_system_key-system_group_manage h
require_role_change-Granted ctx normal group a db h =
    require_permission_for_group-Granted db ctx group group_members_manage h
require_role_change-Granted ctx system group a db h =
    require_permission_for_group-Granted db ctx group group_members_manage h

member_of-keeps : (group user : String) (db : Db) → (member_of group user db).1 ≡ db
unfolding member_of query
member_of-keeps group user db = refl

set_member_role-Effect :
    (group user role : String) (db : Db)
    → Effect
        (λ db'. db' ≡ record db { members = rows_with_role group user role db.members })
        db
        (set_member_role group user role db).1
unfolding set_member_role
set_member_role-Effect group user role db = ground arith

Effect-map :
    (P Q : Db → Type 0) (s s' : Db) → Effect P s s' → ((t : Db) → P t → Q t) → Effect Q s s'
Effect-map P Q s s' (untouched e) f = untouched e
Effect-map P Q s s' (changed p) f = changed (f s' p)

-- A change of a member's role leaves every table as it was, or changes exactly the role of that
-- member, on behalf of a caller who may manage the group's members, or any group if the group is
-- personal, to a role whose scope fits the group's type and whose every key the caller is granted
-- there. That the role belongs to the group, which docs/permissions.md asks of a custom role, is
-- checked nowhere and so is not stated.
pub update_group_member_role-Effect :
    (ctx : Ctx) (group user role : String) (db : Db)
    → Effect
        (RoleChanged ctx group user role db)
        db
        (update_group_member_role ctx group user role db).1
unfolding update_group_member_role is_role_assignable_to_group
update_group_member_role-Effect ctx group user role db = Effect-query _ _ db (λ g found.
    Effect-guard (require_role_change ctx g.group_type group) _ db
      (require_role_change-keeps ctx g.group_type group db)
      (λ a may. Effect-query _ _ db (λ r role_found. Effect-check _ _ _ db (λ fits.
        Effect-query _ _ db (λ _ held. Effect-query _ _ db (λ _ _.
          Effect-write (set_member_role group user role) _ db
            (Effect-map _ _ db _ (set_member_role-Effect group user role db) (λ db' rows. record {
              only_members = ground (arith, rows);
              rows =
                  subst (Each (MemberRow group user role) db.members)
                    (sym (ap (λ d. d.members) rows))
                    (rows_with_role-Each group user role db.members);
              changed_in = g;
              group_found = read-ok db get_group (find_group group db.groups) g found;
              may_change = require_role_change-Granted ctx g.group_type group a db may;
              to_role = r;
              role_found = load_role-ok db role r role_found;
              scope_matches = fits;
              keys_held = subset_of_caller-Granted db ctx g.id r.permission_keys held;
            }))
            (λ _ t. member_of-keeps group user t)))))))
