-- ===== src/Permission/Groups/Examples.antt =====
-- Examples for usecase/group_usecase.go.
use baru_reso_headless_contr.Permission.Tables.{Db, Role, normal_scope}
use baru_reso_headless_contr.Permission.Groups.RoleChanges.{
  RoleChanged, update_group_member_role-Effect,
}
use baru_reso_headless_contr.Prelude.{refl, some, [], ◌∷◌, List}
use baru_reso_headless_contr.Prelude.Outcome.{Outcome, Effect}
use baru_reso_headless_contr.Permission.Tables.{Query}
use baru_reso_headless_contr.Permission.Fixtures.{tables}
use baru_reso_headless_contr.Permission.Groups.{
  update_group_member_role, false, Bool, add_group_member,
}
use baru_reso_headless_contr.Permission.Groups.Escalation.{Added, add_group_member-Outcome}
use baru_reso_headless_contr.Permission.Groups.SystemGroup.{SystemSafe}
use baru_reso_headless_contr.Permission.Groups.Calls.{
  GroupCall, add, remove, calls, calls-SystemSafe,
}

add_group_member-Outcome_example :
    Outcome
      (Added (some "mia") "g" "new" "manager" (some "mia") tables)
      tables
      (add_group_member (some "mia") "g" "new" "manager" (some "mia") tables)
add_group_member-Outcome_example =
    add_group_member-Outcome (some "mia") "g" "new" "manager" (some "mia") tables

abbrev some_calls : List ((Query → Bool) × GroupCall)
some_calls =
    (λ q. false, add (some "root") "system" "mia" "seed-system-admin" (some "root"))
    ∷ (λ q. false, remove (some "mia") "system" "root")
    ∷ (λ q. false, remove (some "mia") "system" "mia")
    ∷ []

calls-SystemSafe_example : SystemSafe (calls some_calls tables)
calls-SystemSafe_example =
    calls-SystemSafe some_calls tables (record { is_there = refl; has_someone = refl })

abbrev reader : Role
reader = record {
  id = "reader";
  group_id = some "g";
  name = "reader";
  scope = normal_scope;
  is_builtin = false;
  permission_keys = "group:view" ∷ [];
}

abbrev with_reader : Db
with_reader = record tables { roles = reader ∷ tables.roles }

update_group_member_role-Effect_example :
    Effect
      (RoleChanged (some "root") "g" "mia" "reader" with_reader)
      with_reader
      (update_group_member_role (some "root") "g" "mia" "reader" with_reader).1
update_group_member_role-Effect_example =
    update_group_member_role-Effect (some "root") "g" "mia" "reader" with_reader
