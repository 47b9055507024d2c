-- ===== src/Permission/Fixtures.antt =====
-- Test data: an administrator of the system group, and a manager of the group "g".
use baru_reso_headless_contr.Prelude.{some, none, true, false, [], ◌∷◌}
use baru_reso_headless_contr.Permission.Tables.{
  Db, Role, normal, system, normal_scope, system_scope,
}

abbrev pub admin_role : Role
admin_role = record {
  id = "seed-system-admin";
  group_id = none;
  name = "admin";
  scope = system_scope;
  is_builtin = true;
  permission_keys = "system:group.manage" ∷ [];
}

abbrev pub manager_role : Role
manager_role = record {
  id = "manager";
  group_id = some "g";
  name = "manager";
  scope = normal_scope;
  is_builtin = false;
  permission_keys = "group:members.manage" ∷ "group:view" ∷ [];
}

abbrev pub viewer_role : Role
viewer_role = record {
  id = "viewer";
  group_id = some "other";
  name = "viewer";
  scope = normal_scope;
  is_builtin = false;
  permission_keys = "group:view" ∷ [];
}

abbrev pub tables : Db
tables = record {
  users = "root" ∷ "mia" ∷ "new" ∷ [];
  groups =
      record { id = "system"; name = "system"; group_type = system }
      ∷ record { id = "g"; name = "group"; group_type = normal }
      ∷ record { id = "other"; name = "other"; group_type = normal }
      ∷ [];
  roles = admin_role ∷ manager_role ∷ viewer_role ∷ [];
  members =
      record {
        group_id = "system";
        user_id = "root";
        role_id = "seed-system-admin";
        added_by = none;
      }
      ∷ record { group_id = "g"; user_id = "mia"; role_id = "manager"; added_by = none }
      ∷ [];
  down = λ q. false;
}
