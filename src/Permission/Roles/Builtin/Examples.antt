-- ===== src/Permission/Roles/Builtin/Examples.antt =====
-- Examples for usecase/role_usecase.go: a builtin role, and a manager who tries to change it.
use baru_reso_headless_contr.Prelude.{◌≡◌, false, some, List, [], ◌∷◌, Bool}
use baru_reso_headless_contr.Permission.Tables.{Query, normal_scope}
use baru_reso_headless_contr.Permission.Fixtures.{tables}
use baru_reso_headless_contr.Permission.Roles.Builtin.{
  RoleCall, create, update, delete, role_calls, builtins-role_calls,
}
use baru_reso_headless_contr.Permission.Roles.BuiltinRows.{builtins}

abbrev attempts : List ((Query → Bool) × RoleCall)
attempts =
    (λ q. false, update (some "mia") "seed-system-admin" (some "mine") (some []))
    ∷ (λ q. false, create (some "mia") "role-1" (some "g") "viewer" normal_scope [])
    ∷ (λ q. false, delete (some "mia") "seed-system-admin")
    ∷ []

builtins-role_calls_example : builtins (role_calls attempts tables).roles ≡ builtins tables.roles
builtins-role_calls_example = builtins-role_calls attempts tables
