-- ===== src/Permission/Roles/Authority/Examples.antt =====
-- Examples for usecase/role_usecase.go: a manager drops a key of a role of her group.
use baru_reso_headless_contr.Prelude.{some, none, [], ◌∷◌}
use baru_reso_headless_contr.Prelude.Outcome.{Effect}
use baru_reso_headless_contr.Permission.Fixtures.{tables}
use baru_reso_headless_contr.Permission.Roles.{update_role}
use baru_reso_headless_contr.Permission.Roles.Authority.{UpdateAllowed, update_role-Effect}

update_role-Effect_example :
    Effect
      (λ db'. UpdateAllowed (some "mia") "manager" (some ("group:members.manage" ∷ [])) tables)
      tables
      (update_role (some "mia") "manager" none (some ("group:members.manage" ∷ [])) tables).1
update_role-Effect_example =
    update_role-Effect (some "mia") "manager" none (some ("group:members.manage" ∷ [])) tables
