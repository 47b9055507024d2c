-- ===== src/Permission/Check/Examples.antt =====
-- Examples for usecase/permission_usecase.go.
use baru_reso_headless_contr.Prelude.{◌≡◌, ◌↔◌, refl, true, ok}
use baru_reso_headless_contr.Permission.Fixtures.{tables}
use baru_reso_headless_contr.Permission.Check.{has_permission}
use baru_reso_headless_contr.Permission.Check.Grants.{Granted, has_permission_iff}

has_permission_iff_example :
    (has_permission tables "mia" "g" "group:members.manage" ≡ ok true)
    ↔ Granted tables "mia" "g" "group:members.manage"
has_permission_iff_example = has_permission_iff tables refl refl "mia" "g" "group:members.manage"
