-- ===== src/Rpc/Interceptor/Admission.antt =====
-- adapter/rpc/permission_interceptor.go: what a request that reaches its handler has been checked
-- for.
use baru_reso_headless_contr.Rpc.Interceptor.Admits.{Admits}
use baru_reso_headless_contr.Rpc.Interceptor.Passes.{
  bind-pass, converted-pass, extract_claims-pass, holds,
}
use baru_reso_headless_contr.Rpc.Interceptor.Checks.{
  on_resource-OnFound, on_role_of-Manages, on_start_headless_host-OnFound,
  on_create_headless_account-OnFound, on_start_world-OnFound, on_update_session_parameters-OnFound,
  on_group-Admits, on_update_group_member_role-Admits, on_list_roles-Admits,
}
use baru_reso_headless_contr.Prelude.{◌≡◌, inl, inr, some, String, Map, lookup, arith, Option-cases}
use baru_reso_headless_contr.Permission.Tables.{Db, load_role}
use baru_reso_headless_contr.Permission.Check.{Ctx}
use baru_reso_headless_contr.Rpc.Interceptor.{
  Rule, require_auth_only, public_rpc, require_authenticated, require_system_perm,
  check_host_permission, check_session_permission, check_account_permission, check_group_permission,
  check_start_headless_host, check_create_headless_account, check_start_world,
  check_update_session_parameters, check_update_group_member_role, check_list_roles,
  check_create_role, check_role_mutation, pass, converted, Resources, Request, extract_claims,
  non_empty, check_rule, wrap_unary, group_or_empty, check_known, on_create_role, on_role_mutation,
}

check_rule-Admits :
    (res : Resources) (db : Db) (ctx : Ctx) (req : Request) (rule : Rule)
    → check_rule res db ctx req rule ≡ pass tt
    → Admits res db ctx req rule
unfolding check_rule on_create_role on_role_mutation
check_rule-Admits res db ctx req require_auth_only h = tt
check_rule-Admits res db ctx req public_rpc h = tt
check_rule-Admits res db ctx req require_authenticated h =
    let (user, c, h1) = bind-pass (extract_claims ctx) _ h in (user, extract_claims-pass ctx c)
check_rule-Admits res db ctx req (require_system_perm key) h =
    let (user, c, h1) = bind-pass (extract_claims ctx) _ h in holds db ctx key c h1
check_rule-Admits res db ctx req (check_host_permission key) h =
    on_resource-OnFound res.group_of_host db ctx key req.host_id h
check_rule-Admits res db ctx req (check_session_permission key) h =
    on_resource-OnFound res.group_of_session db ctx key req.session_id h
check_rule-Admits res db ctx req (check_account_permission key) h =
    on_resource-OnFound res.group_of_account db ctx key req.account_id h
check_rule-Admits res db ctx req (check_group_permission key read_only) h =
    on_group-Admits res db ctx req key read_only h
check_rule-Admits res db ctx req check_start_headless_host h =
    on_start_headless_host-OnFound res db ctx req h
check_rule-Admits res db ctx req check_create_headless_account h =
    on_create_headless_account-OnFound res db ctx req h
check_rule-Admits res db ctx req check_start_world h = on_start_world-OnFound res db ctx req h
check_rule-Admits res db ctx req check_update_session_parameters h =
    on_update_session_parameters-OnFound res db ctx req h
check_rule-Admits res db ctx req check_update_group_member_role h =
    on_update_group_member_role-Admits res db ctx req h
check_rule-Admits res db ctx req check_list_roles h = on_list_roles-Admits res db ctx req h
check_rule-Admits res db ctx req check_create_role h =
    let (user, c, h1) = bind-pass (extract_claims ctx) _ h in
    on_role_of-Manages db ctx req.group_id c h1
check_rule-Admits res db ctx req check_role_mutation h =
    let (u, v, h1) = bind-pass (non_empty req.role_id) _ h in
    let (user, c, h2) = bind-pass (extract_claims ctx) _ h1 in
    let found = load_role db req.role_id in
    let (role, answer, h3) = bind-pass (converted found) _ h2 in
    (
      role,
      converted-pass found answer,
      on_role_of-Manages db ctx (group_or_empty role.group_id) c h3,
    )

-- A request reaches its handler only if its procedure has a rule and what the rule asks for holds:
-- claims, a role of the system group with the key, or a grant of every key on the group of the
-- host, session, account or group that the request names. A role without a group is created or
-- changed only with system:role.manage, a group's role only with group:members.manage there.
pub wrap_unary-Admits :
    (rules : Map Rule) (res : Resources) (db : Db) (ctx : Ctx) (procedure : String) (req : Request)
    → wrap_unary rules res db ctx procedure req ≡ pass tt
    → (rule : Rule) × (lookup procedure rules ≡ some rule) × Admits res db ctx req rule
unfolding wrap_unary check_known
wrap_unary-Admits rules res db ctx procedure req h = elim (Option-cases (lookup procedure rules)) [
  | inl unknown ↦ absurd (ground (arith, unknown, h))
  | inr (rule, known) ↦ (rule, known, check_rule-Admits res db ctx req rule (rw known at h))
]
