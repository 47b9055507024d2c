-- ===== src/Rpc/Interceptor/Checks.antt =====
-- adapter/rpc/permission_interceptor.go: what the rules that read the request further make sure of.
use baru_reso_headless_contr.Prelude.{arith, eq_iff}
use baru_reso_headless_contr.Rpc.Interceptor.Admits.{
  OnFound, Manages, Reads, lists_all, edits, belongs, Admits,
}
use baru_reso_headless_contr.Rpc.Interceptor.Passes.{
  bind-pass, converted-pass, or_internal-pass, extract_claims-pass, read-ok,
  check_membership-has_row, granted, holds,
}
use baru_reso_headless_contr.Prelude.{
  ap, ◌≡◌, inl, inr, ◌∙◌, Bool, true, false, ◌||◌, [], ◌∷◌, String, str_eq, Result, ok, Bool-cases,
  str_eq→eq,
}
use baru_reso_headless_contr.Permission.Tables.{Db, find_group, is_personal, read, get_group}
use baru_reso_headless_contr.Permission.Check.{
  Ctx, has_system_permission, has_permission, resolve_group_id_for_user, system_group_manage,
  system_group_list, group_edit, group_members_manage, system_role_manage,
}
use baru_reso_headless_contr.Permission.Check.Grants.{
  has_permission_sound, has_system_permission-Holds,
}
use baru_reso_headless_contr.Rpc.Text.{trim_space}
use baru_reso_headless_contr.Rpc.Interceptor.{
  failed_precondition, check_group_permission, check_update_group_member_role, check_list_roles,
  pass, ensure, converted, or_internal, Resources, Request, extract_claims, require_perm, non_empty,
  check_edit_or_member, check_group_readable, on_resource, on_group, on_role_of,
  on_start_headless_host, on_create_headless_account, on_start_world, on_update_session_parameters,
  on_update_group_member_role, on_list_roles,
}

pub check_group_readable-Reads :
    (db : Db) (ctx : Ctx) {user : String} (group : String)
    → extract_claims ctx ≡ pass user
    → check_group_readable db user group ≡ pass tt
    → Reads db ctx group
unfolding check_group_readable check_edit_or_member
check_group_readable-Reads db ctx {user} group c h =
    let who = extract_claims-pass ctx c in
    let all = has_system_permission db user system_group_list in
    let (can_list, asked, h1) = bind-pass (or_internal all) _ h in
    elim (Bool-cases can_list) [
      | inl may ↦ lists_all (
        user,
        who,
        has_system_permission-Holds db user system_group_list
            (or_internal-pass all asked ∙ ap ok may),
      )
      | inr may_not ↦
          let edit = has_permission db user group group_edit in
          let (may_edit, asked_edit, h2) = bind-pass (or_internal edit) _ (rw may_not at h1) in
          elim (Bool-cases may_edit) [
            | inl may ↦ edits (
              user,
              who,
              has_permission_sound db user group group_edit
                  (or_internal-pass edit asked_edit ∙ ap ok may),
            )
            | inr refused ↦
                belongs user who (check_membership-has_row db user group (rw refused at h2))
          ]
    ]

pub on_resource-OnFound :
    (group_of : String → Result String) (db : Db) (ctx : Ctx) (key raw : String)
    → on_resource group_of db ctx key raw ≡ pass tt
    → OnFound (group_of (trim_space raw)) db ctx (key ∷ [])
unfolding on_resource
on_resource-OnFound group_of db ctx key raw h =
    let (user, c, h1) = bind-pass (extract_claims ctx) _ h in
    let (u, v, h2) = bind-pass (non_empty (trim_space raw)) _ h1 in
    let (group, found, h3) = bind-pass (converted (group_of (trim_space raw))) _ h2 in
    (group, converted-pass (group_of (trim_space raw)) found, (granted db ctx group key c h3, tt))

pub on_role_of-Manages :
    (db : Db) (ctx : Ctx) {user : String} (group : String)
    → extract_claims ctx ≡ pass user
    → on_role_of db user group ≡ pass tt
    → Manages db ctx group
unfolding on_role_of
on_role_of-Manages db ctx {user} group c h = elim (Bool-cases (str_eq group "")) [
  | inl global ↦ inl (str_eq→eq group "" global, holds db ctx system_role_manage c (rw global at h))
  | inr own ↦ inr (
    λ e. ground (arith, eq_iff group ""),
    granted db ctx group group_members_manage c (rw own at h),
  )
]

pub on_start_headless_host-OnFound :
    (res : Resources) (db : Db) (ctx : Ctx) (req : Request)
    → on_start_headless_host res db ctx req ≡ pass tt
    → OnFound (res.group_of_account req.account_id) db ctx ("host:write" ∷ "account:use" ∷ [])
unfolding on_start_headless_host
on_start_headless_host-OnFound res db ctx req h =
    let (user, c, h1) = bind-pass (extract_claims ctx) _ h in
    let (u, v, h2) = bind-pass (non_empty req.account_id) _ h1 in
    let found = res.group_of_account req.account_id in
    let (group, answer, h3) = bind-pass (converted found) _ h2 in
    let (u1, same, h4) =
      bind-pass (ensure (str_eq req.group_id "" || str_eq group req.group_id) failed_precondition) _
        h3 in
    let (u2, writes, h5) = bind-pass (require_perm db user group "host:write") _ h4 in
    (
      group,
      converted-pass found answer,
      (granted db ctx group "host:write" c writes, (granted db ctx group "account:use" c h5, tt)),
    )

pub on_create_headless_account-OnFound :
    (res : Resources) (db : Db) (ctx : Ctx) (req : Request)
    → on_create_headless_account db ctx req ≡ pass tt
    → (user : String) × OnFound
        (resolve_group_id_for_user db user req.group_id)
        db
        ctx
        ("account:write" ∷ [])
unfolding on_create_headless_account
on_create_headless_account-OnFound res db ctx req h =
    let (user, c, h1) = bind-pass (extract_claims ctx) _ h in
    let found = resolve_group_id_for_user db user req.group_id in
    let (group, answer, h2) = bind-pass (converted found) _ h1 in
    (user, (group, converted-pass found answer, (granted db ctx group "account:write" c h2, tt)))

pub on_start_world-OnFound :
    (res : Resources) (db : Db) (ctx : Ctx) (req : Request)
    → on_start_world res db ctx req ≡ pass tt
    → OnFound
        (res.group_of_host req.host_id)
        db
        ctx
        ("host:use" ∷ "account:use" ∷ "session:write" ∷ [])
unfolding on_start_world
on_start_world-OnFound res db ctx req h =
    let (user, c, h1) = bind-pass (extract_claims ctx) _ h in
    let (u, v, h2) = bind-pass (non_empty req.host_id) _ h1 in
    let found = res.group_of_host req.host_id in
    let (group, answer, h3) = bind-pass (converted found) _ h2 in
    let (u1, same, h4) =
      bind-pass (ensure (str_eq req.group_id "" || str_eq req.group_id group) failed_precondition) _
        h3 in
    let (u2, host, h5) = bind-pass (require_perm db user group "host:use") _ h4 in
    let (u3, account, h6) = bind-pass (require_perm db user group "account:use") _ h5 in
    (
      group,
      converted-pass found answer,
      (
        granted db ctx group "host:use" c host,
        (
          granted db ctx group "account:use" c account,
          (granted db ctx group "session:write" c h6, tt),
        ),
      ),
    )

pub on_update_session_parameters-OnFound :
    (res : Resources) (db : Db) (ctx : Ctx) (req : Request)
    → on_update_session_parameters res db ctx req ≡ pass tt
    → OnFound (res.group_of_session req.session_id) db ctx ("session:write" ∷ [])
unfolding on_update_session_parameters
on_update_session_parameters-OnFound res db ctx req h =
    let (u, v, h1) = bind-pass (non_empty req.session_id) _ h in
    let (user, c, h2) = bind-pass (extract_claims ctx) _ h1 in
    let found = res.group_of_session req.session_id in
    let (group, answer, h3) = bind-pass (converted found) _ h2 in
    (group, converted-pass found answer, (granted db ctx group "session:write" c h3, tt))

pub on_group-Admits :
    (res : Resources) (db : Db) (ctx : Ctx) (req : Request) (key : String) (read_only : Bool)
    → on_group db ctx key read_only req.group_id ≡ pass tt
    → Admits res db ctx req (check_group_permission key read_only)
unfolding on_group
on_group-Admits res db ctx req key true h =
    let (user, c, h1) = bind-pass (extract_claims ctx) _ h in
    let (u, v, h2) = bind-pass (non_empty (trim_space req.group_id)) _ h1 in
    check_group_readable-Reads db ctx (trim_space req.group_id) c h2
on_group-Admits res db ctx req key false h =
    let (user, c, h1) = bind-pass (extract_claims ctx) _ h in
    let (u, v, h2) = bind-pass (non_empty (trim_space req.group_id)) _ h1 in
    granted db ctx (trim_space req.group_id) key c h2

pub on_update_group_member_role-Admits :
    (res : Resources) (db : Db) (ctx : Ctx) (req : Request)
    → on_update_group_member_role db ctx req ≡ pass tt
    → Admits res db ctx req check_update_group_member_role
unfolding on_update_group_member_role
on_update_group_member_role-Admits res db ctx req h =
    let (user, c, h1) = bind-pass (extract_claims ctx) _ h in
    let (u, v, h2) = bind-pass (non_empty req.group_id) _ h1 in
    let found = read db get_group (find_group req.group_id db.groups) in
    let (g, answer, h3) = bind-pass (converted found) _ h2 in
    let row : find_group req.group_id db.groups ≡ ok g =
      read-ok db get_group (find_group req.group_id db.groups) (converted-pass found answer) in
    (
      g,
      row,
      elim (Bool-cases (is_personal g.group_type)) [
        | inl personal_one ↦ inl (holds db ctx system_group_manage c (rw personal_one at h3))
        | inr shared ↦
            inr (shared, granted db ctx req.group_id group_members_manage c (rw shared at h3))
      ],
    )

pub on_list_roles-Admits :
    (res : Resources) (db : Db) (ctx : Ctx) (req : Request)
    → on_list_roles db ctx req ≡ pass tt
    → Admits res db ctx req check_list_roles
unfolding on_list_roles
on_list_roles-Admits res db ctx req h =
    let (user, c, h1) = bind-pass (extract_claims ctx) _ h in
    elim (Bool-cases (str_eq (trim_space req.group_id) "")) [
      | inl global ↦ inl (str_eq→eq (trim_space req.group_id) "" global)
      | inr own ↦ inr (check_group_readable-Reads db ctx (trim_space req.group_id) c (rw own at h1))
    ]
