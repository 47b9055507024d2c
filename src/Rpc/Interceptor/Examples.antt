-- ===== src/Rpc/Interceptor/Examples.antt =====
-- The registrations of the server.
use baru_reso_headless_contr.Permission.Fixtures.{tables}
use baru_reso_headless_contr.Permission.Check.{has_permission, is_system_key}
use baru_reso_headless_contr.Permission.Tables.{
  keys_of_user, keys_of_role, get_user_permissions_for_group,
}
use baru_reso_headless_contr.Rpc.Interceptor.{require_perm, extract_claims}
use baru_reso_headless_contr.Rpc.Text.{trim_space}
use baru_reso_headless_contr.Rpc.Interceptor.Admits.{Admits}
use baru_reso_headless_contr.Rpc.Interceptor.Admission.{wrap_unary-Admits}
use baru_reso_headless_contr.Rpc.Interceptor.Outsiders.{check_group_readable-same}
use baru_reso_headless_contr.Prelude.{
  ◌≡◌, refl, String, ok, some, none, [], Map, lookup, insert, delete, true,
}
use baru_reso_headless_contr.Rpc.Interceptor.{
  require_perm, has_permission, trim_space, Resources, Request, wrap_unary, check_group_readable,
  Rule, register, register_all, all_registered,
}
use baru_reso_headless_contr.Rpc.Interceptor.Rules.{rpc_permission_rules, all_known_procedures}

abbrev started : Map Rule
started = elim (register_all rpc_permission_rules (some [])) [ none ↦ [] | some rules ↦ rules ]

-- No procedure is registered twice, and none is missing.
all_known : all_registered all_known_procedures started ≡ true
unfolding register_all register all_registered lookup insert delete
all_known = refl

-- Hosts, sessions and accounts all belong to the group "g".
abbrev in_g : Resources
in_g = record {
  group_of_host = λ id. ok "g";
  group_of_session = λ id. ok "g";
  group_of_account = λ id. ok "g";
}

abbrev of_group_g : Request
of_group_g = record {
  host_id = "";
  session_id = "";
  account_id = "";
  group_id = " g ";
  role_id = "";
}

abbrev add_member : String
add_member = "/hdlctrl.v1.GroupService/AddGroupMember"

wrap_unary-Admits_example :
    (rule : Rule) × (lookup add_member started ≡ some rule)
    × Admits in_g tables (some "mia") of_group_g rule
unfolding wrap_unary lookup register_all insert delete extract_claims trim_space has_permission
    require_perm is_system_key keys_of_user get_user_permissions_for_group keys_of_role
wrap_unary-Admits_example =
    wrap_unary-Admits started in_g tables (some "mia") add_member of_group_g refl

check_group_readable-same_example :
    check_group_readable (record tables { groups = [] }) "new" "g"
    ≡ check_group_readable tables "new" "g"
check_group_readable-same_example = check_group_readable-same tables "new" "g" [] refl
