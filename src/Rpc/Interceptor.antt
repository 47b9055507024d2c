-- ===== src/Rpc/Interceptor.antt =====
-- adapter/rpc/permission_interceptor.go: each procedure has a rule, and a request reaches its
-- handler only if the rule lets it pass. A request is what the rules read of it, "" standing for an
-- absent field; a rule is registered for its own message type, so the type assertions hold.
pub mod Rules
pub mod Admits
mod Passes
mod Checks
pub mod Admission
pub mod Outsiders
mod Examples
use baru_reso_headless_contr.Prelude.{
  Bool, true, false, ◌||◌, Option, none, some, List, [], ◌∷◌, String, str_eq, if◌then◌else◌, Map,
  lookup, insert, Result, ok, err, Error, not_found, unauthenticated, permission_denied, other,
  contains,
}
use baru_reso_headless_contr.Permission.Tables.{
  Db, Group, GroupMember, Query, Role, read, find_group, load_role, has_row, is_personal, get_group,
  list_groups,
}
use baru_reso_headless_contr.Permission.Check.{
  Ctx, has_system_permission, has_permission, resolve_group_id_for_user, system_group_manage,
  system_group_list, group_edit, group_members_manage, system_role_manage,
}
use baru_reso_headless_contr.Rpc.Text.{trim_space}

-- The codes of package connect that the rules give.
pub data Code : Type 0 where
  invalid_argument no_such_thing no_claims denied failed_precondition internal : Code

pub data Checked (A : Type 0) : Type 0 where
  pass : A → Checked A
  stop : Code → Checked A

module _ {A B : Type 0} where
  infixl 5 ◌>>=◌ ◌>>◌
  abbrev pub ◌>>=◌ : Checked A → (A → Checked B) → Checked B
  pass a >>= f = f a
  stop c >>= f = stop c

  abbrev pub ◌>>◌ : Checked A → Checked B → Checked B
  m >> n = m >>= λ _. n

abbrev pub ensure : Bool → Code → Checked (Unit {0})
ensure true c = pass tt
ensure false c = stop c

-- `convertErr`
abbrev pub convert_err : Error → Code
convert_err not_found = no_such_thing
convert_err unauthenticated = no_claims
convert_err permission_denied = denied
convert_err (other m) =
    if str_eq m "host is draining for upgrade" then failed_precondition else internal
convert_err _ = internal

abbrev pub converted : {A : Type 0} → Result A → Checked A
converted (ok a) = pass a
converted (err e) = stop (convert_err e)

abbrev pub or_internal : {A : Type 0} → Result A → Checked A
or_internal (ok a) = pass a
or_internal (err e) = stop internal

-- The resources whose groups the rules ask for.
pub record Resources : Type 0 where
  pub group_of_host : String → Result String
  pub group_of_session : String → Result String
  pub group_of_account : String → Result String

pub record Request : Type 0 where
  pub host_id : String
  pub session_id : String
  pub account_id : String
  pub group_id : String
  pub role_id : String

pub data Rule : Type 0 where
  require_auth_only public_rpc require_authenticated : Rule
  require_system_perm : String → Rule
  check_host_permission check_session_permission check_account_permission : String → Rule
  check_group_permission : String → Bool → Rule
  check_start_headless_host check_create_headless_account check_start_world : Rule
  check_update_session_parameters check_update_group_member_role check_list_roles : Rule
  check_create_role check_role_mutation : Rule

pub extract_claims : Ctx → Checked String
extract_claims none = stop no_claims
extract_claims (some user) = pass user

pub require_perm : Db → String → String → String → Checked (Unit {0})
require_perm db user group key = do
  held ← or_internal (has_permission db user group key)
  ensure held denied

pub require_system : Db → String → String → Checked (Unit {0})
require_system db user key = do
  held ← or_internal (has_system_permission db user key)
  ensure held denied

abbrev pub non_empty : String → Checked (Unit {0})
non_empty id = if str_eq id "" then stop invalid_argument else pass tt

-- `GroupRepo.ListByUser`: the groups with a membership row of the user.
pub groups_of_user : String → List GroupMember → List Group → List String
groups_of_user user ms [] = []
groups_of_user user ms (g ∷ gs) =
    let rest = groups_of_user user ms gs in if has_row g.id user ms then g.id ∷ rest else rest

pub check_membership : Db → String → String → Checked (Unit {0})
unfolding groups_of_user
check_membership db user group = do
  groups ← or_internal (read db list_groups (ok (groups_of_user user db.members db.groups)))
  ensure (contains groups group) denied

-- Without `system:group.list`: the group's editors, then its members.
pub check_edit_or_member : Db → String → String → Checked (Unit {0})
unfolding check_membership
check_edit_or_member db user group = do
  edits ← or_internal (has_permission db user group group_edit)
  if edits then pass tt else check_membership db user group

pub check_group_readable : Db → String → String → Checked (Unit {0})
unfolding check_edit_or_member
check_group_readable db user group = do
  can_list ← or_internal (has_system_permission db user system_group_list)
  if can_list then pass tt else check_edit_or_member db user group

-- The three rules of a resource.
pub on_resource : (String → Result String) → Db → Ctx → String → String → Checked (Unit {0})
on_resource group_of db ctx key raw = do
  user ← extract_claims ctx
  non_empty (trim_space raw)
  group ← converted (group_of (trim_space raw))
  require_perm db user group key

pub on_group : Db → Ctx → String → Bool → String → Checked (Unit {0})
on_group db ctx key read_only raw = do
  user ← extract_claims ctx
  non_empty (trim_space raw)
  if read_only
      then check_group_readable db user (trim_space raw)
      else require_perm db user (trim_space raw) key

pub on_start_headless_host : Resources → Db → Ctx → Request → Checked (Unit {0})
on_start_headless_host res db ctx req = do
  user ← extract_claims ctx
  non_empty req.account_id
  group ← converted (res.group_of_account req.account_id)
  ensure (str_eq req.group_id "" || str_eq group req.group_id) failed_precondition
  require_perm db user group "host:write"
  require_perm db user group "account:use"

pub on_create_headless_account : Db → Ctx → Request → Checked (Unit {0})
on_create_headless_account db ctx req = do
  user ← extract_claims ctx
  group ← converted (resolve_group_id_for_user db user req.group_id)
  require_perm db user group "account:write"

pub on_start_world : Resources → Db → Ctx → Request → Checked (Unit {0})
on_start_world res db ctx req = do
  user ← extract_claims ctx
  non_empty req.host_id
  group ← converted (res.group_of_host req.host_id)
  ensure (str_eq req.group_id "" || str_eq req.group_id group) failed_precondition
  require_perm db user group "host:use"
  require_perm db user group "account:use"
  require_perm db user group "session:write"

-- The id is looked at before the claims here.
pub on_update_session_parameters : Resources → Db → Ctx → Request → Checked (Unit {0})
on_update_session_parameters res db ctx req = do
  non_empty req.session_id
  user ← extract_claims ctx
  group ← converted (res.group_of_session req.session_id)
  require_perm db user group "session:write"

pub on_update_group_member_role : Db → Ctx → Request → Checked (Unit {0})
on_update_group_member_role db ctx req = do
  user ← extract_claims ctx
  non_empty req.group_id
  g ← converted (read db get_group (find_group req.group_id db.groups))
  if is_personal g.group_type
      then require_system db user system_group_manage
      else require_perm db user req.group_id group_members_manage

pub on_list_roles : Db → Ctx → Request → Checked (Unit {0})
on_list_roles db ctx req = do
  user ← extract_claims ctx
  if str_eq (trim_space req.group_id) ""
      then pass tt
      else check_group_readable db user (trim_space req.group_id)

-- A role without a group is global.
pub on_role_of : Db → String → String → Checked (Unit {0})
on_role_of db user group =
    if str_eq group ""
    then require_system db user system_role_manage
    else require_perm db user group group_members_manage

pub on_create_role : Db → Ctx → Request → Checked (Unit {0})
unfolding on_role_of
on_create_role db ctx req = do user ← extract_claims ctx; on_role_of db user req.group_id

abbrev pub group_or_empty : Option String → String
group_or_empty none = ""
group_or_empty (some g) = g

pub on_role_mutation : Db → Ctx → Request → Checked (Unit {0})
unfolding on_role_of
on_role_mutation db ctx req = do
  non_empty req.role_id
  user ← extract_claims ctx
  role ← converted (load_role db req.role_id)
  on_role_of db user (group_or_empty role.group_id)

pub check_rule : Resources → Db → Ctx → Request → Rule → Checked (Unit {0})
unfolding on_resource on_group on_start_headless_host on_create_headless_account on_start_world
    on_update_session_parameters on_update_group_member_role on_list_roles on_create_role
    on_role_mutation
check_rule res db ctx req require_auth_only = pass tt
check_rule res db ctx req public_rpc = pass tt
check_rule res db ctx req require_authenticated = do user ← extract_claims ctx; pass tt
check_rule res db ctx req (require_system_perm key) = do
  user ← extract_claims ctx
  require_system db user key
check_rule res db ctx req (check_host_permission key) =
    on_resource res.group_of_host db ctx key req.host_id
check_rule res db ctx req (check_session_permission key) =
    on_resource res.group_of_session db ctx key req.session_id
check_rule res db ctx req (check_account_permission key) =
    on_resource res.group_of_account db ctx key req.account_id
check_rule res db ctx req (check_group_permission key read_only) =
    on_group db ctx key read_only req.group_id
check_rule res db ctx req check_start_headless_host = on_start_headless_host res db ctx req
check_rule res db ctx req check_create_headless_account = on_create_headless_account db ctx req
check_rule res db ctx req check_start_world = on_start_world res db ctx req
check_rule res db ctx req check_update_session_parameters =
    on_update_session_parameters res db ctx req
check_rule res db ctx req check_update_group_member_role = on_update_group_member_role db ctx req
check_rule res db ctx req check_list_roles = on_list_roles db ctx req
check_rule res db ctx req check_create_role = on_create_role db ctx req
check_rule res db ctx req check_role_mutation = on_role_mutation db ctx req

-- `registerRPCPermission`: `none` is the panic at a second rule of a procedure.
register : String → Rule → Option (Map Rule) → Option (Map Rule)
register procedure rule none = none
register procedure rule (some rules) = elim (lookup procedure rules) [
  | none ↦ some (insert procedure rule rules)
  | some old ↦ none
]

pub register_all : List (String × Rule) → Option (Map Rule) → Option (Map Rule)
unfolding register
register_all [] rules = rules
register_all ((procedure, rule) ∷ rest) rules = register_all rest (register procedure rule rules)

-- `init`: every known procedure has a rule.
pub all_registered : List String → Map Rule → Bool
all_registered [] rules = true
all_registered (p ∷ ps) rules = elim (lookup p rules) [
  | none ↦ false
  | some rule ↦ all_registered ps rules
]

check_known : Resources → Db → Ctx → Request → Option Rule → Checked (Unit {0})
unfolding check_rule
check_known res db ctx req none = stop denied
check_known res db ctx req (some rule) = check_rule res db ctx req rule

-- Whether a request goes on to its handler.
pub wrap_unary : Map Rule → Resources → Db → Ctx → String → Request → Checked (Unit {0})
unfolding check_known
wrap_unary rules res db ctx procedure req = check_known res db ctx req (lookup procedure rules)
