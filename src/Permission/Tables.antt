-- ===== src/Permission/Tables.antt =====
-- domain/entity/permission.go and the queries of db/groups.sql.go, db/group_members.sql.go,
-- db/roles.sql.go and db/role_permissions.sql.go with their repositories in adapter/*.go, on tables
-- that are lists of rows. The rows of role_permissions stand with their role. `down` says which
-- queries the database refuses while a request runs.
use baru_reso_headless_contr.Prelude.{
  ◌≡◌, arith, Bool, true, false, ◌&&◌, ◌||◌, not, Option, none, some, List, [], ◌∷◌, ◌++◌, String,
  str_eq, contains, if◌then◌else◌, Result, ◌>>=◌, ok, err, not_found, db_error,
}
use baru_reso_headless_contr.Prelude.Exec.{Exec}

pub data GroupType : Type 0 where
  personal normal system : GroupType

pub data RoleScope : Type 0 where
  normal_scope system_scope : RoleScope

pub record Group : Type 0 where
  pub id : String
  pub name : String
  pub group_type : GroupType

pub record GroupMember : Type 0 where
  pub group_id : String
  pub user_id : String
  pub role_id : String
  pub added_by : Option String

pub record Role : Type 0 where
  pub id : String
  pub group_id : Option String
  pub name : String
  pub scope : RoleScope
  pub is_builtin : Bool
  pub permission_keys : List String

pub data Query : Type 0 where
  get_group create_group update_group_name delete_group list_groups personal_group : Query
  get_member add_member remove_member update_member_role list_members list_memberships : Query
  group_permissions system_permissions : Query
  get_role create_role update_role_name delete_role list_roles : Query
  role_permissions add_permission remove_permission : Query

pub record Db : Type 0 where
  pub users : List String
  pub groups : List Group
  pub roles : List Role
  pub members : List GroupMember
  pub down : Query → Bool

abbrev pub system_group_id : String
system_group_id = "system"

abbrev pub read {ℓ} : {A : Type ℓ} → Db → Query → Result A → Result A
read db q r = if db.down q then err db_error else r

-- A statement that the database may refuse as a whole.
abbrev pub write : {A : Type 0} → Query → (Db → Result A × Db) → Exec Db A
write q f db = if db.down q then (err db_error, db) else f db

-- SELECT … WHERE id = $1
unfoldable pub find_group : String → List Group → Result Group
find_group id [] = err not_found
find_group id (g ∷ gs) = if str_eq g.id id then ok g else find_group id gs

unfoldable pub find_role : String → List Role → Result Role
find_role id [] = err not_found
find_role id (r ∷ rs) = if str_eq r.id id then ok r else find_role id rs

-- `RoleRepository.Get`: the role, then its permissions.
unfoldable pub load_role : Db → String → Result Role
load_role db id = do r ← read db get_role (find_role id db.roles); read db role_permissions (ok r)

abbrev pub is_row : String → String → GroupMember → Bool
is_row group user m = str_eq m.group_id group && str_eq m.user_id user

unfoldable pub find_member : String → String → List GroupMember → Result GroupMember
find_member group user [] = err not_found
find_member group user (m ∷ ms) = if is_row group user m then ok m else find_member group user ms

-- The join of role_permissions on `rp.role_id = gm.role_id`.
unfoldable pub keys_of_role : String → List Role → List String
keys_of_role id [] = []
keys_of_role id (r ∷ rs) =
    let rest = keys_of_role id rs in if str_eq r.id id then r.permission_keys ++ rest else rest

unfoldable pub keys_of_user : String → String → List Role → List GroupMember → List String
keys_of_user user group roles [] = []
keys_of_user user group roles (m ∷ ms) =
    let rest = keys_of_user user group roles ms in
    if is_row group user m then keys_of_role m.role_id roles ++ rest else rest

unfoldable pub get_user_permissions_for_group : Db → String → String → Result (List String)
get_user_permissions_for_group db user group =
    read db group_permissions (ok (keys_of_user user group db.roles db.members))

unfoldable pub list_user_system_permissions : Db → String → Result (List String)
list_user_system_permissions db user =
    read db system_permissions (ok (keys_of_user user system_group_id db.roles db.members))

unfoldable pub members_of_group : String → List GroupMember → List GroupMember
members_of_group group [] = []
members_of_group group (m ∷ ms) =
    let rest = members_of_group group ms in if str_eq m.group_id group then m ∷ rest else rest

unfoldable pub memberships_of_user : String → List GroupMember → List GroupMember
memberships_of_user user [] = []
memberships_of_user user (m ∷ ms) =
    let rest = memberships_of_user user ms in if str_eq m.user_id user then m ∷ rest else rest

abbrev pub is_personal : GroupType → Bool
is_personal personal = true
is_personal _ = false

abbrev pub has_row : String → String → List GroupMember → Bool
has_row group user [] = false
has_row group user (m ∷ ms) = is_row group user m || has_row group user ms

unfoldable pub find_personal_group : String → List GroupMember → List Group → Result Group
find_personal_group user ms [] = err not_found
find_personal_group user ms (g ∷ gs) =
    if is_personal g.group_type && has_row g.id user ms
    then ok g
    else find_personal_group user ms gs

-- Does a row of this id exist?
abbrev pub group_exists : String → List Group → Bool
group_exists id [] = false
group_exists id (g ∷ gs) = str_eq g.id id || group_exists id gs

abbrev pub role_exists : String → List Role → Bool
role_exists id [] = false
role_exists id (r ∷ rs) = str_eq r.id id || role_exists id rs

-- INSERT INTO groups: the primary key, and the index that makes the system group the only one.
abbrev pub is_system : GroupType → Bool
is_system system = true
is_system _ = false

abbrev pub system_exists : List Group → Bool
system_exists [] = false
system_exists (g ∷ gs) = is_system g.group_type || system_exists gs

unfoldable pub insert_group : Group → Exec Db Group
insert_group g = write create_group (λ db.
    if group_exists g.id db.groups || (is_system g.group_type && system_exists db.groups)
    then (err db_error, db)
    else (ok g, record db { groups = g ∷ db.groups }))

-- INSERT INTO group_members: the primary key and the foreign keys.
unfoldable pub insert_member : GroupMember → Exec Db GroupMember
insert_member m = write add_member (λ db.
    if has_row m.group_id m.user_id db.members
    then (err db_error, db)
    else if group_exists m.group_id db.groups
        && contains db.users m.user_id
        && role_exists m.role_id db.roles
    then (ok m, record db { members = m ∷ db.members })
    else (err db_error, db))

unfoldable pub rows_without : String → String → List GroupMember → List GroupMember
rows_without group user [] = []
rows_without group user (m ∷ ms) =
    let rest = rows_without group user ms in if is_row group user m then rest else m ∷ rest

unfoldable pub delete_member : String → String → Exec Db (Unit {0})
delete_member group user =
    write remove_member (λ db. (ok tt, record db { members = rows_without group user db.members }))

unfoldable pub rows_with_role : String → String → String → List GroupMember → List GroupMember
rows_with_role group user role [] = []
rows_with_role group user role (m ∷ ms) =
    (if is_row group user m then record m { role_id = role } else m)
    ∷ rows_with_role group user role ms

unfoldable pub set_member_role : String → String → String → Exec Db (Unit {0})
set_member_role group user role = write update_member_role (λ db.
    if has_row group user db.members && not (role_exists role db.roles)
    then (err db_error, db)
    else (ok tt, record db { members = rows_with_role group user role db.members }))

unfoldable pub renamed : String → String → List Group → List Group
renamed id name [] = []
renamed id name (g ∷ gs) =
    (if str_eq g.id id then record g { name = name } else g) ∷ renamed id name gs

unfoldable pub set_group_name : String → String → Exec Db (Unit {0})
set_group_name id name =
    write update_group_name (λ db. (ok tt, record db { groups = renamed id name db.groups }))

-- DELETE FROM groups: the members and the roles of the group go with it, but a role that a member
-- of another group has cannot go (the foreign key of group_members has no cascade).
abbrev pub of_group : String → Option String → Bool
of_group group none = false
of_group group (some g) = str_eq g group

unfoldable pub members_outside : String → List GroupMember → List GroupMember
members_outside group [] = []
members_outside group (m ∷ ms) =
    let rest = members_outside group ms in if str_eq m.group_id group then rest else m ∷ rest

unfoldable pub roles_outside : String → List Role → List Role
roles_outside group [] = []
roles_outside group (r ∷ rs) =
    let rest = roles_outside group rs in if of_group group r.group_id then rest else r ∷ rest

unfoldable pub groups_without : String → List Group → List Group
groups_without id [] = []
groups_without id (g ∷ gs) =
    let rest = groups_without id gs in if str_eq g.id id then rest else g ∷ rest

abbrev pub all_have_role : List GroupMember → List Role → Bool
all_have_role [] roles = true
all_have_role (m ∷ ms) roles = role_exists m.role_id roles && all_have_role ms roles

-- A role of the group that the trigger of builtin roles protects.
abbrev pub has_builtin : String → List Role → Bool
has_builtin group [] = false
has_builtin group (r ∷ rs) = (of_group group r.group_id && r.is_builtin) || has_builtin group rs

-- The hosts, sessions and accounts of the group, whose foreign keys forbid it too, are not among the
-- tables: where one is left, `down` refuses this statement.
unfoldable pub remove_group : String → Exec Db (Unit {0})
unfolding members_outside roles_outside groups_without
remove_group id = write delete_group (λ db.
    let members = members_outside id db.members in
    let roles = roles_outside id db.roles in
    if all_have_role members roles && not (has_builtin id db.roles)
    then (
      ok tt,
      record db { members = members; roles = roles; groups = groups_without id db.groups },
    )
    else (err db_error, db))

-- A normal role serves normal and personal groups, a system role the system group
-- (`isRoleAssignableToGroup` and `canScopeBeAttachedToGroup`).
abbrev pub scope_fits : RoleScope → GroupType → Bool
scope_fits normal_scope normal = true
scope_fits normal_scope personal = true
scope_fits normal_scope system = false
scope_fits system_scope normal = false
scope_fits system_scope personal = false
scope_fits system_scope system = true

pub read-ok :
    {A : Type 0} (db : Db) (q : Query) (r : Result A) (a : A) → read db q r ≡ ok a → r ≡ ok a
read-ok db q r a h = ground arith

pub load_role-ok :
    (db : Db) (id : String) (r : Role) → load_role db id ≡ ok r → find_role id db.roles ≡ ok r
unfolding load_role
load_role-ok db id r h = ground arith
