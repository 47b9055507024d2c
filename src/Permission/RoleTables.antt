-- ===== src/Permission/RoleTables.antt =====
-- The writes of db/roles.sql.go and db/role_permissions.sql.go with adapter/role_repository.go, and
-- the triggers that protect builtin roles. Ids are a primary key, so a statement on an id changes
-- the first row that has it.
use baru_reso_headless_contr.Prelude.{
  Bool, true, false, ◌&&◌, ◌||◌, not, Option, none, some, List, [], ◌∷◌, ◌++◌, String, str_eq,
  contains, if◌then◌else◌, Result, ok, err, db_error,
}
use baru_reso_headless_contr.Prelude.Exec.{Exec, return, query, ◌>>=◌, ◌>>◌}
use baru_reso_headless_contr.Permission.Tables.{
  Db, Group, GroupMember, Role, RoleScope, create_role, update_role_name, delete_role,
  role_permissions, add_permission, remove_permission, read, write, role_exists, group_exists,
  find_role,
}

abbrev pub same_group : Option String → Option String → Bool
same_group none none = true
same_group (some a) (some b) = str_eq a b
same_group _ _ = false

-- The unique names: (group_id, name), and the name alone of a global role.
abbrev pub name_taken : Option String → String → List Role → Bool
name_taken group name [] = false
name_taken group name (r ∷ rs) =
    (same_group r.group_id group && str_eq r.name name) || name_taken group name rs

abbrev pub group_known : Option String → List Group → Bool
group_known none gs = true
group_known (some g) gs = group_exists g gs

unfoldable pub insert_role : String → Option String → String → RoleScope → Exec Db Role
insert_role id group name scope = write create_role (λ db.
    if role_exists id db.roles
      || name_taken group name db.roles
      || not (group_known group db.groups)
    then (err db_error, db)
    else (let r : Role = record {
      id = id;
      group_id = group;
      name = name;
      scope = scope;
      is_builtin = false;
      permission_keys = [];
    } in
        (ok r, record db { roles = r ∷ db.roles })))

-- Changes the row of this id.
unfoldable pub at_role : String → (Role → Role) → List Role → List Role
at_role id change [] = []
at_role id change (r ∷ rs) =
    let rest = at_role id change rs in if str_eq r.id id then change r ∷ rs else r ∷ rest

-- A rename that the trigger or a unique name refuses.
abbrev pub rename_refused : String → Role → List Role → Bool
rename_refused name r all =
    not (str_eq r.name name) && (r.is_builtin || name_taken r.group_id name all)

unfoldable pub any_row : String → (Role → Bool) → List Role → Bool
any_row id test [] = false
any_row id test (r ∷ rs) = let rest = any_row id test rs in if str_eq r.id id then test r else rest

unfoldable pub set_role_name : String → String → Exec Db (Unit {0})
set_role_name id name = write update_role_name (λ db.
    if any_row id (λ r. rename_refused name r db.roles) db.roles
    then (err db_error, db)
    else (ok tt, record db { roles = at_role id (λ r. record r { name = name }) db.roles }))

abbrev pub is_role_used : String → List GroupMember → Bool
is_role_used id [] = false
is_role_used id (m ∷ ms) = str_eq m.role_id id || is_role_used id ms

unfoldable pub roles_except : String → List Role → List Role
roles_except id [] = []
roles_except id (r ∷ rs) = let rest = roles_except id rs in if str_eq r.id id then rs else r ∷ rest

-- DELETE FROM roles: the trigger, and the members that have the role.
unfoldable pub remove_role : String → Exec Db (Unit {0})
remove_role id = write delete_role (λ db.
    if any_row id (λ r. r.is_builtin) db.roles || is_role_used id db.members
    then (err db_error, db)
    else (ok tt, record db { roles = roles_except id db.roles }))

unfoldable pub without_key : String → List String → List String
without_key key [] = []
without_key key (k ∷ ks) = let rest = without_key key ks in if str_eq k key then rest else k ∷ rest

unfoldable pub remove_role_permission : String → String → Exec Db (Unit {0})
unfolding without_key
remove_role_permission id key = write remove_permission (λ db.
    if any_row id (λ r. r.is_builtin && contains r.permission_keys key) db.roles
    then (err db_error, db)
    else (
      ok tt,
      record db {
        roles =
            at_role id (λ r. record r { permission_keys = without_key key r.permission_keys })
              db.roles;
      },
    ))

abbrev pub with_key : String → List String → List String
with_key key keys = if contains keys key then keys else keys ++ (key ∷ [])

-- ON CONFLICT DO NOTHING comes after the trigger.
unfoldable pub add_role_permission : String → String → Exec Db (Unit {0})
add_role_permission id key = write add_permission (λ db.
    if not (role_exists id db.roles) || any_row id (λ r. r.is_builtin) db.roles
    then (err db_error, db)
    else (
      ok tt,
      record db {
        roles =
            at_role id (λ r. record r { permission_keys = with_key key r.permission_keys })
              db.roles;
      },
    ))

abbrev keys_found : Result Role → List String
keys_found (ok r) = r.permission_keys
keys_found (err e) = []

unfoldable pub list_role_permissions : String → Db → Result (List String)
list_role_permissions id db = read db role_permissions (ok (keys_found (find_role id db.roles)))

-- The two loops of `ReplacePermissions`. Go walks a set in no fixed order; here it is the order of
-- the list, and a key that is there twice is taken once.
unfoldable pub remove_unwanted : String → List String → List String → Exec Db (Unit {0})
remove_unwanted id wanted [] = return tt
remove_unwanted id wanted (k ∷ existing) =
    let rest = remove_unwanted id wanted existing in
    if contains wanted k || contains existing k
    then rest
    else (do remove_role_permission id k; rest)

unfoldable pub add_missing : String → List String → List String → Exec Db (Unit {0})
add_missing id existing [] = return tt
add_missing id existing (k ∷ wanted) =
    let rest = add_missing id existing wanted in
    if contains existing k || contains wanted k then rest else (do add_role_permission id k; rest)

unfoldable pub replace_permissions : String → List String → Exec Db (Unit {0})
replace_permissions id keys = do
  existing ← query (list_role_permissions id)
  remove_unwanted id keys existing
  add_missing id existing keys
