-- ===== src/Permission/Roles/Builtin.antt =====
-- usecase/role_usecase.go and the triggers: builtin roles never change.
mod Examples
use baru_reso_headless_contr.Prelude.{
  other, ◌||◌, ◌≡◌, refl, sym, ap, ◌∙◌, Bool, true, false, ◌&&◌, not, Option, none, some, List, [],
  ◌∷◌, String, str_eq, str_eq→eq, contains, if◌then◌else◌, Result, ok, err, arith, Error,
  Bool-cases, inl, inr,
}
use baru_reso_headless_contr.Prelude.Exec.{check}
use baru_reso_headless_contr.Prelude.Outcome.{
  keep-then, keep-query, keep-read, keep-step, keep-check,
}
use baru_reso_headless_contr.Permission.Tables.{scope_fits, Db, Role, RoleScope, Query}
use baru_reso_headless_contr.Permission.Check.{Ctx}
use baru_reso_headless_contr.Permission.RoleTables.{
  with_key, insert_role, at_role, any_row, rename_refused, set_role_name, roles_except, remove_role,
  without_key, remove_role_permission, add_role_permission, remove_unwanted, add_missing,
  replace_permissions,
}
use baru_reso_headless_contr.Permission.Roles.{
  create_role_call, update_role, delete_role_call, require_group_fits, require_mutation,
  require_subset, write_keys, subset_of_new, write_name, write_new_keys, group_given,
}
use baru_reso_headless_contr.Permission.Roles.BuiltinRows.{
  builtins, BuiltinsAre, insert_role-BuiltinsAre, set_role_name-BuiltinsAre,
  remove_role-BuiltinsAre, replace_permissions-BuiltinsAre,
}

module _ (bs : List Role) where
  write_keys-BuiltinsAre :
      (role : Role) (keys : List String) (db : Db)
      → BuiltinsAre bs db
      → BuiltinsAre bs (write_keys role keys db).1
  unfolding write_keys
  write_keys-BuiltinsAre role [] db h = h
  write_keys-BuiltinsAre role (k ∷ ks) db h =
      keep-step (BuiltinsAre bs) (replace_permissions role.id (k ∷ ks)) _ db
        (replace_permissions-BuiltinsAre bs role.id (k ∷ ks) db h)
        (λ _ _. replace_permissions-BuiltinsAre bs role.id (k ∷ ks) db h)

  require_group_fits-BuiltinsAre :
      (scope : RoleScope) (group : Option String) (db : Db)
      → BuiltinsAre bs db
      → BuiltinsAre bs (require_group_fits scope group db).1
  unfolding require_group_fits check
  require_group_fits-BuiltinsAre scope none db h = h
  require_group_fits-BuiltinsAre scope (some id) db h =
      keep-query (BuiltinsAre bs) _ _ db h (λ g _. checked (scope_fits scope g.group_type))
    where
      checked : (b : Bool) → BuiltinsAre bs (check b (other "scope does not match group type") db).1
      checked true = h
      checked false = h

  require_mutation-BuiltinsAre :
      (ctx : Ctx) (group : Option String) (db : Db)
      → BuiltinsAre bs db
      → BuiltinsAre bs (require_mutation ctx group db).1
  unfolding require_mutation
  require_mutation-BuiltinsAre ctx none db h = keep-read (BuiltinsAre bs) _ _ h
  require_mutation-BuiltinsAre ctx (some id) db h = keep-read (BuiltinsAre bs) _ _ h

  require_subset-BuiltinsAre :
      (ctx : Ctx) (group : Option String) (keys : List String) (db : Db)
      → BuiltinsAre bs db
      → BuiltinsAre bs (require_subset ctx group keys db).1
  unfolding require_subset
  require_subset-BuiltinsAre ctx none keys db h = h
  require_subset-BuiltinsAre ctx (some id) keys db h = keep-read (BuiltinsAre bs) _ _ h

  create_role_call-BuiltinsAre :
      (ctx : Ctx) (id : String) (group : Option String) (name : String) (scope : RoleScope)
      (keys : List String) (db : Db)
      → BuiltinsAre bs db
      → BuiltinsAre bs (create_role_call ctx id group name scope keys db).1
  unfolding create_role_call
  create_role_call-BuiltinsAre ctx id group name scope keys db h =
      keep-check (BuiltinsAre bs) _ _ _ db h (λ _. keep-query (BuiltinsAre bs) _ _ db h (λ _ _.
        keep-then (BuiltinsAre bs) (require_group_fits scope (group_given group)) _ db
          (require_group_fits-BuiltinsAre scope (group_given group)) h
          (λ _ t h.
            keep-then (BuiltinsAre bs) (require_mutation ctx (group_given group)) _ t
              (require_mutation-BuiltinsAre ctx (group_given group)) h
              (λ _ t h.
                keep-then (BuiltinsAre bs) (require_subset ctx (group_given group) keys) _ t
                  (require_subset-BuiltinsAre ctx (group_given group) keys) h
                  (λ _ t h.
                    keep-then (BuiltinsAre bs) (insert_role id group name scope) _ t
                      (insert_role-BuiltinsAre bs id group name scope) h
                      (λ r t h. write_keys-BuiltinsAre r keys t h))))))

  subset_of_new-BuiltinsAre :
      (ctx : Ctx) (group : Option String) (keys : Option (List String)) (db : Db)
      → BuiltinsAre bs db
      → BuiltinsAre bs (subset_of_new ctx group keys db).1
  unfolding subset_of_new
  subset_of_new-BuiltinsAre ctx group none db h = h
  subset_of_new-BuiltinsAre ctx group (some keys) db h =
      require_subset-BuiltinsAre ctx group keys db h

  write_name-BuiltinsAre :
      (id old : String) (name : Option String) (db : Db)
      → BuiltinsAre bs db
      → BuiltinsAre bs (write_name id old name db).1
  unfolding write_name
  write_name-BuiltinsAre id old none db h = h
  write_name-BuiltinsAre id old (some new) db h = elim (Bool-cases (str_eq new old)) [
    | inl same_name ↦ rw same_name h
    | inr renamed ↦ rw renamed (set_role_name-BuiltinsAre bs id new db h)
  ]

  write_new_keys-BuiltinsAre :
      (id : String) (keys : Option (List String)) (db : Db)
      → BuiltinsAre bs db
      → BuiltinsAre bs (write_new_keys id keys db).1
  unfolding write_new_keys
  write_new_keys-BuiltinsAre id none db h = h
  write_new_keys-BuiltinsAre id (some keys) db h = replace_permissions-BuiltinsAre bs id keys db h

  update_role-BuiltinsAre :
      (ctx : Ctx) (id : String) (name : Option String) (keys : Option (List String)) (db : Db)
      → BuiltinsAre bs db
      → BuiltinsAre bs (update_role ctx id name keys db).1
  unfolding update_role
  update_role-BuiltinsAre ctx id name keys db h = keep-query (BuiltinsAre bs) _ _ db h (λ role _.
      keep-check (BuiltinsAre bs) _ _ _ db h (λ _. keep-query (BuiltinsAre bs) _ _ db h (λ _ _.
        keep-then (BuiltinsAre bs) (require_mutation ctx (group_given role.group_id)) _ db
          (require_mutation-BuiltinsAre ctx (group_given role.group_id)) h
          (λ _ t h.
            keep-then (BuiltinsAre bs) (subset_of_new ctx (group_given role.group_id) keys) _ t
              (subset_of_new-BuiltinsAre ctx (group_given role.group_id) keys) h
              (λ _ t h.
                keep-then (BuiltinsAre bs) (write_name id role.name name) _ t
                  (write_name-BuiltinsAre id role.name name) h
                  (λ _ t h.
                    keep-then (BuiltinsAre bs) (write_new_keys id keys) _ t
                      (write_new_keys-BuiltinsAre id keys) h
                      (λ _ t h. keep-read (BuiltinsAre bs) _ _ h)))))))

  delete_role_call-BuiltinsAre :
      (ctx : Ctx) (id : String) (db : Db)
      → BuiltinsAre bs db
      → BuiltinsAre bs (delete_role_call ctx id db).1
  unfolding delete_role_call
  delete_role_call-BuiltinsAre ctx id db h = keep-query (BuiltinsAre bs) _ _ db h (λ role _.
      keep-check (BuiltinsAre bs) _ _ _ db h (λ _.
        keep-then (BuiltinsAre bs) (require_mutation ctx (group_given role.group_id)) _ db
          (require_mutation-BuiltinsAre ctx (group_given role.group_id)) h
          (λ _ t h. remove_role-BuiltinsAre bs id t h)))

-- The calls of RoleUsecase that write.
pub data RoleCall : Type 0 where
  create : Ctx → String → Option String → String → RoleScope → List String → RoleCall
  update : Ctx → String → Option String → Option (List String) → RoleCall
  delete : Ctx → String → RoleCall

pub role_call : RoleCall → Db → Db
role_call (create ctx id group name scope keys) db =
    (create_role_call ctx id group name scope keys db).1
role_call (update ctx id name keys) db = (update_role ctx id name keys db).1
role_call (delete ctx id) db = (delete_role_call ctx id db).1

-- Which queries the database refuses may change before each call.
pub role_calls : List ((Query → Bool) × RoleCall) → Db → Db
role_calls [] db = db
role_calls ((down, c) ∷ cs) db = role_calls cs (role_call c (record db { down = down }))

role_call-BuiltinsAre :
    (bs : List Role) (c : RoleCall) (db : Db) → BuiltinsAre bs db → BuiltinsAre bs (role_call c db)
unfolding role_call
role_call-BuiltinsAre bs (create ctx id group name scope keys) db h =
    create_role_call-BuiltinsAre bs ctx id group name scope keys db h
role_call-BuiltinsAre bs (update ctx id name keys) db h =
    update_role-BuiltinsAre bs ctx id name keys db h
role_call-BuiltinsAre bs (delete ctx id) db h = delete_role_call-BuiltinsAre bs ctx id db h

-- Any sequence of calls of the role methods, whoever makes them and whichever queries fail, leaves
-- every builtin role with its name, scope and permission keys, and makes no other role builtin.
pub builtins-role_calls :
    (cs : List ((Query → Bool) × RoleCall)) (db : Db)
    → builtins (role_calls cs db).roles ≡ builtins db.roles
unfolding role_calls
builtins-role_calls [] db = refl
builtins-role_calls ((down, c) ∷ cs) db =
    builtins-role_calls cs (role_call c (record db { down = down }))
    ∙ (role_call-BuiltinsAre (builtins db.roles) c (record db { down = down })
        (record { same = refl })).same
