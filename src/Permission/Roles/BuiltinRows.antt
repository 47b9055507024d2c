-- ===== src/Permission/Roles/BuiltinRows.antt =====
-- The statements on roles: what they leave of the builtin roles.
use baru_reso_headless_contr.Prelude.{
  ◌||◌, ◌≡◌, refl, sym, ap, Bool, true, false, ◌&&◌, Option, List, [], ◌∷◌, String, str_eq,
  str_eq→eq, contains, if◌then◌else◌, arith, Bool-cases, inl, inr,
}
use baru_reso_headless_contr.Prelude.Outcome.{keep-query, keep-step}
use baru_reso_headless_contr.Permission.Tables.{Db, Role, RoleScope}
use baru_reso_headless_contr.Permission.RoleTables.{
  with_key, insert_role, at_role, any_row, rename_refused, set_role_name, roles_except, remove_role,
  without_key, remove_role_permission, add_role_permission, remove_unwanted, add_missing,
  replace_permissions,
}

abbrev pub builtins : List Role → List Role
builtins [] = []
builtins (r ∷ rs) = if r.is_builtin then r ∷ builtins rs else builtins rs

builtins-at_role :
    (id : String) (test : Role → Bool) (change : Role → Role) (rs : List Role)
    → any_row id test rs ≡ false
    → ((r : Role) → test r ≡ false → r.is_builtin ≡ true → change r ≡ r)
    → ((r : Role) → (change r).is_builtin ≡ r.is_builtin)
    → builtins (at_role id change rs) ≡ builtins rs
unfolding at_role any_row
builtins-at_role id test change [] h fixed same = refl
builtins-at_role id test change (r ∷ rs) h fixed same = elim (Bool-cases (str_eq r.id id)) [
  | inl this ↦ rw this (elim (Bool-cases r.is_builtin) [
    | inl builtin ↦ rw (fixed r (ground arith) builtin)
    | inr custom ↦ ground (arith, same r)
  ])
  | inr other_row ↦
      ground (arith, other_row, builtins-at_role id test change rs (ground arith) fixed same)
]

builtins-roles_except :
    (id : String) (rs : List Role)
    → any_row id (λ r. r.is_builtin) rs ≡ false
    → builtins (roles_except id rs) ≡ builtins rs
unfolding roles_except any_row
builtins-roles_except id [] h = refl
builtins-roles_except id (r ∷ rs) h = ground (arith, builtins-roles_except id rs)

without_key_absent :
    (key : String) (ks : List String) → contains ks key ≡ false → without_key key ks ≡ ks
unfolding without_key
without_key_absent key [] h = refl
without_key_absent key (k ∷ ks) h = ground (arith, without_key_absent key ks)

module _ (bs : List Role) where
  -- The builtin roles are `bs`.
  pub record BuiltinsAre (db : Db) : Type 0 where
    pub same : builtins db.roles ≡ bs

  pub insert_role-BuiltinsAre :
      (id : String) (group : Option String) (name : String) (scope : RoleScope) (db : Db)
      → BuiltinsAre db
      → BuiltinsAre (insert_role id group name scope db).1
  unfolding insert_role
  insert_role-BuiltinsAre id group name scope db h = ground arith

  pub set_role_name-BuiltinsAre :
      (id name : String) (db : Db) → BuiltinsAre db → BuiltinsAre (set_role_name id name db).1
  unfolding set_role_name
  set_role_name-BuiltinsAre id name db h =
      elim (Bool-cases (any_row id (λ r. rename_refused name r db.roles) db.roles)) [
        | inl refused ↦ rw refused (ground arith)
        | inr taken ↦ rw taken (
            ground (
              arith,
              builtins-at_role id (λ r. rename_refused name r db.roles)
                  (λ r. record r { name = name }) db.roles taken
                  (λ r free builtin.
                    ap (λ n. record r { name = n }) (sym (str_eq→eq r.name name (ground arith))))
                  (λ r. refl),
            ))
      ]

  pub remove_role-BuiltinsAre :
      (id : String) (db : Db) → BuiltinsAre db → BuiltinsAre (remove_role id db).1
  unfolding remove_role
  remove_role-BuiltinsAre id db h = ground (arith, builtins-roles_except id db.roles)

  remove_role_permission-BuiltinsAre :
      (id key : String) (db : Db)
      → BuiltinsAre db
      → BuiltinsAre (remove_role_permission id key db).1
  unfolding remove_role_permission
  remove_role_permission-BuiltinsAre id key db h =
      elim (Bool-cases
        (any_row id (λ r. r.is_builtin && contains r.permission_keys key) db.roles)) [
          | inl refused ↦ rw refused (ground arith)
          | inr taken ↦ rw taken (
              ground (
                arith,
                builtins-at_role id (λ r. r.is_builtin && contains r.permission_keys key)
                    (λ r. record r { permission_keys = without_key key r.permission_keys }) db.roles
                    taken
                    (λ r free builtin.
                      ap (λ ks. record r { permission_keys = ks })
                        (without_key_absent key r.permission_keys (ground arith)))
                    (λ r. refl),
              ))
        ]

  add_role_permission-BuiltinsAre :
      (id key : String) (db : Db) → BuiltinsAre db → BuiltinsAre (add_role_permission id key db).1
  unfolding add_role_permission
  add_role_permission-BuiltinsAre id key db h =
      elim (Bool-cases (any_row id (λ r. r.is_builtin) db.roles)) [
        | inl refused ↦ rw refused (ground arith)
        | inr taken ↦ rw taken (
            ground (
              arith,
              builtins-at_role id (λ r. r.is_builtin)
                  (λ r. record r { permission_keys = with_key key r.permission_keys }) db.roles
                  taken (λ r free builtin. ground arith) (λ r. refl),
            ))
      ]

  remove_unwanted-BuiltinsAre :
      (id : String) (wanted existing : List String) (db : Db)
      → BuiltinsAre db
      → BuiltinsAre (remove_unwanted id wanted existing db).1
  unfolding remove_unwanted
  remove_unwanted-BuiltinsAre id wanted [] db h = h
  remove_unwanted-BuiltinsAre id wanted (k ∷ ks) db h =
      elim (Bool-cases (contains wanted k || contains ks k)) [
        | inl skipped ↦ rw skipped (remove_unwanted-BuiltinsAre id wanted ks db h)
        | inr goes ↦ rw goes (
            keep-step BuiltinsAre (remove_role_permission id k) _ db
              (remove_role_permission-BuiltinsAre id k db h)
              (λ _ _.
                remove_unwanted-BuiltinsAre id wanted ks _
                  (remove_role_permission-BuiltinsAre id k db h)))
      ]

  add_missing-BuiltinsAre :
      (id : String) (existing wanted : List String) (db : Db)
      → BuiltinsAre db
      → BuiltinsAre (add_missing id existing wanted db).1
  unfolding add_missing
  add_missing-BuiltinsAre id existing [] db h = h
  add_missing-BuiltinsAre id existing (k ∷ ks) db h =
      elim (Bool-cases (contains existing k || contains ks k)) [
        | inl skipped ↦ rw skipped (add_missing-BuiltinsAre id existing ks db h)
        | inr goes ↦ rw goes (
            keep-step BuiltinsAre (add_role_permission id k) _ db
              (add_role_permission-BuiltinsAre id k db h)
              (λ _ _.
                add_missing-BuiltinsAre id existing ks _
                  (add_role_permission-BuiltinsAre id k db h)))
      ]

  pub replace_permissions-BuiltinsAre :
      (id : String) (keys : List String) (db : Db)
      → BuiltinsAre db
      → BuiltinsAre (replace_permissions id keys db).1
  unfolding replace_permissions
  replace_permissions-BuiltinsAre id keys db h = keep-query BuiltinsAre _ _ db h (λ existing _.
      keep-step BuiltinsAre (remove_unwanted id keys existing) _ db
        (remove_unwanted-BuiltinsAre id keys existing db h)
        (λ _ _.
          add_missing-BuiltinsAre id existing keys _
            (remove_unwanted-BuiltinsAre id keys existing db h)))
