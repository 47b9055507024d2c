-- ===== src/Permission/Check/Rows.antt =====
-- usecase/permission_usecase.go: the keys that the queries read, as rows of the tables.
use baru_reso_headless_contr.Prelude.{
  In, here, there, ◌≡◌, ◌↔◌, subst, sym, inl, inr, refl, true, ◌||◌, List, [], ◌∷◌, ◌++◌, String,
  str_eq, contains, arith, eq_iff, str_eq→eq, eq_refl, Bool-cases,
}
use baru_reso_headless_contr.Permission.Tables.{
  Db, Role, GroupMember, keys_of_role, keys_of_user, is_row,
}

-- The user has a row in the group whose role has the key.
pub record Holds (db : Db) (user group key : String) : Type 0 where
  pub row : GroupMember
  pub role : Role
  pub is_member : In row db.members
  pub is_role : In role db.roles
  pub has_key : In key role.permission_keys
  pub of_group : row.group_id ≡ group
  pub of_user : row.user_id ≡ user
  pub by_role : role.id ≡ row.role_id

pub contains→In : (xs : List String) (k : String) → contains xs k ≡ true → In k xs
contains→In [] k h = cc
contains→In (x ∷ xs) k h = elim (Bool-cases (str_eq x k)) [
  | inl same ↦ subst (λ y. In k (y ∷ xs)) (sym (str_eq→eq x k same)) here
  | inr differs ↦ there (contains→In xs k (ground arith))
]

pub In→contains : {k : String} {xs : List String} → In k xs → contains xs k ≡ true
In→contains {k = k} here = rw (eq_refl k)
In→contains (there h) = ground (arith, In→contains h)

contains-append :
    (xs ys : List String) (k : String) → contains (xs ++ ys) k ≡ (contains xs k || contains ys k)
contains-append [] ys k = refl
contains-append (x ∷ xs) ys k = ground (arith, contains-append xs ys k)

-- A role of the list with this id and key.
record Granting (id key : String) (roles : List Role) : Type 0 where
  role : Role
  is_role : In role roles
  has_key : In key role.permission_keys
  by_id : role.id ≡ id

Granting-there :
    {id key : String} {r : Role} {rs : List Role} → Granting id key rs → Granting id key (r ∷ rs)
Granting-there g = record {
  role = g.role;
  is_role = there g.is_role;
  has_key = g.has_key;
  by_id = g.by_id;
}

keys_of_role_sound :
    (id key : String) (roles : List Role)
    → contains (keys_of_role id roles) key ≡ true
    → Granting id key roles
unfolding keys_of_role
keys_of_role_sound id key [] h = cc
keys_of_role_sound id key (r ∷ rs) h = elim (Bool-cases (str_eq r.id id)) [
  | inl same ↦ elim (Bool-cases (contains r.permission_keys key)) [
    | inl own ↦ record {
      role = r;
      is_role = here;
      has_key = contains→In r.permission_keys key own;
      by_id = str_eq→eq r.id id same;
    }
    | inr not_own ↦ Granting-there (
        keys_of_role_sound id key rs
          (ground (arith, contains-append r.permission_keys (keys_of_role id rs) key)))
  ]
  | inr differs ↦ Granting-there (keys_of_role_sound id key rs (ground arith))
]

keys_of_role_complete :
    {id key : String} {r : Role} (roles : List Role)
    → In r roles
    → In key r.permission_keys
    → r.id ≡ id
    → contains (keys_of_role id roles) key ≡ true
unfolding keys_of_role
keys_of_role_complete [] h k e = elim h [ ]
keys_of_role_complete {id} {key} {r} (x ∷ rs) here k e = ground (
  arith,
  contains-append r.permission_keys (keys_of_role id rs) key,
  In→contains k,
  eq_iff r.id id,
)
keys_of_role_complete {id} {key} {r} (x ∷ rs) (there h) k e = ground (
  arith,
  contains-append x.permission_keys (keys_of_role id rs) key,
  keys_of_role_complete rs h k e,
)

-- The members part of the join.
record Membership (user group key : String) (roles : List Role) (ms : List GroupMember)
    : Type 0 where
  row : GroupMember
  is_member : In row ms
  of_group : row.group_id ≡ group
  of_user : row.user_id ≡ user
  granting : Granting row.role_id key roles

Membership-there :
    {user group key : String} {roles : List Role} {m : GroupMember} {ms : List GroupMember}
    → Membership user group key roles ms
    → Membership user group key roles (m ∷ ms)
Membership-there g = record {
  row = g.row;
  is_member = there g.is_member;
  of_group = g.of_group;
  of_user = g.of_user;
  granting = g.granting;
}

keys_of_user_sound :
    (user group key : String) (roles : List Role) (ms : List GroupMember)
    → contains (keys_of_user user group roles ms) key ≡ true
    → Membership user group key roles ms
unfolding keys_of_user
keys_of_user_sound user group key roles [] h = cc
keys_of_user_sound user group key roles (m ∷ ms) h = elim (Bool-cases (is_row group user m)) [
  | inl mine ↦ elim (Bool-cases (contains (keys_of_role m.role_id roles) key)) [
    | inl own ↦ record {
      row = m;
      is_member = here;
      of_group = ground (arith, eq_iff m.group_id group);
      of_user = ground (arith, eq_iff m.user_id user, eq_iff m.group_id group);
      granting = keys_of_role_sound m.role_id key roles own;
    }
    | inr not_own ↦ Membership-there (
        keys_of_user_sound user group key roles ms (
          ground (
            arith,
            contains-append (keys_of_role m.role_id roles) (keys_of_user user group roles ms) key,
          )))
  ]
  | inr other ↦ Membership-there (keys_of_user_sound user group key roles ms (ground arith))
]

keys_of_user_complete :
    {user group key : String} {m : GroupMember} {r : Role} (roles : List Role)
    (ms : List GroupMember)
    → In m ms
    → m.group_id ≡ group
    → m.user_id ≡ user
    → In r roles
    → In key r.permission_keys
    → r.id ≡ m.role_id
    → contains (keys_of_user user group roles ms) key ≡ true
unfolding keys_of_user
keys_of_user_complete roles [] h g u i k e = elim h [ ]
keys_of_user_complete {user} {group} {key} {m} roles (x ∷ ms) here g u i k e = ground (
  arith,
  eq_iff m.group_id group,
  eq_iff m.user_id user,
  contains-append (keys_of_role m.role_id roles) (keys_of_user user group roles ms) key,
  keys_of_role_complete roles i k e,
)
keys_of_user_complete {user} {group} {key} {m} roles (x ∷ ms) (there h) g u i k e = ground (
  arith,
  contains-append (keys_of_role x.role_id roles) (keys_of_user user group roles ms) key,
  keys_of_user_complete roles ms h g u i k e,
)

-- The join that the queries compute has a key just when a row grants it.
pub keys_of_user-Holds :
    (db : Db) (user group key : String)
    → (contains (keys_of_user user group db.roles db.members) key ≡ true) ↔ Holds db user group key
keys_of_user-Holds db user group key = (
  λ h.
      let m = keys_of_user_sound user group key db.roles db.members h in
      let g = m.granting in
      record {
        row = m.row;
        role = g.role;
        is_member = m.is_member;
        is_role = g.is_role;
        has_key = g.has_key;
        of_group = m.of_group;
        of_user = m.of_user;
        by_role = g.by_id;
      },
  λ w.
      keys_of_user_complete db.roles db.members w.is_member w.of_group w.of_user w.is_role w.has_key
        w.by_role,
)
