-- ===== src/Rpc/Interceptor/Passes.antt =====
-- adapter/rpc/permission_interceptor.go: what the steps of a rule make sure of.
use baru_reso_headless_contr.Rpc.Interceptor.Admits.{CallerHolds}
use baru_reso_headless_contr.Prelude.{
  ap, subst, ◌≡◌, inl, inr, refl, ◌∙◌, Bool, true, false, none, some, List, [], ◌∷◌, String, str_eq,
  contains, Result, ok, err, arith, Bool-cases, str_eq→eq,
}
use baru_reso_headless_contr.Permission.Tables.{
  Query, Db, GroupMember, Group, has_row, system_group_id, read, list_groups,
}
use baru_reso_headless_contr.Permission.Check.{Ctx, has_system_permission, has_permission}
use baru_reso_headless_contr.Permission.Check.Rows.{Holds}
use baru_reso_headless_contr.Permission.Check.Grants.{
  Granted, CallerGranted, has_permission_sound, has_system_permission-Holds,
}
use baru_reso_headless_contr.Rpc.Interceptor.{
  Code, denied, Checked, pass, stop, ◌>>=◌, ensure, converted, or_internal, extract_claims,
  require_perm, require_system, groups_of_user, check_membership,
}

module _ {A B : Type 0} where
  -- A chain passes only if its first step does.
  pub bind-pass :
      (m : Checked A) (f : A → Checked B) {b : B}
      → (m >>= f) ≡ pass b
      → (a : A) × (m ≡ pass a) × (f a ≡ pass b)
  bind-pass (pass a) f h = (a, refl, h)
  bind-pass (stop c) f h = cc

pub converted-pass : {A : Type 0} (r : Result A) {a : A} → converted r ≡ pass a → r ≡ ok a
converted-pass (ok x) h = cc
converted-pass (err e) h = cc

pub or_internal-pass : {A : Type 0} (r : Result A) {a : A} → or_internal r ≡ pass a → r ≡ ok a
or_internal-pass (ok x) h = cc
or_internal-pass (err e) h = cc

pub extract_claims-pass :
    (ctx : Ctx) {user : String} → extract_claims ctx ≡ pass user → ctx ≡ some user
unfolding extract_claims
extract_claims-pass none h = cc
extract_claims-pass (some u) h = cc

pub ensure-pass : (b : Bool) (c : Code) → ensure b c ≡ pass tt → b ≡ true
ensure-pass true c h = refl
ensure-pass false c h = cc

pub require_perm-Granted :
    (db : Db) (user group key : String)
    → require_perm db user group key ≡ pass tt
    → Granted db user group key
unfolding require_perm
require_perm-Granted db user group key h =
    let (held, asked, passed) = bind-pass (or_internal (has_permission db user group key)) _ h in
    let yes = ensure-pass held denied passed in
    has_permission_sound db user group key
      (or_internal-pass (has_permission db user group key) asked ∙ ap ok yes)

pub require_system-Holds :
    (db : Db) (user key : String)
    → require_system db user key ≡ pass tt
    → Holds db user system_group_id key
unfolding require_system
require_system-Holds db user key h =
    let (held, asked, passed) = bind-pass (or_internal (has_system_permission db user key)) _ h in
    let yes = ensure-pass held denied passed in
    has_system_permission-Holds db user key
      (or_internal-pass (has_system_permission db user key) asked ∙ ap ok yes)

pub groups_of_user-has_row :
    (user group : String) (ms : List GroupMember) (gs : List Group)
    → contains (groups_of_user user ms gs) group ≡ true
    → has_row group user ms ≡ true
unfolding groups_of_user
groups_of_user-has_row user group ms [] h = cc
groups_of_user-has_row user group ms (g ∷ gs) h = elim (Bool-cases (has_row g.id user ms)) [
  | inl row ↦ elim (Bool-cases (str_eq g.id group)) [
    | inl same ↦ subst (λ x. has_row x user ms ≡ true) (str_eq→eq g.id group same) row
    | inr other ↦ groups_of_user-has_row user group ms gs (ground (arith, row, other))
  ]
  | inr absent ↦ groups_of_user-has_row user group ms gs (ground (arith, absent))
]

pub not_listed :
    (user group : String) (ms : List GroupMember) (gs : List Group)
    → has_row group user ms ≡ false
    → contains (groups_of_user user ms gs) group ≡ false
not_listed user group ms gs outside =
    elim (Bool-cases (contains (groups_of_user user ms gs) group)) [
      | inl listed ↦
          absurd (ground (arith, groups_of_user-has_row user group ms gs listed, outside))
      | inr absent ↦ absent
    ]

-- A passed `require_perm` of a caller.
pub granted :
    (db : Db) (ctx : Ctx) {user : String} (group key : String)
    → extract_claims ctx ≡ pass user
    → require_perm db user group key ≡ pass tt
    → CallerGranted db ctx group key
granted db ctx {user} group key c h =
    (user, extract_claims-pass ctx c, require_perm-Granted db user group key h)

pub holds :
    (db : Db) (ctx : Ctx) {user : String} (key : String)
    → extract_claims ctx ≡ pass user
    → require_system db user key ≡ pass tt
    → CallerHolds db ctx key
holds db ctx {user} key c h = (user, extract_claims-pass ctx c, require_system-Holds db user key h)

-- A query that answers gives what the tables hold.
pub read-ok :
    {A : Type 0} (db : Db) (q : Query) (r : Result A) {a : A} → read db q r ≡ ok a → r ≡ ok a
read-ok db q r h = elim (Bool-cases (db.down q)) [
  | inl down ↦ absurd (ground (arith, down, h))
  | inr up ↦ rw up at h
]

pub check_membership-has_row :
    (db : Db) (user group : String)
    → check_membership db user group ≡ pass tt
    → has_row group user db.members ≡ true
unfolding check_membership
check_membership-has_row db user group h =
    let found = groups_of_user user db.members db.groups in
    let listing = read db list_groups (ok found) in
    let (groups, asked, passed) = bind-pass (or_internal listing) _ h in
    let answer : ok found ≡ ok groups =
      read-ok db list_groups (ok found) (or_internal-pass listing asked) in
    let listed = ensure-pass (contains groups group) denied passed in
    groups_of_user-has_row user group db.members db.groups (cc (answer, listed))
