-- ===== src/Permission/Check/Grants.antt =====
-- usecase/permission_usecase.go: what the decisions mean in terms of the rows of the tables.
use baru_reso_headless_contr.Prelude.{
  Result-cases, ◌≡◌, ◌≢◌, ◌↔◌, All, sym, inl, inr, refl, ◌∙◌, Bool, true, false, List, [], ◌∷◌,
  String, str_eq, contains, some, none, Result, ok, err, arith, eq_iff, str_eq→eq, Bool-cases,
}
use baru_reso_headless_contr.Permission.Tables.{
  Db, keys_of_user, get_user_permissions_for_group, list_user_system_permissions, system_group_id,
  group_permissions, system_permissions,
}
use baru_reso_headless_contr.Permission.Check.Rows.{Holds, keys_of_user-Holds}
use baru_reso_headless_contr.Permission.Check.{
  require_all_permissions_for_group, system_role_manage, require_system_permission,
  subset_of_caller, require_subset_of_caller, is_system_key, has_permission,
  require_permission_for_group, system_group_manage, has_system_permission, in_group, Ctx,
  current_user_id, caller_holds_all,
}

-- What makes a permission check pass.
pub data Granted (db : Db) (user group key : String) : Type 0 where
  no_key_required : key ≡ "" → Granted db user group key
  by_system :
      is_system_key key ≡ true → Holds db user system_group_id key → Granted db user group key
  by_group :
      is_system_key key ≡ false → group ≢ "" → Holds db user group key → Granted db user group key
  by_system_admin :
      is_system_key key ≡ false
      → Holds db user system_group_id system_group_manage
      → Granted db user group key

-- A passed check of a system permission finds a role of the system group with the key.
pub has_system_permission-Holds :
    (db : Db) (user key : String)
    → has_system_permission db user key ≡ ok true
    → Holds db user system_group_id key
unfolding has_system_permission list_user_system_permissions
has_system_permission-Holds db user key h =
    (keys_of_user-Holds db user system_group_id key).0 (ground arith)

in_group-Holds :
    (db : Db) (user group key : String)
    → in_group db user group key ≡ ok true
    → (group ≢ "") × Holds db user group key
unfolding in_group get_user_permissions_for_group
in_group-Holds db user group key h =
    (λ e. ground (arith, eq_iff group ""), (keys_of_user-Holds db user group key).0 (ground arith))

-- The decision, from the results of its parts.
abbrev decide : Bool → Bool → Result Bool → Result Bool → Result Bool → Result Bool
decide true sys own direct admin = ok true
decide false true own direct admin = own
decide false false own (err e) admin = err e
decide false false own (ok true) admin = ok true
decide false false own (ok false) admin = admin

has_permission-decide :
    (db : Db) (user group key : String)
    → has_permission db user group key
      ≡ decide
          (str_eq key "")
          (is_system_key key)
          (has_system_permission db user key)
          (in_group db user group key)
          (has_system_permission db user system_group_manage)
unfolding has_permission
has_permission-decide db user group key = ground arith

-- A check passes only if some row grants the key: a query that fails never lets a caller through.
pub has_permission_sound :
    (db : Db) (user group key : String)
    → has_permission db user group key ≡ ok true
    → Granted db user group key
has_permission_sound db user group key h =
    go (str_eq key "") (is_system_key key) (in_group db user group key) refl refl refl
      (sym (has_permission-decide db user group key) ∙ h)
  where
    go :
        (none_asked sys : Bool) (direct : Result Bool)
        → str_eq key "" ≡ none_asked
        → is_system_key key ≡ sys
        → in_group db user group key ≡ direct
        → decide none_asked sys
            (has_system_permission db user key)
            direct
            (has_system_permission db user system_group_manage)
          ≡ ok true
        → Granted db user group key
    go true sys direct e es ed p = no_key_required (str_eq→eq key "" e)
    go false true direct e es ed p = by_system es (has_system_permission-Holds db user key p)
    go false false (err x) e es ed p = cc
    go false false (ok true) e es ed p =
        let w = in_group-Holds db user group key ed in by_group es w.0 w.1
    go false false (ok false) e es ed p =
        by_system_admin es (has_system_permission-Holds db user system_group_manage p)

module _ (db : Db) (group_up : db.down group_permissions ≡ false)
    (system_up : db.down system_permissions ≡ false) where
  has_system_permission_complete :
      (user key : String)
      → Holds db user system_group_id key
      → has_system_permission db user key ≡ ok true
  unfolding has_system_permission list_user_system_permissions
  has_system_permission_complete user key w =
      ground (arith, (keys_of_user-Holds db user system_group_id key).1 w)

  in_group-answers :
      (user group key : String)
      → (b : Bool) × (in_group db user group key ≡ ok b)
        × (group ≢ "" → Holds db user group key → b ≡ true)
  unfolding in_group get_user_permissions_for_group
  in_group-answers user group key = elim (Bool-cases (str_eq group "")) [
    | inl none_given ↦
        (false, rw none_given, λ named w. absurd (named (str_eq→eq group "" none_given)))
    | inr given ↦ (
      contains (keys_of_user user group db.roles db.members) key,
      rw (given, group_up),
      λ named w. (keys_of_user-Holds db user group key).1 w,
    )
  ]

  decided_complete :
      (user group key : String)
      → Granted db user group key
      → decide
          (str_eq key "")
          (is_system_key key)
          (has_system_permission db user key)
          (in_group db user group key)
          (has_system_permission db user system_group_manage)
        ≡ ok true
  decided_complete user group key (no_key_required e) = ground (arith, eq_iff key "")
  decided_complete user group key (by_system es w) =
      ground (arith, has_system_permission_complete user key w)
  decided_complete user group key (by_group es named w) =
      let (b, answers, held) = in_group-answers user group key in
      let passes : b ≡ true = held named w in ground (arith, answers, passes)
  decided_complete user group key (by_system_admin es w) =
      let (b, answers, held) = in_group-answers user group key in
      ground (arith, answers, has_system_permission_complete user system_group_manage w)

  -- While the database answers, a check passes exactly when a row grants the key: the group's own
  -- role, the system group's for a `system:` key, or `system:group.manage` for any other.
  pub has_permission_iff :
      (user group key : String)
      → (has_permission db user group key ≡ ok true) ↔ Granted db user group key
  has_permission_iff user group key = (
    has_permission_sound db user group key,
    λ granted. has_permission-decide db user group key ∙ decided_complete user group key granted,
  )

-- The caller of a context, where it has one, is granted the key.
abbrev pub CallerGranted : Db → Ctx → String → String → Type 0
CallerGranted db ctx group key = (user : String) × (ctx ≡ some user) × Granted db user group key

-- A guard passes only for a caller with claims whose key some row grants.
pub require_permission_for_group-Granted :
    (db : Db) (ctx : Ctx) (group key : String)
    → require_permission_for_group db ctx group key ≡ ok tt
    → CallerGranted db ctx group key
unfolding require_permission_for_group current_user_id
require_permission_for_group-Granted db none group key h = cc
require_permission_for_group-Granted db (some user) group key h =
    (user, refl, has_permission_sound db user group key (ground arith))

caller_holds_all-Granted :
    (db : Db) (ctx : Ctx) (caller group : String) (keys : List String)
    → ctx ≡ some caller
    → caller_holds_all db caller group keys ≡ ok tt
    → All (CallerGranted db ctx group) keys
unfolding caller_holds_all
caller_holds_all-Granted db ctx caller group [] e h = tt
caller_holds_all-Granted db ctx caller group (k ∷ ks) e h = (
  (caller, e, has_permission_sound db caller group k (ground arith)),
  caller_holds_all-Granted db ctx caller group ks e (ground arith),
)

-- Keys pass the subset rule only if the caller is granted each of them.
pub subset_of_caller-Granted :
    (db : Db) (ctx : Ctx) (group : String) (keys : List String)
    → subset_of_caller db ctx group keys ≡ ok tt
    → All (CallerGranted db ctx group) keys
unfolding subset_of_caller current_user_id
subset_of_caller-Granted db ctx group [] h = tt
subset_of_caller-Granted db none group (k ∷ ks) h = cc
subset_of_caller-Granted db (some user) group (k ∷ ks) h =
    caller_holds_all-Granted db (some user) user group (k ∷ ks) refl (ground arith)

-- The same of the rule for custom roles.
pub require_subset_of_caller-Granted :
    (db : Db) (ctx : Ctx) (group : String) (keys : List String)
    → require_subset_of_caller db ctx group keys ≡ ok tt
    → All (CallerGranted db ctx group) keys
unfolding require_subset_of_caller current_user_id
require_subset_of_caller-Granted db none group keys h = cc
require_subset_of_caller-Granted db (some user) group keys h =
    caller_holds_all-Granted db (some user) user group keys refl (ground arith)

-- A guard on a system permission passes only for a caller whose role in the system group has it.
pub require_system_permission-Granted :
    (db : Db) (ctx : Ctx) (group key : String)
    → is_system_key key ≡ true
    → require_system_permission db ctx key ≡ ok tt
    → CallerGranted db ctx group key
unfolding require_system_permission current_user_id
require_system_permission-Granted db none group key named h = cc
require_system_permission-Granted db (some user) group key named h =
    (user, refl, by_system named (has_system_permission-Holds db user key (ground arith)))

pub is_system_key-system_group_manage : is_system_key system_group_manage ≡ true
unfolding is_system_key
is_system_key-system_group_manage = refl

pub is_system_key-system_role_manage : is_system_key system_role_manage ≡ true
unfolding is_system_key
is_system_key-system_role_manage = refl

-- A guard on several keys passes only if the caller is granted each of them.
pub require_all_permissions_for_group-Granted :
    (db : Db) (ctx : Ctx) (group : String) (keys : List String)
    → require_all_permissions_for_group db ctx group keys ≡ ok tt
    → All (CallerGranted db ctx group) keys
unfolding require_all_permissions_for_group
require_all_permissions_for_group-Granted db ctx group [] h = tt
require_all_permissions_for_group-Granted db ctx group (k ∷ ks) h =
    elim (Result-cases (require_permission_for_group db ctx group k)) [
      | inl (u, passed) ↦ (
        require_permission_for_group-Granted db ctx group k passed,
        require_all_permissions_for_group-Granted db ctx group ks (rw passed at h),
      )
      | inr (e, refused) ↦ absurd (ground (arith, refused, h))
    ]
