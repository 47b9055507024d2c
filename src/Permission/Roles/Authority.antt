-- ===== src/Permission/Roles/Authority.antt =====
-- usecase/role_usecase.go: who can change a role, and to what.
mod Examples
use baru_reso_headless_contr.Prelude.{
  Error, invalid_permission_key, ◌≡◌, refl, Bool, true, false, not, ◌&&◌, Option, none, some, List,
  [], ◌∷◌, String, Result, ok, err, arith, All, if◌then◌else◌,
}
use baru_reso_headless_contr.Prelude.Exec.{query}
use baru_reso_headless_contr.Prelude.Outcome.{
  Effect, untouched, changed, Effect-query, Effect-guard, Effect-check,
}
use baru_reso_headless_contr.Permission.Tables.{Db, Role, RoleScope, find_role, load_role-ok}
use baru_reso_headless_contr.Permission.Check.{Ctx, system_role_manage, group_members_manage}
use baru_reso_headless_contr.Permission.Check.Grants.{
  CallerGranted, require_permission_for_group-Granted, require_subset_of_caller-Granted,
  require_system_permission-Granted, is_system_key-system_role_manage,
}
use baru_reso_headless_contr.Permission.Roles.{
  update_role, delete_role_call, require_mutation, require_subset, subset_of_new, group_given,
  key_in_scope, is_valid_permission_key, validate_permission_keys, validate_new_keys,
}

-- The right to change a role: of the system for a global one, else of its group.
abbrev pub MayMutate : Db → Ctx → Option String → Type 0
MayMutate db ctx none = CallerGranted db ctx "" system_role_manage
MayMutate db ctx (some id) = CallerGranted db ctx id group_members_manage

abbrev pub IsAllowedKey : RoleScope → String → Type 0
IsAllowedKey scope k = (is_valid_permission_key k ≡ true) × (key_in_scope scope k ≡ true)

-- New keys are known and in scope, and for a role of a group the caller is granted each of them.
abbrev pub NewKeysHeld : Db → Ctx → Option String → Option (List String) → Type 0
NewKeysHeld db ctx (some id) (some keys) = All (CallerGranted db ctx id) keys
NewKeysHeld db ctx _ _ = Unit

abbrev pub NewKeysAllowed : RoleScope → Option (List String) → Type 0
NewKeysAllowed scope none = Unit
NewKeysAllowed scope (some keys) = All (IsAllowedKey scope) keys

pub record UpdateAllowed (ctx : Ctx) (id : String) (keys : Option (List String)) (db : Db)
    : Type 0 where
  pub role : Role
  pub role_found : find_role id db.roles ≡ ok role
  pub not_builtin : role.is_builtin ≡ false
  pub may_mutate : MayMutate db ctx (group_given role.group_id)
  pub keys_allowed : NewKeysAllowed role.scope keys
  pub keys_held : NewKeysHeld db ctx (group_given role.group_id) keys

require_mutation-keeps :
    (ctx : Ctx) (group : Option String) (db : Db) → (require_mutation ctx group db).1 ≡ db
unfolding require_mutation query
require_mutation-keeps ctx none db = refl
require_mutation-keeps ctx (some id) db = refl

require_mutation-MayMutate :
    (ctx : Ctx) (group : Option String) (db : Db) (a : Unit {0})
    → (require_mutation ctx group db).0 ≡ ok a
    → MayMutate db ctx group
unfolding require_mutation query
require_mutation-MayMutate ctx none db a h =
    require_system_permission-Granted db ctx "" system_role_manage is_system_key-system_role_manage
      h
require_mutation-MayMutate ctx (some id) db a h =
    require_permission_for_group-Granted db ctx id group_members_manage h

subset_of_new-keeps :
    (ctx : Ctx) (group : Option String) (keys : Option (List String)) (db : Db)
    → (subset_of_new ctx group keys db).1 ≡ db
unfolding subset_of_new require_subset query
subset_of_new-keeps ctx group none db = refl
subset_of_new-keeps ctx none (some keys) db = refl
subset_of_new-keeps ctx (some id) (some keys) db = refl

subset_of_new-NewKeysHeld :
    (ctx : Ctx) (group : Option String) (keys : Option (List String)) (db : Db) (a : Unit {0})
    → (subset_of_new ctx group keys db).0 ≡ ok a
    → NewKeysHeld db ctx group keys
unfolding subset_of_new require_subset query
subset_of_new-NewKeysHeld ctx none none db a h = tt
subset_of_new-NewKeysHeld ctx (some id) none db a h = tt
subset_of_new-NewKeysHeld ctx none (some keys) db a h = tt
subset_of_new-NewKeysHeld ctx (some id) (some keys) db a h =
    require_subset_of_caller-Granted db ctx id keys h

-- A guard with two conditions that let a result through.
passed :
    (b c : Bool) (rest : Result (Unit {0})) (e : Error) (a : Unit {0})
    → (if b && c then rest else err e) ≡ ok a
    → (b ≡ true) × (c ≡ true) × (rest ≡ ok a)
passed b c rest e a h = ground arith

validate_permission_keys-IsAllowedKey :
    (scope : RoleScope) (keys : List String) (a : Unit {0})
    → validate_permission_keys scope keys ≡ ok a
    → All (IsAllowedKey scope) keys
unfolding validate_permission_keys
validate_permission_keys-IsAllowedKey scope [] a h = tt
validate_permission_keys-IsAllowedKey scope (k ∷ ks) a h =
    let (known, fits, rest) =
      passed (is_valid_permission_key k) (key_in_scope scope k) (validate_permission_keys scope ks)
        invalid_permission_key a h in
    ((known, fits), validate_permission_keys-IsAllowedKey scope ks a rest)

validate_new_keys-NewKeysAllowed :
    (scope : RoleScope) (keys : Option (List String)) (a : Unit {0})
    → validate_new_keys scope keys ≡ ok a
    → NewKeysAllowed scope keys
unfolding validate_new_keys
validate_new_keys-NewKeysAllowed scope none a h = tt
validate_new_keys-NewKeysAllowed scope (some keys) a h =
    validate_permission_keys-IsAllowedKey scope keys a h

-- An update of a role leaves every table as it was unless the role is there and not builtin, the
-- caller may change roles there, the new keys are known and in the role's scope and, for a role of
-- a group, the caller is granted each of them in that group.
pub update_role-Effect :
    (ctx : Ctx) (id : String) (name : Option String) (keys : Option (List String)) (db : Db)
    → Effect (λ db'. UpdateAllowed ctx id keys db) db (update_role ctx id name keys db).1
unfolding update_role
update_role-Effect ctx id name keys db = Effect-query _ _ db (λ role found.
    Effect-check _ _ _ db (λ custom. Effect-query _ _ db (λ v valid.
      Effect-guard (require_mutation ctx (group_given role.group_id)) _ db
        (require_mutation-keeps ctx (group_given role.group_id) db)
        (λ a may.
          Effect-guard (subset_of_new ctx (group_given role.group_id) keys) _ db
            (subset_of_new-keeps ctx (group_given role.group_id) keys db)
            (λ b held. changed (record {
              role = role;
              role_found = load_role-ok db id role found;
              not_builtin = ground arith;
              may_mutate = require_mutation-MayMutate ctx (group_given role.group_id) db a may;
              keys_allowed = validate_new_keys-NewKeysAllowed role.scope keys v valid;
              keys_held = subset_of_new-NewKeysHeld ctx (group_given role.group_id) keys db b held;
            }))))))
