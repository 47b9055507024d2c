-- ===== src/Permission/Groups/Calls.antt =====
-- usecase/group_usecase.go: every method, and any sequence of calls, keeps the system group's member.
use baru_reso_headless_contr.Prelude.{
  not_found, Bool-cases, inl, inr, str_eq→eq, eq_iff, ◌≡◌, ◌≢◌, refl, Bool, true, Option, List, [],
  ◌∷◌, String, str_eq, Result, ok, err, arith,
}
use baru_reso_headless_contr.Prelude.Outcome.{keep-query, keep-read, keep-step, keep-check}
use baru_reso_headless_contr.Permission.Tables.{
  Db, Group, GroupType, personal, normal, system, find_group, insert_member, insert_group,
  delete_member, set_member_role, set_group_name, members_of_group, Query, get_group, read-ok,
}
use baru_reso_headless_contr.Prelude.Exec.{query, resume, check}
use baru_reso_headless_contr.Permission.Check.{Ctx}
use baru_reso_headless_contr.Permission.Groups.{
  validate_requested_role, member_of, require_group_permission, validate_personal_role_assignable,
  after_lookup, create_personal_group, require_perm_subset_of_caller, group_of, require_role_change,
  create_group, update_group_name, delete_group, add_group_member, remove_group_member,
  update_group_member_role, ensure_personal_group_for_user, has_other_member, keep_last_member,
}
use baru_reso_headless_contr.Permission.Groups.SystemGroup.{
  SystemSafe, insert_member-SystemSafe, insert_group-SystemSafe, set_group_name-SystemSafe,
  set_member_role-SystemSafe, remove_group-SystemSafe, find_group-type_at, has_member-rows_without,
  has_member-rows_without_ne,
}

create_group-SystemSafe :
    (ctx : Ctx) (id name creator : String) (db : Db)
    → SystemSafe db
    → SystemSafe (create_group ctx id name creator db).1
unfolding create_group
create_group-SystemSafe ctx id name creator db h = keep-query SystemSafe _ _ db h (λ _ _.
    keep-check SystemSafe _ _ _ db h (λ _.
      keep-step SystemSafe (insert_group _) _ db (insert_group-SystemSafe _ db h) (λ g _.
        keep-step SystemSafe (insert_member _) _ _
          (insert_member-SystemSafe _ _ (insert_group-SystemSafe _ db h))
          (λ _ _. insert_member-SystemSafe _ _ (insert_group-SystemSafe _ db h)))))

update_group_name-SystemSafe :
    (ctx : Ctx) (id name : String) (db : Db)
    → SystemSafe db
    → SystemSafe (update_group_name ctx id name db).1
unfolding update_group_name group_of
update_group_name-SystemSafe ctx id name db h = keep-query SystemSafe _ _ db h (λ g _.
    keep-check SystemSafe _ _ _ db h (λ _. keep-query SystemSafe _ _ db h (λ _ _.
      keep-step SystemSafe (set_group_name id name) _ db (set_group_name-SystemSafe id name db h)
        (λ _ _. keep-read SystemSafe _ _ (set_group_name-SystemSafe id name db h)))))

-- A group of another type than system is not the group "system".
ne_system :
    (id : String) (g : Group) (db : Db)
    → SystemSafe db
    → find_group id db.groups ≡ ok g
    → g.group_type ≢ system
    → id ≢ "system"
ne_system id g db h found ne e =
    ne (ground (arith, find_group-type_at id g db.groups found, h.is_there))

delete_group-SystemSafe :
    (ctx : Ctx) (id : String) (db : Db) → SystemSafe db → SystemSafe (delete_group ctx id db).1
unfolding delete_group
delete_group-SystemSafe ctx id db h = keep-query SystemSafe _ _ db h (λ g found.
    keep-check SystemSafe _ _ _ db h (λ is. keep-query SystemSafe _ _ db h (λ _ _.
      remove_group-SystemSafe id db
        (ne_system id g db h (read-ok db get_group (find_group id db.groups) g found)
          (λ e. ground arith))
        h)))

add_group_member-SystemSafe :
    (ctx : Ctx) (group user role : String) (added_by : Option String) (db : Db)
    → SystemSafe db
    → SystemSafe (add_group_member ctx group user role added_by db).1
unfolding add_group_member
add_group_member-SystemSafe ctx group user role added_by db h =
    keep-query SystemSafe _ _ db h (λ _ _. keep-query SystemSafe _ _ db h (λ g _.
      keep-check SystemSafe _ _ _ db h (λ _. keep-query SystemSafe _ _ db h (λ r _.
        keep-check SystemSafe _ _ _ db h
          (λ _. keep-query SystemSafe _ _ db h (λ _ _. insert_member-SystemSafe _ db h))))))

require_role_change-keeps :
    (ctx : Ctx) (t : GroupType) (group : String) (db : Db)
    → (require_role_change ctx t group db).1 ≡ db
unfolding require_role_change query
require_role_change-keeps ctx personal group db = refl
require_role_change-keeps ctx normal group db = refl
require_role_change-keeps ctx system group db = refl

update_group_member_role-SystemSafe :
    (ctx : Ctx) (group user role : String) (db : Db)
    → SystemSafe db
    → SystemSafe (update_group_member_role ctx group user role db).1
unfolding update_group_member_role group_of require_perm_subset_of_caller member_of
update_group_member_role-SystemSafe ctx group user role db h =
    keep-query SystemSafe _ _ db h (λ g _.
      keep-step SystemSafe (require_role_change ctx g.group_type group) _ db
        (rw (require_role_change-keeps ctx g.group_type group db) h)
        (λ _ _. rw (require_role_change-keeps ctx g.group_type group db) (
          keep-query SystemSafe _ _ db h (λ r _. keep-check SystemSafe _ _ _ db h (λ _.
            keep-query SystemSafe _ _ db h (λ _ _. keep-query SystemSafe _ _ db h (λ _ _.
              keep-step SystemSafe (set_member_role group user role) _ db
                (set_member_role-SystemSafe group user role db h)
                (λ _ _.
                  keep-read SystemSafe _ _ (set_member_role-SystemSafe group user role db h)))))))))

-- Taking a member out of another group, or one of several out of the system group.
delete_member-SystemSafe :
    (group user : String) (db : Db)
    → (group ≡ "system" → has_other_member user (members_of_group group db.members) ≡ true)
    → SystemSafe db
    → SystemSafe (delete_member group user db).1
unfolding delete_member
delete_member-SystemSafe group user db other h = elim (Bool-cases (str_eq group "system")) [
  | inl e ↦ ground (
    arith,
    str_eq→eq group "system" e,
    has_member-rows_without group user db.members (other (str_eq→eq group "system" e)),
  )
  | inr e ↦
      ground
        (arith, eq_iff group "system", has_member-rows_without_ne group user "system" db.members)
]

keep_last_member-ok :
    (t : GroupType) (group user : String) (a : Unit {0}) (db : Db)
    → (keep_last_member t group user db).0 ≡ ok a
    → t ≡ system
    → has_other_member user (members_of_group group db.members) ≡ true
unfolding keep_last_member query resume check
keep_last_member-ok t group user a db h e = ground (arith)

keep_last_member-keeps :
    (t : GroupType) (group user : String) (db : Db) → (keep_last_member t group user db).1 ≡ db
unfolding keep_last_member query resume check
keep_last_member-keeps t group user db = ground (arith)

-- The group "system" has type system.
system_type :
    (id : String) (g : Group) (db : Db)
    → SystemSafe db
    → find_group id db.groups ≡ ok g
    → id ≡ "system"
    → g.group_type ≡ system
system_type id g db h found e = ground (arith, find_group-type_at id g db.groups found, h.is_there)

remove_group_member-SystemSafe :
    (ctx : Ctx) (group user : String) (db : Db)
    → SystemSafe db
    → SystemSafe (remove_group_member ctx group user db).1
unfolding remove_group_member group_of require_group_permission
remove_group_member-SystemSafe ctx group user db h = keep-query SystemSafe _ _ db h (λ g found.
    keep-check SystemSafe _ _ _ db h (λ _. keep-query SystemSafe _ _ db h (λ _ _.
      keep-step SystemSafe (keep_last_member g.group_type group user) _ db
        (rw (keep_last_member-keeps g.group_type group user db) h)
        (λ a kept. rw (keep_last_member-keeps g.group_type group user db) (
          delete_member-SystemSafe group user db
            (λ e. keep_last_member-ok g.group_type group user a db kept (
              system_type group g db h (read-ok db get_group (find_group group db.groups) g found)
                e))
            h)))))

validate_requested_role-SystemSafe :
    (role : String) (db : Db) → SystemSafe db → SystemSafe (validate_requested_role role db).1
unfolding validate_requested_role validate_personal_role_assignable query resume check
validate_requested_role-SystemSafe role db h = ground arith

create_personal_group-SystemSafe :
    (user role : String) (db : Db)
    → SystemSafe db
    → SystemSafe (create_personal_group user role db).1
unfolding create_personal_group
create_personal_group-SystemSafe user role db h =
    keep-step SystemSafe (insert_group _) _ db (insert_group-SystemSafe _ db h) (λ g _.
      keep-step SystemSafe (insert_member _) _ _
        (insert_member-SystemSafe _ _ (insert_group-SystemSafe _ db h))
        (λ _ _. insert_member-SystemSafe _ _ (insert_group-SystemSafe _ db h)))

after_lookup-SystemSafe :
    (user role : String) (r : Result Group) (db : Db)
    → SystemSafe db
    → SystemSafe (after_lookup user role r db).1
unfolding after_lookup
after_lookup-SystemSafe user role (ok g) db h = h
after_lookup-SystemSafe user role (err not_found) db h =
    create_personal_group-SystemSafe user _ db h
after_lookup-SystemSafe user role (err _) db h = h

ensure_personal_group_for_user-SystemSafe :
    (user role : String) (db : Db)
    → SystemSafe db
    → SystemSafe (ensure_personal_group_for_user user role db).1
unfolding ensure_personal_group_for_user
ensure_personal_group_for_user-SystemSafe user role db h =
    keep-step SystemSafe (validate_requested_role role) _ db
      (validate_requested_role-SystemSafe role db h)
      (λ _ _. after_lookup-SystemSafe user role _ _ (validate_requested_role-SystemSafe role db h))

-- The calls of GroupUsecase that write.
pub data GroupCall : Type 0 where
  create : Ctx → String → String → String → GroupCall
  rename : Ctx → String → String → GroupCall
  delete : Ctx → String → GroupCall
  add : Ctx → String → String → String → Option String → GroupCall
  remove : Ctx → String → String → GroupCall
  change_role : Ctx → String → String → String → GroupCall
  ensure_personal : String → String → GroupCall

unfoldable pub call : GroupCall → Db → Db
call (create ctx id name creator) db = (create_group ctx id name creator db).1
call (rename ctx id name) db = (update_group_name ctx id name db).1
call (delete ctx id) db = (delete_group ctx id db).1
call (add ctx group user role added_by) db = (add_group_member ctx group user role added_by db).1
call (remove ctx group user) db = (remove_group_member ctx group user db).1
call (change_role ctx group user role) db = (update_group_member_role ctx group user role db).1
call (ensure_personal user role) db = (ensure_personal_group_for_user user role db).1

-- Which queries the database refuses may change before each call.
unfoldable pub calls : List ((Query → Bool) × GroupCall) → Db → Db
calls [] db = db
calls ((down, c) ∷ cs) db = calls cs (call c (record db { down = down }))

call-SystemSafe : (c : GroupCall) (db : Db) → SystemSafe db → SystemSafe (call c db)
unfolding call
call-SystemSafe (create ctx id name creator) db h = create_group-SystemSafe ctx id name creator db h
call-SystemSafe (rename ctx id name) db h = update_group_name-SystemSafe ctx id name db h
call-SystemSafe (delete ctx id) db h = delete_group-SystemSafe ctx id db h
call-SystemSafe (add ctx group user role added_by) db h =
    add_group_member-SystemSafe ctx group user role added_by db h
call-SystemSafe (remove ctx group user) db h = remove_group_member-SystemSafe ctx group user db h
call-SystemSafe (change_role ctx group user role) db h =
    update_group_member_role-SystemSafe ctx group user role db h
call-SystemSafe (ensure_personal user role) db h =
    ensure_personal_group_for_user-SystemSafe user role db h

-- From a database whose system group exists and has a member, any sequence of calls of the group
-- methods, whoever makes them and whichever queries fail, leads to one of which the same holds.
pub calls-SystemSafe :
    (cs : List ((Query → Bool) × GroupCall)) (db : Db) → SystemSafe db → SystemSafe (calls cs db)
unfolding calls
calls-SystemSafe [] db h = h
calls-SystemSafe ((down, c) ∷ cs) db h =
    calls-SystemSafe cs _
      (call-SystemSafe c _ (record { is_there = h.is_there; has_someone = h.has_someone }))
