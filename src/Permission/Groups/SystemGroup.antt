-- ===== src/Permission/Groups/SystemGroup.antt =====
-- usecase/group_usecase.go: the system group always keeps a member.
use baru_reso_headless_contr.Prelude.{
  ◌≡◌, ◌≢◌, refl, Bool, true, false, Option, none, some, List, [], ◌∷◌, String, str_eq, ok, arith,
  if◌then◌else◌, ◌||◌, eq_iff,
}
use baru_reso_headless_contr.Permission.Tables.{
  Db, Group, GroupMember, GroupType, system, find_group, insert_member, insert_group,
  set_member_role, set_group_name, remove_group, rows_without, rows_with_role, renamed,
  members_of_group, members_outside, groups_without, group_exists,
}
use baru_reso_headless_contr.Permission.Groups.{has_other_member}

-- The type of the group that a lookup by id finds.
abbrev pub type_at : String → List Group → Option GroupType
type_at id [] = none
type_at id (g ∷ gs) = if str_eq g.id id then some g.group_type else type_at id gs

abbrev pub has_member : String → List GroupMember → Bool
has_member group [] = false
has_member group (m ∷ ms) = str_eq m.group_id group || has_member group ms

-- The group "system" is a system group and has a member.
pub record SystemSafe (db : Db) : Type 0 where
  pub is_there : type_at "system" db.groups ≡ some system
  pub has_someone : has_member "system" db.members ≡ true

pub insert_member-SystemSafe :
    (m : GroupMember) (db : Db) → SystemSafe db → SystemSafe (insert_member m db).1
unfolding insert_member
insert_member-SystemSafe m db h = ground arith

type_at-exists :
    (id : String) (t : GroupType) (gs : List Group)
    → type_at id gs ≡ some t
    → group_exists id gs ≡ true
type_at-exists id t [] h = cc
type_at-exists id t (g ∷ gs) h = ground (arith, type_at-exists id t gs)

pub insert_group-SystemSafe :
    (g : Group) (db : Db) → SystemSafe db → SystemSafe (insert_group g db).1
unfolding insert_group
insert_group-SystemSafe g db h =
    ground (arith, eq_iff g.id "system", type_at-exists "system" system db.groups h.is_there)

type_at-renamed :
    (id name k : String) (gs : List Group) → type_at k (renamed id name gs) ≡ type_at k gs
unfolding renamed
type_at-renamed id name k [] = refl
type_at-renamed id name k (g ∷ gs) = ground (arith, type_at-renamed id name k gs)

pub set_group_name-SystemSafe :
    (id name : String) (db : Db) → SystemSafe db → SystemSafe (set_group_name id name db).1
unfolding set_group_name
set_group_name-SystemSafe id name db h = ground (arith, type_at-renamed id name "system" db.groups)

has_member-rows_with_role :
    (group user role k : String) (ms : List GroupMember)
    → has_member k (rows_with_role group user role ms) ≡ has_member k ms
unfolding rows_with_role
has_member-rows_with_role group user role k [] = refl
has_member-rows_with_role group user role k (m ∷ ms) =
    ground (arith, has_member-rows_with_role group user role k ms)

pub set_member_role-SystemSafe :
    (group user role : String) (db : Db)
    → SystemSafe db
    → SystemSafe (set_member_role group user role db).1
unfolding set_member_role
set_member_role-SystemSafe group user role db h =
    ground (arith, has_member-rows_with_role group user role "system" db.members)

-- Removing one user leaves a group a member if it had another.
pub has_member-rows_without :
    (group user : String) (ms : List GroupMember)
    → has_other_member user (members_of_group group ms) ≡ true
    → has_member group (rows_without group user ms) ≡ true
unfolding has_other_member members_of_group rows_without
has_member-rows_without group user [] h = cc
has_member-rows_without group user (m ∷ ms) h =
    ground (arith, has_member-rows_without group user ms)

pub has_member-rows_without_ne :
    (group user k : String) (ms : List GroupMember)
    → group ≢ k
    → has_member k ms ≡ true
    → has_member k (rows_without group user ms) ≡ true
unfolding rows_without
has_member-rows_without_ne group user k [] ne h = cc
has_member-rows_without_ne group user k (m ∷ ms) ne h = ground (
  arith,
  eq_iff m.group_id group,
  eq_iff m.group_id k,
  has_member-rows_without_ne group user k ms ne,
)

has_member-outside :
    (group k : String) (ms : List GroupMember)
    → group ≢ k
    → has_member k (members_outside group ms) ≡ has_member k ms
unfolding members_outside
has_member-outside group k [] ne = refl
has_member-outside group k (m ∷ ms) ne =
    ground (arith, eq_iff m.group_id group, eq_iff m.group_id k, has_member-outside group k ms ne)

type_at-groups_without :
    (id k : String) (gs : List Group) → id ≢ k → type_at k (groups_without id gs) ≡ type_at k gs
unfolding groups_without
type_at-groups_without id k [] ne = refl
type_at-groups_without id k (g ∷ gs) ne =
    ground (arith, eq_iff g.id id, eq_iff g.id k, type_at-groups_without id k gs ne)

pub remove_group-SystemSafe :
    (id : String) (db : Db) → id ≢ "system" → SystemSafe db → SystemSafe (remove_group id db).1
unfolding remove_group
remove_group-SystemSafe id db ne h = ground (
  arith,
  has_member-outside id "system" db.members ne,
  type_at-groups_without id "system" db.groups ne,
)

pub find_group-type_at :
    (id : String) (g : Group) (gs : List Group)
    → find_group id gs ≡ ok g
    → type_at id gs ≡ some g.group_type
unfolding find_group
find_group-type_at id g [] h = cc
find_group-type_at id g (x ∷ gs) h = ground (arith, find_group-type_at id g gs)
