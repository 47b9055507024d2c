-- ===== src/Schedule/Cancellation/Permitted.antt =====
-- usecase/scheduled_session_operation_usecase.go: who can cancel what with `Cancel`.
use baru_reso_headless_contr.Prelude.{
  In, here, there, ◌≢◌, ◌⊎◌, Option, some, none, ◌∙◌, sym, subst, eq_iff, str_eq, str_eq→eq,
  if◌then◌else◌, ◌&&◌, Bool-cases,
}
use baru_reso_headless_contr.Prelude.Table.{Each}
use baru_reso_headless_contr.Schedule.{pending, canceled}
use baru_reso_headless_contr.Schedule.Rows.{is_pending}
use baru_reso_headless_contr.Schedule.Rows.Lifecycle.{is_pending-eq}
use baru_reso_headless_contr.Schedule.Cancellation.{find_row, group_of_optional_host}
use baru_reso_headless_contr.Prelude.{
  ◌≡◌, refl, ap, Bool, true, false, [], ◌∷◌, String, ok, err, not_cancelable, arith, Option-cases,
  inl, inr,
}
use baru_reso_headless_contr.Prelude.Exec.{check, resume}
use baru_reso_headless_contr.Prelude.Outcome.{Outcome, refused, done, Outcome-query}
use baru_reso_headless_contr.Permission.Tables.{Db}
use baru_reso_headless_contr.Permission.Check.{Ctx}
use baru_reso_headless_contr.Permission.Check.Grants.{
  CallerGranted, require_permission_for_group-Granted,
}
use baru_reso_headless_contr.Schedule.{Operation}
use baru_reso_headless_contr.Schedule.Rows.{Rows, cancel, update_where}
use baru_reso_headless_contr.Schedule.Cancellation.{
  Targets, session_write, resolve_target_group_id, get_operation, has_pending, cancel_row,
  cancel_operation,
}

cancel_absent : (id : String) (rows : Rows) → has_pending id rows ≡ false → cancel id rows ≡ rows
unfolding has_pending cancel update_where
cancel_absent id [] h = refl
cancel_absent id (o ∷ rows) h = ground (arith, cancel_absent id rows)

-- The group of the session that an operation names, or else of the host that it names.
pub data TargetGroup (t : Targets) (o : Operation) (group : String) : Type 0 where
  of_session :
      (session : String)
      → o.session_id ≡ some session
      → session ≢ ""
      → t.group_of_session session ≡ ok group
      → TargetGroup t o group
  of_host :
      (host : String)
      → (o.session_id ≡ none) ⊎ (o.session_id ≡ some "")
      → o.host_id ≡ some host
      → host ≢ ""
      → t.group_of_host host ≡ ok group
      → TargetGroup t o group

-- The waiting row of the id is cancelled, with its other columns kept; another row is as it was.
abbrev pub CanceledRow : String → Operation → Operation → Type 0
CanceledRow id o p =
    p ≡ (if str_eq o.id id && is_pending o.status then record o { status = canceled } else o)

-- What a cancellation rests on and does.
pub record Canceled (t : Targets) (db : Db) (ctx : Ctx) (id : String) (earlier rows : Rows)
    (r : Unit {0}) (after : Rows) : Type 0 where
  pub target : Operation
  pub was_read : In target earlier
  pub named : target.id ≡ id
  pub group : String
  pub in_group : TargetGroup t target group
  pub may_write : CallerGranted db ctx group session_write
  pub waiting : Operation
  pub is_there : In waiting rows
  pub has_id : waiting.id ≡ id
  pub was_pending : waiting.status ≡ pending
  pub effect : Each (CanceledRow id) rows after

find_row-In :
    (id : String) (rows : Rows) (o : Operation) → find_row id rows ≡ ok o → In o rows × (o.id ≡ id)
unfolding find_row
find_row-In id [] o h = cc
find_row-In id (x ∷ rows) o h = elim (Bool-cases (str_eq x.id id)) [
  | inl same ↦
      let e : x ≡ o = ground (arith, same, h) in
      (subst (λ y. In y (x ∷ rows)) e here, sym (ap (λ y. y.id) e) ∙ str_eq→eq x.id id same)
  | inr apart ↦
      let (at, named) = find_row-In id rows o (ground (arith, apart, h)) in (there at, named)
]

get_operation-In :
    (t : Targets) (id : String) (rows : Rows) (o : Operation)
    → get_operation t id rows ≡ ok o
    → In o rows × (o.id ≡ id)
unfolding get_operation
get_operation-In t id rows o h = elim (Option-cases t.get_error) [
  | inl fine ↦ find_row-In id rows o (rw fine at h)
  | inr (e, failing) ↦ absurd (ground (arith, rw failing at h))
]

group_of_optional_host-of_host :
    (t : Targets) (o : Operation) (group : String)
    → (o.session_id ≡ none) ⊎ (o.session_id ≡ some "")
    → (host : Option String) → o.host_id ≡ host
    → group_of_optional_host t host ≡ ok group
    → TargetGroup t o group
unfolding group_of_optional_host
group_of_optional_host-of_host t o group no_session none e h = cc
group_of_optional_host-of_host t o group no_session (some host) e h =
    elim (Bool-cases (str_eq host "")) [
      | inl empty ↦ absurd (ground (arith, rw empty at h))
      | inr named ↦
          of_host host no_session e (λ same. ground (arith, named, eq_iff host "")) (rw named at h)
    ]

resolve_target_group_id-TargetGroup :
    (t : Targets) (o : Operation) (group : String) (session : Option String)
    → o.session_id ≡ session
    → resolve_target_group_id t o.host_id session ≡ ok group
    → TargetGroup t o group
unfolding resolve_target_group_id
resolve_target_group_id-TargetGroup t o group none e h =
    group_of_optional_host-of_host t o group (inl e) o.host_id refl h
resolve_target_group_id-TargetGroup t o group (some session) e h =
    elim (Bool-cases (str_eq session "")) [
      | inl empty ↦
          group_of_optional_host-of_host t o group (inr (e ∙ ap some (str_eq→eq session "" empty)))
            o.host_id refl (rw empty at h)
      | inr named ↦
          of_session session e (λ same. ground (arith, named, eq_iff session "")) (rw named at h)
    ]

has_pending-In :
    (id : String) (rows : Rows)
    → has_pending id rows ≡ true
    → (o : Operation) × In o rows × (o.id ≡ id) × (o.status ≡ pending)
unfolding has_pending
has_pending-In id [] h = cc
has_pending-In id (x ∷ rows) h = elim (Bool-cases (str_eq x.id id && is_pending x.status)) [
  | inl mine ↦ (x, here, str_eq→eq x.id id (ground arith), is_pending-eq x.status (ground arith))
  | inr other ↦
      let (o, at, named, waits) = has_pending-In id rows (ground (arith, other, h)) in
      (o, there at, named, waits)
]

cancel-Each : (id : String) (rows : Rows) → Each (CanceledRow id) rows (cancel id rows)
unfolding cancel update_where
cancel-Each id [] = tt
cancel-Each id (o ∷ rows) = (refl, cancel-Each id rows)

module _ {P : Unit {0} → Rows → Type 0} (id : String) (rows : Rows)
    (may_cancel : has_pending id rows ≡ true → P tt (cancel id rows)) where
  check-cancel :
      (b : Bool)
      → has_pending id rows ≡ b
      → Outcome P rows (check b not_cancelable (cancel id rows))
  unfolding check
  check-cancel true e = done tt _ refl (may_cancel e)
  check-cancel false e =
      refused not_cancelable (ap (λ r. (err not_cancelable, r)) (cancel_absent id rows e))

  cancel_row-Outcome :
      (t : Targets)
      → Outcome P rows (
          resume
            (cancel_row t id rows).0
            (λ changed. check changed not_cancelable)
            (cancel_row t id rows).1)
  unfolding cancel_row resume
  cancel_row-Outcome t = elim (Option-cases t.cancel_error) [
    | inl e ↦ rw e (check-cancel (has_pending id rows) refl)
    | inr (x, e) ↦ rw e (refused x refl)
  ]

-- Whatever was written since the row was read, `Cancel` either fails and changes no row, or finds
-- a pending row of that id and sets just the status of the pending rows of that id, on behalf of a
-- caller who is granted session:write in the group of the session that the row of that id named
-- when it was read, or else of the host that it named.
pub cancel_operation-Outcome :
    (t : Targets) (db : Db) (ctx : Ctx) (id : String) (earlier rows : Rows)
    → Outcome (Canceled t db ctx id earlier rows) rows (cancel_operation t db ctx id earlier rows)
unfolding cancel_operation
cancel_operation-Outcome t db ctx id earlier rows = Outcome-query _ _ rows (λ o found.
    Outcome-query _ _ rows (λ g in_group. Outcome-query _ _ rows (λ _ may.
      cancel_row-Outcome id rows
        (λ e.
          let (was_read, named) = get_operation-In t id earlier o found in
          let (waiting, is_there, has_id, was_pending) = has_pending-In id rows e in
          record {
            target = o;
            was_read = was_read;
            named = named;
            group = g;
            in_group = resolve_target_group_id-TargetGroup t o g o.session_id refl in_group;
            may_write = require_permission_for_group-Granted db ctx g session_write may;
            waiting = waiting;
            is_there = is_there;
            has_id = has_id;
            was_pending = was_pending;
            effect = cancel-Each id rows;
          })
        t)))
