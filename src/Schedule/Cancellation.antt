-- ===== src/Schedule/Cancellation.antt =====
-- usecase/scheduled_session_operation_usecase.go: `resolveTargetGroupID` and `Cancel`, with the
-- calls of adapter/scheduled_session_operation_repository.go. `earlier` is what `Get` reads: other
-- requests and workers may write the rows before the update runs on them.
pub mod Permitted
mod Examples
use baru_reso_headless_contr.Prelude.{
  Bool, true, false, ◌&&◌, ◌||◌, Option, none, some, List, [], ◌∷◌, String, str_eq, if◌then◌else◌,
  Result, ok, err, Error, other, not_found, not_cancelable,
}
use baru_reso_headless_contr.Prelude.Exec.{Exec, query, check, resume, ◌>>=◌, ◌>>◌}
use baru_reso_headless_contr.Permission.Tables.{Db}
use baru_reso_headless_contr.Permission.Check.{Ctx, require_permission_for_group}
use baru_reso_headless_contr.Schedule.{Operation}
use baru_reso_headless_contr.Schedule.Rows.{Rows, is_pending, cancel}

abbrev pub session_write : String
session_write = "session:write"

-- The groups of sessions and hosts, and the errors of the two calls on the rows: of the UUID
-- parser or of the database.
pub record Targets : Type 0 where
  pub group_of_session : String → Result String
  pub group_of_host : String → Result String
  pub get_error : Option Error
  pub cancel_error : Option Error

group_of_optional_host : Targets → Option String → Result String
group_of_optional_host t none = err (other "either host_id or session_id is required")
group_of_optional_host t (some host) =
    if str_eq host ""
    then err (other "either host_id or session_id is required")
    else t.group_of_host host

-- A session is asked first; an empty id counts as none.
pub resolve_target_group_id : Targets → Option String → Option String → Result String
unfolding group_of_optional_host
resolve_target_group_id t host none = group_of_optional_host t host
resolve_target_group_id t host (some session) =
    if str_eq session "" then group_of_optional_host t host else t.group_of_session session

pub find_row : String → Rows → Result Operation
find_row id [] = err not_found
find_row id (o ∷ rows) = let rest = find_row id rows in if str_eq o.id id then ok o else rest

pub get_operation : Targets → String → Rows → Result Operation
get_operation t id rows = elim t.get_error [ none ↦ find_row id rows | some e ↦ err e ]

-- Whether the update has a row to change.
pub has_pending : String → Rows → Bool
has_pending id [] = false
has_pending id (o ∷ rows) = (str_eq o.id id && is_pending o.status) || has_pending id rows

pub cancel_row : Targets → String → Exec Rows Bool
cancel_row t id rows = elim t.cancel_error [
  | none ↦ (ok (has_pending id rows), cancel id rows)
  | some e ↦ (err e, rows)
]

pub cancel_operation : Targets → Db → Ctx → String → Rows → Exec Rows (Unit {0})
cancel_operation t db ctx id earlier = do
  o ← query (λ _. get_operation t id earlier)
  group ← query (λ _. resolve_target_group_id t o.host_id o.session_id)
  query (λ _. require_permission_for_group db ctx group session_write)
  changed ← cancel_row t id
  check changed not_cancelable
