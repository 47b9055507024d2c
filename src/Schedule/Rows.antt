-- ===== src/Schedule/Rows.antt =====
-- db/scheduled_session_operations.sql.go: the statements, each of which is atomic. `now` is the
-- database's NOW().
pub mod Lifecycle
pub mod Claims
pub mod Effects
mod Examples
use baru_reso_headless_contr.Prelude.{
  ℕ, zero, suc, ◌+◌, ◌*◌, Bool, true, false, ◌&&◌, not, Option, none, some, List, [], ◌∷◌, ◌++◌,
  String, str_eq, contains, ltb, leb, if◌then◌else◌, take, Error, map,
}
use baru_reso_headless_contr.Schedule.{
  Operation, OperationStatus, pending, running, succeeded, failed, canceled, second, OperationType,
  TriggerType,
}

abbrev pub Rows : Type 0
Rows = List Operation

abbrev pub is_pending : OperationStatus → Bool
is_pending pending = true
is_pending _ = false

abbrev pub is_running : OperationStatus → Bool
is_running running = true
is_running _ = false

-- UPDATE … SET change WHERE chosen
unfoldable pub update_where : (Operation → Bool) → (Operation → Operation) → Rows → Rows
update_where chosen change [] = []
update_where chosen change (o ∷ rows) =
    (if chosen o then change o else o) ∷ update_where chosen change rows

abbrev pub ids : Rows → List String
ids [] = []
ids (o ∷ rows) = o.id ∷ ids rows

abbrev pub is_due : ℕ → Operation → Bool
is_due now o = is_pending o.status && leb o.next_fire_at now

-- The due rows that no other transaction has locked (SKIP LOCKED).
pub due : ℕ → (String → Bool) → Rows → Rows
due now locked [] = []
due now locked (o ∷ rows) =
    let rest = due now locked rows in if is_due now o && not (locked o.id) then o ∷ rest else rest

pub insert_by_time : Operation → Rows → Rows
insert_by_time o [] = o ∷ []
insert_by_time o (p ∷ rows) =
    let rest = insert_by_time o rows in
    if leb o.next_fire_at p.next_fire_at then o ∷ p ∷ rows else p ∷ rest

-- ORDER BY next_fire_at
pub by_time : Rows → Rows
by_time [] = []
by_time (o ∷ rows) = insert_by_time o (by_time rows)

pub claimed : String → ℕ → Operation → Operation
claimed instance_id now o = record o {
  status = running;
  claimed_by = some instance_id;
  claimed_at = some now;
}

pub chosen_rows : ℕ → ℕ → (String → Bool) → Rows → Rows
chosen_rows limit now locked rows = take limit (by_time (due now locked rows))

-- With the claimed rows as they are returned.
pub claim_due : String → ℕ → ℕ → (String → Bool) → Rows → Rows × Rows
claim_due instance_id limit now locked rows =
    let picked = chosen_rows limit now locked rows in
    (
      map (claimed instance_id now) picked,
      update_where (λ o. contains (ids picked) o.id) (claimed instance_id now) rows,
    )

-- WHERE id = $1 AND status = 1
abbrev pub is_running_row : String → Operation → Bool
is_running_row id o = str_eq o.id id && is_running o.status

pub mark_succeeded : String → ℕ → Rows → Rows
mark_succeeded id now = update_where (is_running_row id) (λ o. record o {
  status = succeeded;
  executed_at = some now;
  claimed_by = none;
  claimed_at = none;
  last_error = none;
})

pub mark_failed : String → Error → ℕ → Rows → Rows
mark_failed id e now = update_where (is_running_row id) (λ o. record o {
  status = failed;
  executed_at = some now;
  last_error = some e;
  claimed_by = none;
  claimed_at = none;
})

pub requeue : String → ℕ → Rows → Rows
requeue id at =
    update_where (is_running_row id)
      (λ o. record o { status = pending; next_fire_at = at; claimed_by = none; claimed_at = none })

unfoldable pub cancel : String → Rows → Rows
cancel id =
    update_where (λ o. str_eq o.id id && is_pending o.status) (λ o. record o { status = canceled })

abbrev pub is_stale : ℕ → ℕ → Option ℕ → Bool
is_stale seconds now none = false
is_stale seconds now (some at) = ltb (at + seconds * second) now

pub release_stale : ℕ → ℕ → Rows → Rows
release_stale seconds now =
    update_where (λ o. is_running o.status && is_stale seconds now o.claimed_at)
      (λ o. record o { status = pending; claimed_by = none; claimed_at = none })

-- INSERT with a fresh id; the other columns have their defaults.
pub create : Operation → Rows → Rows
create o rows =
    record o {
      status = pending;
      last_error = none;
      claimed_by = none;
      claimed_at = none;
      executed_at = none;
    }
    ∷ rows
