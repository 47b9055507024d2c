-- ===== src/Jobs/Rows.antt =====
-- db/async_jobs.sql.go: the statements, each of which is atomic. `now` is the database's NOW().
use baru_reso_headless_contr.Prelude.{
  ℕ, ◌+◌, ◌*◌, Bool, true, false, ◌&&◌, not, Option, none, some, List, [], ◌∷◌, String, str_eq,
  contains, ltb, if◌then◌else◌, take, Error, map,
}
use baru_reso_headless_contr.Prelude.Table.{change_where, select, order_by}
use baru_reso_headless_contr.Schedule.{second}
use baru_reso_headless_contr.Jobs.{
  AsyncJob, JobType, JobStatus, pending, running, succeeded, failed,
}

abbrev pub Rows : Type 0
Rows = List AsyncJob

abbrev pub is_pending : JobStatus → Bool
is_pending pending = true
is_pending _ = false

abbrev pub is_running : JobStatus → Bool
is_running running = true
is_running _ = false

abbrev pub ids : Rows → List String
ids [] = []
ids (j ∷ rows) = j.id ∷ ids rows

unfoldable pub claimed : String → ℕ → AsyncJob → AsyncJob
claimed instance_id now j = record j {
  status = running;
  claimed_by = some instance_id;
  claimed_at = some now;
}

-- Pending rows that no other transaction has locked (SKIP LOCKED), oldest first.
pub chosen_rows : ℕ → (String → Bool) → Rows → Rows
chosen_rows limit locked rows =
    take limit
      (order_by (λ j. j.created_at) (select (λ j. is_pending j.status && not (locked j.id)) rows))

-- With the claimed rows as they are returned.
pub claim_due : String → ℕ → ℕ → (String → Bool) → Rows → Rows × Rows
unfolding chosen_rows
claim_due instance_id limit now locked rows =
    let picked = chosen_rows limit locked rows in
    (
      map (claimed instance_id now) picked,
      change_where (λ j. contains (ids picked) j.id) (claimed instance_id now) rows,
    )

-- WHERE id = $1 AND status = 1
abbrev pub is_running_row : String → AsyncJob → Bool
is_running_row id j = str_eq j.id id && is_running j.status

-- An empty result is stored as a JSON null.
abbrev pub result_or_null : String → String
result_or_null text = if str_eq text "" then "null" else text

unfoldable pub mark_succeeded : String → String → ℕ → Rows → Rows
mark_succeeded id text now = change_where (is_running_row id) (λ j. record j {
  status = succeeded;
  executed_at = some now;
  result_payload = some (result_or_null text);
  last_error = none;
  claimed_by = none;
  claimed_at = none;
})

unfoldable pub mark_failed : String → Error → ℕ → Rows → Rows
mark_failed id e now = change_where (is_running_row id) (λ j. record j {
  status = failed;
  executed_at = some now;
  last_error = some e;
  claimed_by = none;
  claimed_at = none;
})

abbrev pub is_stale : ℕ → ℕ → Option ℕ → Bool
is_stale seconds now none = false
is_stale seconds now (some at) = ltb (at + seconds * second) now

pub release_stale : ℕ → ℕ → Rows → Rows
release_stale seconds now =
    change_where (λ j. is_running j.status && is_stale seconds now j.claimed_at)
      (λ j. record j { status = pending; claimed_by = none; claimed_at = none })

-- A row with the columns that the INSERT names; `id` is the generated one.
unfoldable pub new_job :
    String → ℕ → JobType → String → Option String → Option String → Option String → AsyncJob
new_job id now job_type payload host session creator = record {
  id = id;
  job_type = job_type;
  payload = payload;
  status = pending;
  result_payload = none;
  last_error = none;
  claimed_by = none;
  claimed_at = none;
  executed_at = none;
  host_id = host;
  session_id = session;
  created_by = creator;
  created_at = now;
}
