-- ===== src/Jobs/Executor/Endings.antt =====
-- worker/async_job_executor.go: why an execution ends as it does, and what that leaves in the rows.
use baru_reso_headless_contr.Prelude.Table.{Each, change_where-Each}
use baru_reso_headless_contr.Prelude.{if◌then◌else◌, ◌&&◌}
use baru_reso_headless_contr.Jobs.{JobStatus}
use baru_reso_headless_contr.Jobs.Rows.{is_running}
use baru_reso_headless_contr.Prelude.{
  ℕ, ◌≡◌, ◌≢◌, ◌⊎◌, refl, Bool, true, false, none, some, List, [], ◌∷◌, String, str_eq, ok, err,
  Error, other, canceled, deadline_exceeded,
}
use baru_reso_headless_contr.Jobs.{
  AsyncJob, JobCall, JobResult, done, failing, panicking, Message, Backend,
}
use baru_reso_headless_contr.Jobs.Rows.{Rows, mark_succeeded, mark_failed}
use baru_reso_headless_contr.Jobs.Dispatch.Preparing.{Prepares, Reports}
use baru_reso_headless_contr.Jobs.Executor.{stored, check_user}

abbrev pub Calls : Type 0
Calls = List (String × String × JobCall)

-- A job may act as its creator.
pub record MayAct (b : Backend) (j : AsyncJob) (user : String) : Type 0 where
  pub creator : j.created_by ≡ some user
  pub named : user ≢ ""
  pub exists : check_user b.user_checker user ≡ ok true

-- The checker's answer says that the work was cut short.
pub data CutShort (b : Backend) (j : AsyncJob) : Type 0 where
  cut_short :
      (user : String) (e : Error)
      → j.created_by ≡ some user
      → (e ≡ canceled) ⊎ (e ≡ deadline_exceeded)
      → check_user b.user_checker user ≡ err e
      → CutShort b j

-- Why a job fails, with the error that is kept and the calls that were made for it.
pub data Failure (b : Backend) (j : AsyncJob) : Error → Calls → Type 0 where
  nobody : j.created_by ≡ none → Failure b j (other "job has no created_by") []
  unnamed : j.created_by ≡ some "" → Failure b j (other "job has no created_by") []
  unchecked :
      (user : String) {e : Error}
      → j.created_by ≡ some user
      → check_user b.user_checker user ≡ err e
      → Failure b j e []
  gone :
      (user : String)
      → j.created_by ≡ some user
      → check_user b.user_checker user ≡ ok false
      → Failure b j (other "created_by user does not exist") []
  not_prepared :
      (user : String) {e : Error} → MayAct b j user → Prepares b j (err e) → Failure b j e []
  call_failed :
      (user : String) (c : JobCall) {e : Error}
      → MayAct b j user
      → Prepares b j (ok c)
      → b.operate user c ≡ failing e
      → Failure b j e ((j.id, user, c) ∷ [])
  call_panicked :
      (user : String) (c : JobCall) (m : String)
      → MayAct b j user
      → Prepares b j (ok c)
      → b.operate user c ≡ panicking m
      → Failure b j (other "handler panicked") ((j.id, user, c) ∷ [])
  not_marshalled :
      (user : String) (c : JobCall) (id : String) (result : JobResult) (message : Message)
      {e : Error}
      → MayAct b j user
      → Prepares b j (ok c)
      → b.operate user c ≡ done id
      → Reports c id result message
      → b.json.marshal_result result ≡ err e
      → Failure b j e ((j.id, user, c) ∷ [])

-- Everything that was to be done, was.
pub record Success (b : Backend) (j : AsyncJob) (message : Message) (text : String) (made : Calls)
    : Type 0 where
  pub user : String
  pub may : MayAct b j user
  pub c : JobCall
  pub prepared : Prepares b j (ok c)
  pub id : String
  pub went_well : b.operate user c ≡ done id
  pub result : JobResult
  pub reported : Reports c id result message
  pub marshalled : b.json.marshal_result result ≡ ok text
  pub only_call : made ≡ (j.id, user, c) ∷ []

-- A running row of the job is failed with the error, every other row is as it was.
abbrev pub FailedRow : String → Error → ℕ → AsyncJob → AsyncJob → Type 0
FailedRow id e now a a' = a' ≡ (
    if str_eq a.id id && is_running a.status
    then record a {
      status = JobStatus.failed;
      executed_at = some now;
      last_error = some e;
      claimed_by = none;
      claimed_at = none;
    }
    else a)

-- A running row of the job has succeeded with the result, every other row is as it was.
abbrev pub SucceededRow : String → String → ℕ → AsyncJob → AsyncJob → Type 0
SucceededRow id text now a a' = a' ≡ (
    if str_eq a.id id && is_running a.status
    then record a {
      status = JobStatus.succeeded;
      executed_at = some now;
      result_payload = some (if str_eq text "" then "null" else text);
      last_error = none;
      claimed_by = none;
      claimed_at = none;
    }
    else a)

-- The rows after a settling write that the database may refuse.
pub record RowsSettled (R : AsyncJob → AsyncJob → Type 0) (stores : Bool) (rows rows' : Rows)
    : Type 0 where
  pub taken : stores ≡ true → Each R rows rows'
  pub not_taken : stores ≡ false → rows' ≡ rows

pub mark_failed-RowsSettled :
    (stores : Bool) (id : String) (e : Error) (now : ℕ) (rows : Rows)
    → RowsSettled (FailedRow id e now) stores rows (stored stores (mark_failed id e now) rows)
unfolding mark_failed
mark_failed-RowsSettled true id e now rows = record {
  taken = λ _. change_where-Each (FailedRow id e now) _ _ rows (λ a. refl);
  not_taken = λ h. cc;
}
mark_failed-RowsSettled false id e now rows = record { taken = λ h. cc; not_taken = λ _. refl }

pub mark_succeeded-RowsSettled :
    (stores : Bool) (id text : String) (now : ℕ) (rows : Rows)
    → RowsSettled
        (SucceededRow id text now)
        stores
        rows
        (stored stores (mark_succeeded id text now) rows)
unfolding mark_succeeded
mark_succeeded-RowsSettled true id text now rows = record {
  taken = λ _. change_where-Each (SucceededRow id text now) _ _ rows (λ a. refl);
  not_taken = λ h. cc;
}
mark_succeeded-RowsSettled false id text now rows = record {
  taken = λ h. cc;
  not_taken = λ _. refl;
}
