-- ===== src/Jobs/Executor.antt =====
-- worker/async_job_executor.go. One executor's ticks, as for scheduled operations: a job is decided
-- on what the executor reads, then its call is made, its row settled and its creator told.
-- `stores` says whether the database takes the settling write; a refusal is only logged. The
-- goroutines of a tick touch one row each and are taken one after another; `started` is how many
-- of them start before a shutdown.
pub mod Telling
pub mod Completion
pub mod Endings
use baru_reso_headless_contr.Prelude.{
  ℕ, Bool, true, false, Option, none, some, List, [], ◌∷◌, String, str_eq, if◌then◌else◌, Result,
  ok, err, Error, other, canceled, deadline_exceeded, take,
}
use baru_reso_headless_contr.Notification.{MemoryBus, publish_to}
use baru_reso_headless_contr.Jobs.{
  AsyncJob, JobCall, Attempt, done, failing, panicking, Message, failed_with, Level, success, error,
  Backend,
}
use baru_reso_headless_contr.Jobs.Rows.{Rows, mark_succeeded, mark_failed, claim_due, release_stale}
use baru_reso_headless_contr.Jobs.Dispatch.{prepare, finish}

-- The rows, the notification bus, and the calls of the usecases that were made: the job's id, the
-- acting user and the call, newest first.
pub record World : Type 0 where
  pub jobs : Rows
  pub bus : MemoryBus
  pub calls : List (String × String × JobCall)

abbrev pub stale_after : ℕ
stale_after = 1800

abbrev pub batch_size : ℕ
batch_size = 8

-- Nobody is told of a job without a creator.
publish_to_creator : Option String → String → MemoryBus → MemoryBus
publish_to_creator none text bus = bus
publish_to_creator (some user) text bus =
    if str_eq user "" then bus else publish_to user (some text) bus

pub publish_completion : Backend → AsyncJob → Message → Level → MemoryBus → MemoryBus
unfolding publish_to_creator
publish_completion b j message level bus =
    publish_to_creator j.created_by
      (b.event_text (record { job_id = j.id; level = level; message = message })) bus

abbrev pub stored : Bool → (Rows → Rows) → Rows → Rows
stored stores write rows = if stores then write rows else rows

pub mark_failed_and_tell : Backend → Bool → ℕ → AsyncJob → Error → World → World
mark_failed_and_tell b stores now j e w = record w {
  jobs = stored stores (mark_failed j.id e now) w.jobs;
  bus = publish_completion b j (failed_with e) error w.bus;
}

succeed : Backend → Bool → ℕ → AsyncJob → Message → Result String → World → World
unfolding mark_failed_and_tell
succeed b stores now j message (err e) w = mark_failed_and_tell b stores now j e w
succeed b stores now j message (ok text) w = record w {
  jobs = stored stores (mark_succeeded j.id text now) w.jobs;
  bus = publish_completion b j message success w.bus;
}

after_call : Backend → Bool → ℕ → AsyncJob → JobCall → Attempt → World → World
unfolding succeed
after_call b stores now j c (failing e) w = mark_failed_and_tell b stores now j e w
after_call b stores now j c (panicking m) w =
    mark_failed_and_tell b stores now j (other "handler panicked") w
after_call b stores now j c (done id) w =
    let (result, message) = finish c id in
    succeed b stores now j message (b.json.marshal_result result) w

run_as : Backend → Bool → ℕ → AsyncJob → String → Result JobCall → World → World
unfolding after_call
run_as b stores now j user (err e) w = mark_failed_and_tell b stores now j e w
run_as b stores now j user (ok c) w =
    after_call b stores now j c (b.operate user c) (record w { calls = (j.id, user, c) ∷ w.calls })

-- The answer of the user checker. A cancelled context leaves the claim to the stale sweep.
user_checked : Backend → Bool → ℕ → AsyncJob → String → Result Bool → World → World
unfolding run_as
user_checked b stores now j user (err canceled) w = w
user_checked b stores now j user (err deadline_exceeded) w = w
user_checked b stores now j user (err e) w = mark_failed_and_tell b stores now j e w
user_checked b stores now j user (ok false) w =
    mark_failed_and_tell b stores now j (other "created_by user does not exist") w
user_checked b stores now j user (ok true) w = run_as b stores now j user (prepare b j) w

pub check_user : Option (String → Result Bool) → String → Result Bool
check_user none user = ok true
check_user (some exists) user = exists user

execute_for : Backend → Bool → ℕ → AsyncJob → Option String → World → World
unfolding user_checked
execute_for b stores now j none w =
    mark_failed_and_tell b stores now j (other "job has no created_by") w
execute_for b stores now j (some user) w =
    if str_eq user ""
    then mark_failed_and_tell b stores now j (other "job has no created_by") w
    else user_checked b stores now j user (check_user b.user_checker user) w

pub execute_one : Backend → Bool → ℕ → AsyncJob → World → World
unfolding execute_for check_user
execute_one b stores now j w = execute_for b stores now j j.created_by w

pub execute_all : Backend → Bool → ℕ → Rows → World → World
execute_all b stores now [] w = w
execute_all b stores now (j ∷ js) w = execute_all b stores now js (execute_one b stores now j w)

pub dispatch_once : Backend → String → (String → Bool) → ℕ → Bool → ℕ → World → World
unfolding execute_all
dispatch_once b instance_id locked started stores now w =
    let (js, rows) = claim_due instance_id batch_size now locked w.jobs in
    execute_all b stores now (take started js) (record w { jobs = rows })

-- The sweep at the start of `Run` and of its slow ticker.
pub sweep : ℕ → World → World
sweep now w = record w { jobs = release_stale stale_after now w.jobs }
