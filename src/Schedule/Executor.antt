-- ===== src/Schedule/Executor.antt =====
-- worker/scheduled_operation_executor.go. One executor's ticks: an operation is decided on what the
-- executor reads, then its row is settled. `stores` says whether the database takes a settling
-- write; the executor only logs a refusal. The goroutines of a tick touch one row each and are
-- taken one after another; `started` is how many of them start before a shutdown.
pub mod Authority
mod Examples
use baru_reso_headless_contr.Prelude.{
  ℕ, ◌+◌, ◌*◌, ◌==◌, Bool, true, false, Option, none, some, List, [], ◌∷◌, String, str_eq,
  if◌then◌else◌, Result, ok, err, Error, other, canceled, deadline_exceeded, take,
}
use baru_reso_headless_contr.Schedule.{
  Operation, OperationStatus, Deps, Trigger, Action, SessionCall, decode_trigger, evaluate,
  decode_action, request, second,
}
use baru_reso_headless_contr.Schedule.Rows.{
  Rows, mark_succeeded, mark_failed, requeue, claim_due, release_stale,
}

-- What to do with a claimed operation.
pub data Verdict : Type 0 where
  leave : Verdict
  fail_with : Error → Verdict
  requeue_at : ℕ → Verdict
  run_as : String → Action → Verdict

-- The rows, and the calls of the session usecase that were made for them: the operation's id, the
-- acting user and the call, newest first.
pub record World : Type 0 where
  pub rows : Rows
  pub calls : List (String × String × SessionCall)

abbrev pub tick_interval : ℕ
tick_interval = 10 * second

abbrev pub stale_after : ℕ
stale_after = 600

abbrev pub batch_size : ℕ
batch_size = 16

acting : Deps → String → Operation → Result Action → Verdict
acting deps user o (err e) = fail_with e
acting deps user o (ok a) = run_as user a

evaluated : Deps → ℕ → String → Operation → Result (Bool × ℕ) → Verdict
unfolding acting
evaluated deps now user o (err e) = fail_with e
evaluated deps now user o (ok (true, next)) =
    acting deps user o (decode_action deps.json o.operation_type o.operation_payload)
evaluated deps now user o (ok (false, next)) =
    requeue_at (if next == 0 then now + tick_interval else next)

triggered : Deps → ℕ → String → Operation → Result Trigger → Verdict
unfolding evaluated
triggered deps now user o (err e) = fail_with e
triggered deps now user o (ok t) = evaluated deps now user o (evaluate deps now t)

-- The answer of the user checker. A cancelled context leaves the claim to the stale sweep.
user_checked : Deps → ℕ → String → Operation → Result Bool → Verdict
unfolding triggered
user_checked deps now user o (err canceled) = leave
user_checked deps now user o (err deadline_exceeded) = leave
user_checked deps now user o (err e) = fail_with e
user_checked deps now user o (ok false) = fail_with (other "created_by user does not exist")
user_checked deps now user o (ok true) =
    triggered deps now user o (decode_trigger deps.json o.trigger_type o.trigger_config)

pub check_user : Option (String → Result Bool) → String → Result Bool
check_user none user = ok true
check_user (some exists) user = exists user

decide_for : Deps → ℕ → Operation → Option String → Verdict
unfolding user_checked check_user
decide_for deps now o none = fail_with (other "scheduled operation has no created_by")
decide_for deps now o (some user) =
    if str_eq user ""
    then fail_with (other "scheduled operation has no created_by")
    else user_checked deps now user o (check_user deps.user_checker user)

-- `executeOne` up to the first write or call.
pub decide : Deps → ℕ → Operation → Verdict
unfolding decide_for
decide deps now o = decide_for deps now o o.created_by

store : Bool → (Rows → Rows) → World → World
store true write w = record w { rows = write w.rows }
store false write w = w

after_call : Bool → ℕ → String → Result (Unit {0}) → World → World
unfolding store
after_call stores now id (ok _) w = store stores (mark_succeeded id now) w
after_call stores now id (err e) w = store stores (mark_failed id e now) w

perform : Deps → Bool → ℕ → String → String → Result SessionCall → World → World
unfolding after_call
perform deps stores now id user (err e) w = store stores (mark_failed id e now) w
perform deps stores now id user (ok c) w =
    after_call stores now id (deps.operate user c) (record w { calls = (id, user, c) ∷ w.calls })

settle : Deps → Bool → ℕ → String → Verdict → World → World
unfolding perform
settle deps stores now id leave w = w
settle deps stores now id (fail_with e) w = store stores (mark_failed id e now) w
settle deps stores now id (requeue_at at) w = store stores (requeue id at) w
settle deps stores now id (run_as user a) w =
    perform deps stores now id user (request deps.json a) w

pub execute_one : Deps → Bool → ℕ → Operation → World → World
unfolding decide settle
execute_one deps stores now o w = settle deps stores now o.id (decide deps now o) w

pub execute_all : Deps → Bool → ℕ → Rows → World → World
execute_all deps stores now [] w = w
execute_all deps stores now (o ∷ ops) w =
    execute_all deps stores now ops (execute_one deps stores now o w)

pub dispatch_once : Deps → String → (String → Bool) → ℕ → Bool → ℕ → World → World
unfolding execute_all
dispatch_once deps instance_id locked started stores now w =
    let (ops, rows) = claim_due instance_id batch_size now locked w.rows in
    execute_all deps stores now (take started ops) (record w { rows = rows })

-- The sweep at the start of `Run` and of its slow ticker.
pub sweep : ℕ → World → World
sweep now w = record w { rows = release_stale stale_after now w.rows }
