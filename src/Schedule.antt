-- ===== src/Schedule.antt =====
-- domain/entity/scheduled_session_operation.go, usecase/scheduled_op/trigger.go and action.go with
-- their triggers/*.go and actions/*.go: what a scheduled operation is, when it is due and what it
-- calls. The JSON decoders are arguments. Instants and durations are in nanoseconds.
pub mod Fixtures
pub mod Rows
pub mod Executor
pub mod Cancellation
use baru_reso_headless_contr.Prelude.{
  ℕ, ◌+◌, ◌*◌, Bool, true, false, not, Option, none, some, List, [], ◌∷◌, String, str_eq, ltb,
  if◌then◌else◌, Result, ok, err, Error, other, ◌>>=◌, ◌>>◌, guard, is_some, ◌||◌, ◌==◌,
}
use baru_reso_headless_contr.Prelude.Int32.{ℤ, pos, le_int}
use baru_reso_headless_contr.Domain.{SessionStatus, ended}

abbrev pub second : ℕ
second = 1000000000

pub data OperationType : Type 0 where
  unknown start_session stop_session update_parameters update_extra_settings : OperationType

pub data TriggerType : Type 0 where
  unknown time session_user_count : TriggerType

pub data OperationStatus : Type 0 where
  pending running succeeded failed canceled : OperationStatus

pub record Operation : Type 0 where
  pub id : String
  pub operation_type : OperationType
  pub operation_payload : String
  pub trigger_type : TriggerType
  pub trigger_config : String
  pub next_fire_at : ℕ
  pub host_id : Option String
  pub session_id : Option String
  pub status : OperationStatus
  pub last_error : Option Error
  pub claimed_by : Option String
  pub claimed_at : Option ℕ
  pub executed_at : Option ℕ
  pub created_by : Option String

pub data Comparator : Type 0 where
  less_or_equal greater_or_equal : Comparator
  other_comparator : ℕ → Comparator

pub record TimeTrigger : Type 0 where
  pub scheduled_at : ℕ

pub record SessionUserCountTrigger : Type 0 where
  pub session_id : String
  pub comparator : Comparator
  pub threshold : ℤ

pub data Trigger : Type 0 where
  at_time : TimeTrigger → Trigger
  user_count : SessionUserCountTrigger → Trigger

pub record StartSessionAction : Type 0 where
  pub host_id : String
  pub group_id : String
  pub user_id : Option String
  pub memo : Option String
  pub startup_params_json : String

pub record StopSessionAction : Type 0 where
  pub session_id : String

pub record UpdateExtraSettingsAction : Type 0 where
  pub session_id : String
  pub auto_upgrade : Option Bool
  pub memo : Option String

pub record UpdateParametersAction : Type 0 where
  pub session_id : String
  pub params_json : String

pub data Action : Type 0 where
  start : StartSessionAction → Action
  stop : StopSessionAction → Action
  update_params : UpdateParametersAction → Action
  update_extra : UpdateExtraSettingsAction → Action

-- The calls of `SessionOperator`; a protobuf message is kept as a text.
pub data SessionCall : Type 0 where
  start_session : String → String → Option String → String → Option String → SessionCall
  stop_session : String → SessionCall
  update_session_parameters : String → String → SessionCall
  update_session_extra_settings : String → Option Bool → Option String → SessionCall

-- encoding/json and protojson.
pub record Json : Type 0 where
  pub time_trigger : String → Result TimeTrigger
  pub user_count_trigger : String → Result SessionUserCountTrigger
  pub start_action : String → Result StartSessionAction
  pub stop_action : String → Result StopSessionAction
  pub params_action : String → Result UpdateParametersAction
  pub extra_action : String → Result UpdateExtraSettingsAction
  pub world_startup_parameters : String → Result String
  pub update_session_parameters_request : String → Result String

-- What the executor reads, and the session usecase it calls as a user.
pub record Deps : Type 0 where
  pub json : Json
  pub user_checker : Option (String → Result Bool)
  pub session_status : String → Result SessionStatus
  pub users_count : String → Option ℤ
  pub operate : String → SessionCall → Result (Unit {0})

abbrev is_known : Comparator → Bool
is_known less_or_equal = true
is_known greater_or_equal = true
is_known (other_comparator n) = false

decode_time_trigger : Json → String → Result Trigger
decode_time_trigger json cfg = do
  t ← json.time_trigger cfg
  guard (not (t.scheduled_at == 0)) (other "time trigger: scheduled_at is required")
  ok (at_time t)

decode_session_user_count_trigger : Json → String → Result Trigger
decode_session_user_count_trigger json cfg = do
  t ← json.user_count_trigger cfg
  guard (not (str_eq t.session_id "")) (other "session_user_count trigger: session_id is required")
  guard (is_known t.comparator) (other "session_user_count trigger: invalid comparator")
  guard (le_int (pos 0) t.threshold) (other "session_user_count trigger: threshold must be >= 0")
  ok (user_count t)

pub decode_trigger : Json → TriggerType → String → Result Trigger
unfolding decode_time_trigger decode_session_user_count_trigger
decode_trigger json unknown cfg = err (other "unknown trigger type")
decode_trigger json time cfg = decode_time_trigger json cfg
decode_trigger json session_user_count cfg = decode_session_user_count_trigger json cfg

abbrev pub miss_backoff : ℕ
miss_backoff = 60 * second

-- After a miss of the cache: only a session known to have ended fails.
miss : ℕ → Result SessionStatus → Result (Bool × ℕ)
miss now (ok ended) = err (other "session has ended; trigger will never fire")
miss now _ = ok (false, now + miss_backoff)

compare_count : Comparator → ℤ → ℤ → Result (Bool × ℕ)
compare_count less_or_equal threshold count = ok (le_int count threshold, 0)
compare_count greater_or_equal threshold count = ok (le_int threshold count, 0)
compare_count (other_comparator n) threshold count =
    err (other "session_user_count trigger: invalid comparator")

evaluate_count : Deps → ℕ → SessionUserCountTrigger → Option ℤ → Result (Bool × ℕ)
unfolding miss compare_count
evaluate_count deps now t none = miss now (deps.session_status t.session_id)
evaluate_count deps now t (some count) = compare_count t.comparator t.threshold count

-- Ready or not, and when to look again, 0 being Go's zero time.
pub evaluate : Deps → ℕ → Trigger → Result (Bool × ℕ)
unfolding evaluate_count
evaluate deps now (at_time t) =
    if ltb now t.scheduled_at then ok (false, t.scheduled_at) else ok (true, 0)
evaluate deps now (user_count t) = evaluate_count deps now t (deps.users_count t.session_id)

decode_start_session : Json → String → Result Action
decode_start_session json payload = do
  a ← json.start_action payload
  guard (not (str_eq a.host_id "")) (other "start session action: host_id is required")
  ok (start a)

decode_stop_session : Json → String → Result Action
decode_stop_session json payload = do
  a ← json.stop_action payload
  guard (not (str_eq a.session_id "")) (other "stop session action: session_id is required")
  ok (stop a)

decode_update_parameters : Json → String → Result Action
decode_update_parameters json payload = do
  a ← json.params_action payload
  guard (not (str_eq a.session_id "")) (other "update parameters action: session_id is required")
  ok (update_params a)

decode_update_extra : Json → String → Result Action
decode_update_extra json payload = do
  a ← json.extra_action payload
  guard (not (str_eq a.session_id ""))
      (other "update extra settings action: session_id is required")
  guard (is_some a.auto_upgrade || is_some a.memo)
      (other "update extra settings action: at least one field is required")
  ok (update_extra a)

pub decode_action : Json → OperationType → String → Result Action
unfolding decode_start_session decode_stop_session decode_update_parameters decode_update_extra
decode_action json unknown payload = err (other "unknown action type")
decode_action json start_session payload = decode_start_session json payload
decode_action json stop_session payload = decode_stop_session json payload
decode_action json update_parameters payload = decode_update_parameters json payload
decode_action json update_extra_settings payload = decode_update_extra json payload

-- The startup parameters are decoded only if they are there.
startup_params : Json → String → Result String
startup_params json text = if str_eq text "" then ok "" else json.world_startup_parameters text

-- What `Execute` asks the session usecase for, or an error before it asks.
pub request : Json → Action → Result SessionCall
unfolding startup_params
request json (start a) = do
  params ← startup_params json a.startup_params_json
  ok (SessionCall.start_session a.host_id a.group_id a.user_id params a.memo)
request json (stop a) = ok (SessionCall.stop_session a.session_id)
request json (update_params a) = do
  req ← json.update_session_parameters_request a.params_json
  ok (update_session_parameters a.session_id req)
request json (update_extra a) =
    ok (update_session_extra_settings a.session_id a.auto_upgrade a.memo)
