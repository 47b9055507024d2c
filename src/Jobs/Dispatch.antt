-- ===== src/Jobs/Dispatch.antt =====
-- usecase/async_job: how a request becomes a job (usecase.go) and a job becomes a call (handler.go).
pub mod Handover
pub mod Preparing
use baru_reso_headless_contr.Prelude.{
  ℕ, Bool, true, false, Option, none, some, List, [], ◌∷◌, String, str_eq, if◌then◌else◌, Result,
  ok, err, other, ◌>>=◌, ◌>>◌, Error,
}
use baru_reso_headless_contr.Prelude.Int32.{ℤ, pos}
use baru_reso_headless_contr.Domain.{
  AutoUpdatePolicy, unspecified, never, users_empty, HeadlessAccount,
}
use baru_reso_headless_contr.Jobs.{
  AsyncJob, JobType, JobCall, JobResult, Message, Json, Backend, StartHeadlessHostRequest,
  ShutdownHeadlessHostRequest, RestartHeadlessHostRequest, WorldParameters, StartWorldRequest,
  StopSessionRequest, headless_host_start, headless_host_shutdown, headless_host_restart,
  host_started, host_stopped, host_restarted, session_started, session_stopped,
}
use baru_reso_headless_contr.Jobs.Rows.{Rows, new_job}

-- The protobuf getter of an optional string.
abbrev pub get_string : Option String → String
get_string none = ""
get_string (some s) = s

abbrev pub get_or : Option ℤ → ℤ → ℤ
get_or none default = default
get_or (some n) default = n

abbrev policy_of : Option AutoUpdatePolicy → AutoUpdatePolicy
policy_of none = unspecified
policy_of (some p) = p

abbrev pub default_restart_timeout_seconds : ℤ
default_restart_timeout_seconds = pos 600

-- `startHost` after its account is read.
host_start_call : StartHeadlessHostRequest → Option String → HeadlessAccount → JobCall
host_start_call req creator account =
    headless_host_start
      (record {
        name = req.name;
        container_image_tag = get_string req.image_tag;
        headless_account = account;
        startup_config = req.startup_config;
        auto_update_policy = policy_of req.auto_update_policy;
        memo = get_string req.memo;
        group_id =
            let requested = get_string req.group_id in
            if str_eq requested "" then account.group_id else requested;
      })
      creator

pub start_host : Backend → StartHeadlessHostRequest → Option String → Result JobCall
unfolding host_start_call
start_host b req creator = do
  account ← b.account req.headless_account_id
  ok (host_start_call req creator account)

new_tag : RestartHeadlessHostRequest → Option String
new_tag req =
    if req.with_update
    then some "latestRelease"
    else if str_eq (get_string req.with_image_tag) ""
    then none
    else some (get_string req.with_image_tag)

pub restart_host : RestartHeadlessHostRequest → JobCall
unfolding new_tag
restart_host req =
    headless_host_restart req.host_id (new_tag req) req.with_world_restart
      (get_or req.timeout_seconds default_restart_timeout_seconds)

pub start_session : StartWorldRequest → Option String → JobCall
start_session req creator =
    JobCall.start_session req.host_id (get_string req.group_id) creator req.parameters
      (if str_eq req.memo "" then none else some req.memo)

-- `Dispatch` up to the call.
prepare_as : Backend → Option String → String → JobType → Result JobCall
unfolding start_host
prepare_as b creator payload JobType.start_host = do
  req ← b.json.unmarshal_start_host payload
  start_host b req creator
prepare_as b creator payload JobType.shutdown_host = do
  req ← b.json.unmarshal_shutdown_host payload
  ok (headless_host_shutdown req.host_id)
prepare_as b creator payload JobType.restart_host = do
  req ← b.json.unmarshal_restart_host payload
  ok (restart_host req)
prepare_as b creator payload JobType.start_session = do
  req ← b.json.unmarshal_start_world payload
  ok (start_session req creator)
prepare_as b creator payload JobType.stop_session = do
  req ← b.json.unmarshal_stop_session payload
  ok (JobCall.stop_session req.session_id)
prepare_as b creator payload JobType.unknown = err (other "unknown job type")
prepare_as b creator payload (JobType.unsupported n) = err (other "unsupported job type")

pub prepare : Backend → AsyncJob → Result JobCall
unfolding prepare_as
prepare b j = prepare_as b j.created_by j.payload j.job_type

abbrev world_name : Option WorldParameters → String
world_name none = ""
world_name (some p) = get_string p.name

abbrev name_or_id : String → String → String
name_or_id name id = if str_eq name "" then id else name

-- `Dispatch` after a call that went well.
pub finish : JobCall → String → JobResult × Message
finish (headless_host_start params creator) id =
    (record { host_id = id; session_id = "" }, host_started params.name)
finish (headless_host_shutdown host) id =
    (record { host_id = host; session_id = "" }, host_stopped host)
finish (headless_host_restart host tag worlds timeout) id =
    (record { host_id = host; session_id = "" }, host_restarted host)
finish (JobCall.start_session host group creator params memo) id = (
  record { host_id = host; session_id = id },
  session_started (name_or_id (world_name params) id),
)
finish (JobCall.stop_session session) id =
    (record { host_id = ""; session_id = session }, session_stopped session)

-- What a handler can enqueue.
pub data Request : Type 0 where
  start_host_request : StartHeadlessHostRequest → Request
  shutdown_host_request : ShutdownHeadlessHostRequest → Request
  restart_host_request : RestartHeadlessHostRequest → Request
  start_session_request : StartWorldRequest → Request
  stop_session_request : StopSessionRequest → Request

pub marshal_payload : Json → Request → Result String
marshal_payload json (start_host_request r) = json.marshal_start_host r
marshal_payload json (shutdown_host_request r) = json.marshal_shutdown_host r
marshal_payload json (restart_host_request r) = json.marshal_restart_host r
marshal_payload json (start_session_request r) = json.marshal_start_world r
marshal_payload json (stop_session_request r) = json.marshal_stop_session r

-- The job of each `Enqueue…`, with the id and the time that the database gives it.
pub job_for : Request → String → ℕ → String → Option String → AsyncJob
job_for (start_host_request r) id now payload creator =
    new_job id now JobType.start_host payload none none creator
job_for (shutdown_host_request r) id now payload creator =
    new_job id now JobType.shutdown_host payload (some r.host_id) none creator
job_for (restart_host_request r) id now payload creator =
    new_job id now JobType.restart_host payload (some r.host_id) none creator
job_for (start_session_request r) id now payload creator =
    new_job id now JobType.start_session payload (some r.host_id) none creator
job_for (stop_session_request r) id now payload creator =
    new_job id now JobType.stop_session payload none (some r.session_id) creator

insert_job : Bool → AsyncJob → Rows → Result String × Rows
insert_job true j rows = (ok j.id, j ∷ rows)
insert_job false j rows = (err Error.db_error, rows)

enqueue_payload :
    Request → Bool → String → ℕ → Option String → Result String → Rows → Result String × Rows
unfolding insert_job job_for
enqueue_payload req stores id now creator (err e) rows = (err e, rows)
enqueue_payload req stores id now creator (ok payload) rows =
    insert_job stores (job_for req id now payload creator) rows

-- `stores` says whether the database takes the row.
pub enqueue : Json → Request → Bool → String → ℕ → Option String → Rows → Result String × Rows
unfolding enqueue_payload marshal_payload
enqueue json req stores id now creator rows =
    enqueue_payload req stores id now creator (marshal_payload json req) rows
