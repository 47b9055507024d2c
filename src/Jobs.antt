-- ===== src/Jobs.antt =====
-- domain/entity/async_job.go and the requests that usecase/async_job keeps as payloads. The JSON of
-- protojson is an argument; a protobuf message that the jobs only pass on is kept as a text.
pub mod Rows
pub mod Dispatch
pub mod Executor
mod Examples
use baru_reso_headless_contr.Prelude.{ℕ, Bool, Option, String, Result, Error}
use baru_reso_headless_contr.Prelude.Int32.{ℤ}
use baru_reso_headless_contr.Domain.{AutoUpdatePolicy, HeadlessAccount}

pub data JobType : Type 0 where
  unknown start_host shutdown_host restart_host start_session stop_session : JobType
  unsupported : ℕ → JobType

pub data JobStatus : Type 0 where
  pending running succeeded failed : JobStatus

pub record AsyncJob : Type 0 where
  pub id : String
  pub job_type : JobType
  pub payload : String
  pub status : JobStatus
  pub result_payload : Option String
  pub last_error : Option Error
  pub claimed_by : Option String
  pub claimed_at : Option ℕ
  pub executed_at : Option ℕ
  pub host_id : Option String
  pub session_id : Option String
  pub created_by : Option String
  pub created_at : ℕ

pub record StartHeadlessHostRequest : Type 0 where
  pub name : String
  pub headless_account_id : String
  pub image_tag : Option String
  pub startup_config : Option String
  pub auto_update_policy : Option AutoUpdatePolicy
  pub memo : Option String
  pub group_id : Option String

pub record ShutdownHeadlessHostRequest : Type 0 where
  pub host_id : String

pub record RestartHeadlessHostRequest : Type 0 where
  pub host_id : String
  pub with_update : Bool
  pub with_image_tag : Option String
  pub with_world_restart : Bool
  pub timeout_seconds : Option ℤ

-- The parameters of a world: its name, and the whole message.
pub record WorldParameters : Type 0 where
  pub name : Option String
  pub message : String

pub record StartWorldRequest : Type 0 where
  pub host_id : String
  pub parameters : Option WorldParameters
  pub memo : String
  pub group_id : Option String

pub record StopSessionRequest : Type 0 where
  pub host_id : String
  pub session_id : String

-- `port.HeadlessHostStartParams`
pub record HostStartParams : Type 0 where
  pub name : String
  pub container_image_tag : String
  pub headless_account : HeadlessAccount
  pub startup_config : Option String
  pub auto_update_policy : AutoUpdatePolicy
  pub memo : String
  pub group_id : String

-- The calls of `HostOperator` and `SessionOperator`.
pub data JobCall : Type 0 where
  headless_host_start : HostStartParams → Option String → JobCall
  headless_host_shutdown : String → JobCall
  headless_host_restart : String → Option String → Bool → ℤ → JobCall
  start_session : String → String → Option String → Option WorldParameters → Option String → JobCall
  stop_session : String → JobCall

-- What a call gives: the id of the new host or session where there is one, an error or a panic.
pub data Attempt : Type 0 where
  done : String → Attempt
  failing : Error → Attempt
  panicking : String → Attempt

pub record JobResult : Type 0 where
  pub host_id : String
  pub session_id : String

-- What the message of a completion says; its wording is left out.
pub data Message : Type 0 where
  host_started host_stopped host_restarted : String → Message
  session_started session_stopped : String → Message
  failed_with : Error → Message

pub data Level : Type 0 where
  success error : Level

pub record JobCompletedEvent : Type 0 where
  pub job_id : String
  pub level : Level
  pub message : Message

-- protojson and encoding/json.
pub record Json : Type 0 where
  pub marshal_start_host : StartHeadlessHostRequest → Result String
  pub marshal_shutdown_host : ShutdownHeadlessHostRequest → Result String
  pub marshal_restart_host : RestartHeadlessHostRequest → Result String
  pub marshal_start_world : StartWorldRequest → Result String
  pub marshal_stop_session : StopSessionRequest → Result String
  pub unmarshal_start_host : String → Result StartHeadlessHostRequest
  pub unmarshal_shutdown_host : String → Result ShutdownHeadlessHostRequest
  pub unmarshal_restart_host : String → Result RestartHeadlessHostRequest
  pub unmarshal_start_world : String → Result StartWorldRequest
  pub unmarshal_stop_session : String → Result StopSessionRequest
  pub marshal_result : JobResult → Result String

-- What the worker reads, and the usecases that it calls as a user.
pub record Backend : Type 0 where
  pub json : Json
  pub account : String → Result HeadlessAccount
  pub user_checker : Option (String → Result Bool)
  pub operate : String → JobCall → Attempt
  pub event_text : JobCompletedEvent → String
