-- ===== src/Domain.antt =====
-- The entities of domain/entity/*.go that the components share, and usecase/port's container image.
-- An instant is a natural number, Go's zero time being 0. An opaque protobuf message is kept as its
-- serialized text; the `startup_parameters` of a session are a JSON object, so a map from field
-- names to JSON values.
use baru_reso_headless_contr.Prelude.{ℕ, Bool, Option, String, Map}
use baru_reso_headless_contr.Prelude.Int32.{ℤ}

pub data HostStatus : Type 0 where
  unknown starting running stopping exited crashed : HostStatus

pub data AutoUpdatePolicy : Type 0 where
  unspecified never users_empty : AutoUpdatePolicy

pub record HeadlessHost : Type 0 where
  pub id : String
  pub name : String
  pub status : HostStatus
  pub resonite_version : String
  pub app_version : String
  pub account_id : String
  pub auto_update_policy : AutoUpdatePolicy
  pub memo : String
  pub group_id : String

pub record HeadlessAccount : Type 0 where
  pub resonite_id : String
  pub credential : String
  pub password : String
  pub group_id : String

pub record ContainerImage : Type 0 where
  pub tag : String
  pub app_version : String
  pub resonite_version : String
  pub is_pre_release : Bool

pub data SessionStatus : Type 0 where
  unknown starting running ended crashed : SessionStatus

pub record Session : Type 0 where
  pub id : String
  pub name : String
  pub status : SessionStatus
  pub started_at : Option ℕ
  pub created_by : Option String
  pub ended_at : Option ℕ
  pub host_id : String
  pub startup_parameters : Map String
  pub auto_upgrade : Bool
  pub memo : String
  pub group_id : String

-- headlessv1.Session, the snapshot of a live session: `overlap` are the fields that it shares with
-- the startup parameters, as the JSON object that the database merges.
pub record LiveSession : Type 0 where
  pub name : String
  pub users_count : ℤ
  pub world_url : String
  pub overlap : Map String
