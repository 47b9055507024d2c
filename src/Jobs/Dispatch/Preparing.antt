-- ===== src/Jobs/Dispatch/Preparing.antt =====
-- usecase/async_job/handler.go: which call a row of the queue stands for, and what is reported of it.
use baru_reso_headless_contr.Prelude.{
  ◌≡◌, ◌⊎◌, refl, ◌∙◌, ap, subst, ◌≢◌, if◌then◌else◌, Bool-cases, str_eq, str_eq→eq, eq_iff, arith,
  none, some, Option, String, Result, ok, err, Error, other, Result-cases, inl, inr,
}
use baru_reso_headless_contr.Jobs.{
  AsyncJob, JobType, JobCall, Backend, StartHeadlessHostRequest, ShutdownHeadlessHostRequest,
  RestartHeadlessHostRequest, StartWorldRequest, StopSessionRequest, headless_host_shutdown,
  headless_host_start, headless_host_restart, WorldParameters, JobResult, Message, host_started,
  host_stopped, host_restarted, session_started, session_stopped,
}
use baru_reso_headless_contr.Jobs.Dispatch.{
  Request, start_host_request, shutdown_host_request, restart_host_request, start_session_request,
  stop_session_request, prepare, prepare_as, finish, get_string,
}
use baru_reso_headless_contr.Jobs.Dispatch.Handover.{
  asked, start_host-asked, restart_host-asked, start_session-asked,
}

-- What protojson reads from a payload, by the type of the job.
abbrev pub Reads : Backend → JobType → String → Result Request → Type 0
Reads b JobType.start_host payload r =
    ((x : StartHeadlessHostRequest) × (b.json.unmarshal_start_host payload ≡ ok x)
      × (r ≡ ok (start_host_request x)))
    ⊎ ((e : Error) × (b.json.unmarshal_start_host payload ≡ err e) × (r ≡ err e))
Reads b JobType.shutdown_host payload r =
    ((x : ShutdownHeadlessHostRequest) × (b.json.unmarshal_shutdown_host payload ≡ ok x)
      × (r ≡ ok (shutdown_host_request x)))
    ⊎ ((e : Error) × (b.json.unmarshal_shutdown_host payload ≡ err e) × (r ≡ err e))
Reads b JobType.restart_host payload r =
    ((x : RestartHeadlessHostRequest) × (b.json.unmarshal_restart_host payload ≡ ok x)
      × (r ≡ ok (restart_host_request x)))
    ⊎ ((e : Error) × (b.json.unmarshal_restart_host payload ≡ err e) × (r ≡ err e))
Reads b JobType.start_session payload r =
    ((x : StartWorldRequest) × (b.json.unmarshal_start_world payload ≡ ok x)
      × (r ≡ ok (start_session_request x)))
    ⊎ ((e : Error) × (b.json.unmarshal_start_world payload ≡ err e) × (r ≡ err e))
Reads b JobType.stop_session payload r =
    ((x : StopSessionRequest) × (b.json.unmarshal_stop_session payload ≡ ok x)
      × (r ≡ ok (stop_session_request x)))
    ⊎ ((e : Error) × (b.json.unmarshal_stop_session payload ≡ err e) × (r ≡ err e))
Reads b JobType.unknown payload r = r ≡ err (other "unknown job type")
Reads b (JobType.unsupported n) payload r = r ≡ err (other "unsupported job type")

-- The job stands for what its payload asks for, or for the error of reading it.
pub data Prepares (b : Backend) (j : AsyncJob) (r : Result JobCall) : Type 0 where
  readable :
      (req : Request)
      → Reads b j.job_type j.payload (ok req)
      → r ≡ asked b req j.created_by
      → Prepares b j r
  unreadable : (e : Error) → Reads b j.job_type j.payload (err e) → r ≡ err e → Prepares b j r

prepare_as-Reads :
    (b : Backend) (creator : Option String) (payload : String) (t : JobType)
    → ((req : Request) × Reads b t payload (ok req)
        × (prepare_as b creator payload t ≡ asked b req creator))
      ⊎ ((e : Error) × Reads b t payload (err e) × (prepare_as b creator payload t ≡ err e))
unfolding prepare_as
prepare_as-Reads b creator payload JobType.start_host =
    elim (Result-cases (b.json.unmarshal_start_host payload)) [
      | inl (x, read) ↦
          inl (start_host_request x, inl (x, read, refl), rw read (start_host-asked b x creator))
      | inr (e, failing) ↦ inr (e, inr (e, failing, refl), rw failing refl)
    ]
prepare_as-Reads b creator payload JobType.shutdown_host =
    elim (Result-cases (b.json.unmarshal_shutdown_host payload)) [
      | inl (x, read) ↦ inl (shutdown_host_request x, inl (x, read, refl), rw read refl)
      | inr (e, failing) ↦ inr (e, inr (e, failing, refl), rw failing refl)
    ]
prepare_as-Reads b creator payload JobType.restart_host =
    elim (Result-cases (b.json.unmarshal_restart_host payload)) [
      | inl (x, read) ↦
          inl
            (restart_host_request x, inl (x, read, refl), rw read (restart_host-asked b x creator))
      | inr (e, failing) ↦ inr (e, inr (e, failing, refl), rw failing refl)
    ]
prepare_as-Reads b creator payload JobType.start_session =
    elim (Result-cases (b.json.unmarshal_start_world payload)) [
      | inl (x, read) ↦
          inl (
            start_session_request x,
            inl (x, read, refl),
            rw read (start_session-asked b x creator),
          )
      | inr (e, failing) ↦ inr (e, inr (e, failing, refl), rw failing refl)
    ]
prepare_as-Reads b creator payload JobType.stop_session =
    elim (Result-cases (b.json.unmarshal_stop_session payload)) [
      | inl (x, read) ↦ inl (stop_session_request x, inl (x, read, refl), rw read refl)
      | inr (e, failing) ↦ inr (e, inr (e, failing, refl), rw failing refl)
    ]
prepare_as-Reads b creator payload JobType.unknown = inr (other "unknown job type", refl, refl)
prepare_as-Reads b creator payload (JobType.unsupported n) =
    inr (other "unsupported job type", refl, refl)

pub prepare-Prepares : (b : Backend) (j : AsyncJob) → Prepares b j (prepare b j)
unfolding prepare
prepare-Prepares b j = elim (prepare_as-Reads b j.created_by j.payload j.job_type) [
  | inl (req, reads, same) ↦ readable req reads same
  | inr (e, reads, same) ↦ unreadable e reads same
]

pub prepare-Prepares-of :
    (b : Backend) (j : AsyncJob) (r : Result JobCall) → prepare b j ≡ r → Prepares b j r
prepare-Prepares-of b j r same = subst (Prepares b j) same (prepare-Prepares b j)

-- A session is told by its name, or by its id if it was given none.
pub data NameTold (params : Option WorldParameters) (id told : String) : Type 0 where
  by_name :
      (x : WorldParameters) (name : String)
      → params ≡ some x
      → x.name ≡ some name
      → name ≢ ""
      → told ≡ name
      → NameTold params id told
  without_parameters : params ≡ none → told ≡ id → NameTold params id told
  without_name :
      (x : WorldParameters)
      → params ≡ some x
      → (x.name ≡ none) ⊎ (x.name ≡ some "")
      → told ≡ id
      → NameTold params id told

-- What the row and the creator are told of a call that went well with an id: a start of a host
-- made that id, a start of a session made the session of that id, every other names its target.
abbrev pub Reports : JobCall → String → JobResult → Message → Type 0
Reports (headless_host_start params creator) id r m =
    (r.host_id ≡ id) × (r.session_id ≡ "") × (m ≡ host_started params.name)
Reports (headless_host_shutdown host) id r m =
    (r.host_id ≡ host) × (r.session_id ≡ "") × (m ≡ host_stopped host)
Reports (headless_host_restart host tag worlds timeout) id r m =
    (r.host_id ≡ host) × (r.session_id ≡ "") × (m ≡ host_restarted host)
Reports (JobCall.start_session host group creator params memo) id r m =
    (r.host_id ≡ host)
    × (r.session_id ≡ id)
    × ((told : String) × NameTold params id told × (m ≡ session_started told))
Reports (JobCall.stop_session session) id r m =
    (r.host_id ≡ "") × (r.session_id ≡ session) × (m ≡ session_stopped session)

named_session :
    (x : WorldParameters) (id : String) (n : Option String)
    → x.name ≡ n
    → (told : String) × NameTold (some x) id told
      × (session_started (let name = get_string n in if str_eq name "" then id else name)
          ≡ session_started told)
named_session x id none h = (id, without_name x refl (inl h) refl, refl)
named_session x id (some name) h = elim (Bool-cases (str_eq name "")) [
  | inl empty ↦
      (id, without_name x refl (inr (h ∙ ap some (str_eq→eq name "" empty))) refl, rw empty refl)
  | inr filled ↦ (
    name,
    by_name x name refl h (λ e. ground (arith, filled, eq_iff name "")) refl,
    rw filled refl,
  )
]

pub finish-Reports : (c : JobCall) (id : String) → Reports c id (finish c id).0 (finish c id).1
unfolding finish
finish-Reports (headless_host_start params creator) id = (refl, refl, refl)
finish-Reports (headless_host_shutdown host) id = (refl, refl, refl)
finish-Reports (headless_host_restart host tag worlds timeout) id = (refl, refl, refl)
finish-Reports (JobCall.start_session host group creator none memo) id =
    (refl, refl, (id, without_parameters refl refl, refl))
finish-Reports (JobCall.start_session host group creator (some x) memo) id =
    (refl, refl, named_session x id x.name refl)
finish-Reports (JobCall.stop_session session) id = (refl, refl, refl)
