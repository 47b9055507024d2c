-- ===== src/Jobs/Dispatch/Handover.antt =====
-- usecase/async_job: the worker makes the call that the enqueued request asks for.
use baru_reso_headless_contr.Prelude.{none, some, str_eq, if◌then◌else◌, Result-cases, inl, inr}
use baru_reso_headless_contr.Prelude.Int32.{ℤ, pos}
use baru_reso_headless_contr.Domain.{AutoUpdatePolicy, unspecified, HeadlessAccount}
use baru_reso_headless_contr.Jobs.{headless_host_start, headless_host_restart}
use baru_reso_headless_contr.Jobs.Dispatch.{
  get_string, get_or, policy_of, new_tag, host_start_call, default_restart_timeout_seconds,
}
use baru_reso_headless_contr.Prelude.{
  ℕ, ◌≡◌, refl, Bool, true, false, Option, ◌∷◌, String, Result, ok, err,
}
use baru_reso_headless_contr.Prelude.{ap, Error}
use baru_reso_headless_contr.Prelude.Outcome.{Outcome, refused, done}
use baru_reso_headless_contr.Jobs.{
  StopSessionRequest, StartWorldRequest, RestartHeadlessHostRequest, ShutdownHeadlessHostRequest,
  AsyncJob, JobStatus, JobCall, Json, Backend, StartHeadlessHostRequest, headless_host_shutdown,
}
use baru_reso_headless_contr.Jobs.Rows.{Rows, claimed, new_job}
use baru_reso_headless_contr.Jobs.Dispatch.{
  Request, start_host_request, shutdown_host_request, restart_host_request, start_session_request,
  stop_session_request, marshal_payload, enqueue, enqueue_payload, insert_job, job_for, prepare,
  prepare_as, start_host, restart_host, start_session,
}

-- A text that may be left out is empty then.
abbrev pub text_of : Option String → String
text_of none = ""
text_of (some t) = t

abbrev pub wanted_policy : Option AutoUpdatePolicy → AutoUpdatePolicy
wanted_policy none = unspecified
wanted_policy (some p) = p

-- The group that is named, or else that of the account.
abbrev pub wanted_group : Option String → HeadlessAccount → String
wanted_group none account = account.group_id
wanted_group (some g) account = if str_eq g "" then account.group_id else g

-- An update goes to the latest release, else a tag that is named is taken.
abbrev pub wanted_tag : Bool → Option String → Option String
wanted_tag true tag = some "latestRelease"
wanted_tag false none = none
wanted_tag false (some t) = if str_eq t "" then none else some t

-- Ten minutes, unless a timeout is given.
abbrev pub wanted_timeout : Option ℤ → ℤ
wanted_timeout none = pos 600
wanted_timeout (some n) = n

abbrev pub wanted_memo : String → Option String
wanted_memo memo = if str_eq memo "" then none else some memo

-- A host's start, once its account is read.
abbrev pub start_asked :
    StartHeadlessHostRequest → Option String → Result HeadlessAccount → Result JobCall
start_asked r creator (err e) = err e
start_asked r creator (ok account) = ok (
    headless_host_start
      (record {
        name = r.name;
        container_image_tag = text_of r.image_tag;
        headless_account = account;
        startup_config = r.startup_config;
        auto_update_policy = wanted_policy r.auto_update_policy;
        memo = text_of r.memo;
        group_id = wanted_group r.group_id account;
      })
      creator)

-- What a request asks for.
abbrev pub asked : Backend → Request → Option String → Result JobCall
asked b (start_host_request r) creator = start_asked r creator (b.account r.headless_account_id)
asked b (shutdown_host_request r) creator = ok (headless_host_shutdown r.host_id)
asked b (restart_host_request r) creator = ok (
    headless_host_restart r.host_id (wanted_tag r.with_update r.with_image_tag) r.with_world_restart
      (wanted_timeout r.timeout_seconds))
asked b (start_session_request r) creator =
    ok (
      JobCall.start_session r.host_id (text_of r.group_id) creator r.parameters
        (wanted_memo r.memo))
asked b (stop_session_request r) creator = ok (JobCall.stop_session r.session_id)

get_string-text_of : (t : Option String) → get_string t ≡ text_of t
get_string-text_of none = refl
get_string-text_of (some t) = refl

policy_of-wanted_policy : (p : Option AutoUpdatePolicy) → policy_of p ≡ wanted_policy p
policy_of-wanted_policy none = refl
policy_of-wanted_policy (some p) = refl

group-wanted_group :
    (g : Option String) (account : HeadlessAccount)
    → (if str_eq (get_string g) "" then account.group_id else get_string g) ≡ wanted_group g account
group-wanted_group none account = refl
group-wanted_group (some g) account = refl

tag-wanted_tag :
    (update : Bool) (tag : Option String)
    → (if update
        then some "latestRelease"
        else if str_eq (get_string tag) ""
        then none
        else some (get_string tag))
      ≡ wanted_tag update tag
tag-wanted_tag true tag = refl
tag-wanted_tag false none = refl
tag-wanted_tag false (some t) = refl

timeout-wanted_timeout :
    (n : Option ℤ) → get_or n default_restart_timeout_seconds ≡ wanted_timeout n
timeout-wanted_timeout none = refl
timeout-wanted_timeout (some n) = refl

pub start_host-asked :
    (b : Backend) (r : StartHeadlessHostRequest) (creator : Option String)
    → start_host b r creator ≡ asked b (start_host_request r) creator
unfolding start_host host_start_call
start_host-asked b r creator = elim (Result-cases (b.account r.headless_account_id)) [
  | inr (e, none_found) ↦ rw none_found refl
  | inl (account, found) ↦
      rw
        (
          found,
          get_string-text_of r.image_tag,
          get_string-text_of r.memo,
          policy_of-wanted_policy r.auto_update_policy,
          group-wanted_group r.group_id account,
        )
        refl
]

pub restart_host-asked :
    (b : Backend) (r : RestartHeadlessHostRequest) (creator : Option String)
    → ok (restart_host r) ≡ asked b (restart_host_request r) creator
unfolding restart_host new_tag
restart_host-asked b r creator =
    rw (tag-wanted_tag r.with_update r.with_image_tag, timeout-wanted_timeout r.timeout_seconds)
      refl

pub start_session-asked :
    (b : Backend) (r : StartWorldRequest) (creator : Option String)
    → ok (start_session r creator) ≡ asked b (start_session_request r) creator
unfolding start_session
start_session-asked b r creator = rw (get_string-text_of r.group_id) refl

-- protojson reads back what it wrote.
pub record ReadsBack (json : Json) : Type 0 where
  pub start_host :
      (r : StartHeadlessHostRequest) (text : String)
      → json.marshal_start_host r ≡ ok text
      → json.unmarshal_start_host text ≡ ok r
  pub shutdown_host :
      (r : ShutdownHeadlessHostRequest) (text : String)
      → json.marshal_shutdown_host r ≡ ok text
      → json.unmarshal_shutdown_host text ≡ ok r
  pub restart_host :
      (r : RestartHeadlessHostRequest) (text : String)
      → json.marshal_restart_host r ≡ ok text
      → json.unmarshal_restart_host text ≡ ok r
  pub start_world :
      (r : StartWorldRequest) (text : String)
      → json.marshal_start_world r ≡ ok text
      → json.unmarshal_start_world text ≡ ok r
  pub stop_session :
      (r : StopSessionRequest) (text : String)
      → json.marshal_stop_session r ≡ ok text
      → json.unmarshal_stop_session text ≡ ok r

prepare-job_for :
    (b : Backend)
    → ReadsBack b.json
    → (req : Request) (id : String) (at : ℕ) (payload : String) (creator : Option String)
    → marshal_payload b.json req ≡ ok payload
    → (instance_id : String) (now : ℕ)
    → prepare b (claimed instance_id now (job_for req id at payload creator)) ≡ asked b req creator
unfolding prepare prepare_as job_for new_job claimed marshal_payload
prepare-job_for b reads (start_host_request r) id at payload creator h i now =
    rw (reads.start_host r payload h) (start_host-asked b r creator)
prepare-job_for b reads (shutdown_host_request r) id at payload creator h i now =
    rw (reads.shutdown_host r payload h) refl
prepare-job_for b reads (restart_host_request r) id at payload creator h i now =
    rw (reads.restart_host r payload h) (restart_host-asked b r creator)
prepare-job_for b reads (start_session_request r) id at payload creator h i now =
    rw (reads.start_world r payload h) (start_session-asked b r creator)
prepare-job_for b reads (stop_session_request r) id at payload creator h i now =
    rw (reads.stop_session r payload h) refl

-- What an enqueued request becomes.
pub record Enqueued (b : Backend) (req : Request) (creator : Option String) (rows : Rows)
    (id : String) (rows' : Rows) : Type 0 where
  pub job : AsyncJob
  pub inserted : rows' ≡ job ∷ rows
  pub named : job.id ≡ id
  pub waits : job.status ≡ JobStatus.pending
  pub for_creator : job.created_by ≡ creator
  pub calls :
      (instance_id : String) (now : ℕ)
      → prepare b (claimed instance_id now job) ≡ asked b req creator

job_columns :
    (req : Request) (id : String) (at : ℕ) (payload : String) (creator : Option String)
    → ((job_for req id at payload creator).id ≡ id)
      × ((job_for req id at payload creator).status ≡ JobStatus.pending)
      × ((job_for req id at payload creator).created_by ≡ creator)
unfolding job_for new_job
job_columns (start_host_request r) id at payload creator = (refl, refl, refl)
job_columns (shutdown_host_request r) id at payload creator = (refl, refl, refl)
job_columns (restart_host_request r) id at payload creator = (refl, refl, refl)
job_columns (start_session_request r) id at payload creator = (refl, refl, refl)
job_columns (stop_session_request r) id at payload creator = (refl, refl, refl)

job_for-Enqueued :
    (b : Backend)
    → ReadsBack b.json
    → (req : Request) (id : String) (at : ℕ) (payload : String) (creator : Option String)
    → marshal_payload b.json req ≡ ok payload
    → (rows : Rows) → Enqueued b req creator rows id (job_for req id at payload creator ∷ rows)
job_for-Enqueued b reads req id at payload creator h rows = record {
  job = job_for req id at payload creator;
  inserted = refl;
  named = (job_columns req id at payload creator).0;
  waits = (job_columns req id at payload creator).1;
  for_creator = (job_columns req id at payload creator).2;
  calls = prepare-job_for b reads req id at payload creator h;
}

-- Round trip: if protojson reads back what it wrote, enqueuing a request either fails and changes
-- no row, or adds one pending job of its creator, from which any worker that claims it later
-- prepares exactly the call that the request asks for.
pub enqueue-Outcome :
    (b : Backend)
    → ReadsBack b.json
    → (req : Request) (stores : Bool) (id : String) (at : ℕ) (creator : Option String) (rows : Rows)
    → Outcome (Enqueued b req creator rows) rows (enqueue b.json req stores id at creator rows)
unfolding enqueue enqueue_payload insert_job
enqueue-Outcome b reads req stores id at creator rows = go (marshal_payload b.json req) refl stores
  where
    go :
        (r : Result String)
        → marshal_payload b.json req ≡ r
        → (stores : Bool)
        → Outcome
            (Enqueued b req creator rows)
            rows
            (enqueue_payload req stores id at creator r rows)
    go (err e) h stores = refused e refl
    go (ok payload) h false = refused Error.db_error refl
    go (ok payload) h true =
        done id (job_for req id at payload creator ∷ rows)
          (ap (λ n. (ok n, job_for req id at payload creator ∷ rows))
            (job_columns req id at payload creator).0)
          (job_for-Enqueued b reads req id at payload creator h rows)
