-- ===== src/Jobs/Examples.antt =====
-- A job that stops a session, from its request to its completion.
use baru_reso_headless_contr.Prelude.{
  ◌≡◌, ◌⊎◌, some, none, true, [], ◌∷◌, ok, err, other, str_eq, eq_iff, arith, if◌then◌else◌,
}
use baru_reso_headless_contr.Prelude.Outcome.{Outcome}
use baru_reso_headless_contr.Notification.{new_bus, subscribe}
use baru_reso_headless_contr.Jobs.{Json, Backend, done, AsyncJob, JobType, JobStatus}
use baru_reso_headless_contr.Jobs.Dispatch.{Request, stop_session_request, enqueue}
use baru_reso_headless_contr.Jobs.Dispatch.Handover.{ReadsBack, Enqueued, enqueue-Outcome}
use baru_reso_headless_contr.Jobs.Executor.{World, execute_one}
use baru_reso_headless_contr.Jobs.Executor.Endings.{CutShort}
use baru_reso_headless_contr.Jobs.Executor.Completion.{
  Executed, IsSettled, execute_one-Executed, execute_one-IsSettled,
}

-- Only requests to stop a session have a text here.
abbrev stops_only : Json
stops_only = record {
  marshal_start_host = λ r. err (other "start");
  marshal_shutdown_host = λ r. err (other "shutdown");
  marshal_restart_host = λ r. err (other "restart");
  marshal_start_world = λ r. err (other "world");
  marshal_stop_session =
      λ r. if str_eq r.host_id "" then ok r.session_id else err (other "deprecated");
  unmarshal_start_host = λ t. err (other "start");
  unmarshal_shutdown_host = λ t. err (other "shutdown");
  unmarshal_restart_host = λ t. err (other "restart");
  unmarshal_start_world = λ t. err (other "world");
  unmarshal_stop_session = λ t. ok (record { host_id = ""; session_id = t });
  marshal_result = λ r. ok r.session_id;
}

stops_only-ReadsBack : ReadsBack stops_only
stops_only-ReadsBack = record {
  start_host = λ r t h. cc;
  shutdown_host = λ r t h. cc;
  restart_host = λ r t h. cc;
  start_world = λ r t h. cc;
  stop_session = λ r t h. ground (arith, eq_iff r.host_id "");
}

abbrev backend : Backend
backend = record {
  json = stops_only;
  account = λ a. err (other "no account");
  user_checker = some (λ u. ok true);
  operate = λ user c. done "";
  event_text = λ e. e.job_id;
}

abbrev stop_s1 : Request
stop_s1 = stop_session_request (record { host_id = ""; session_id = "s1" })

abbrev job : AsyncJob
job = record {
  id = "j1";
  job_type = JobType.stop_session;
  payload = "s1";
  status = JobStatus.running;
  result_payload = none;
  last_error = none;
  claimed_by = some "worker";
  claimed_at = some 2;
  executed_at = none;
  host_id = none;
  session_id = some "s1";
  created_by = some "mia";
  created_at = 1;
}

abbrev world : World
world = record { jobs = job ∷ []; bus = subscribe "mia" new_bus; calls = [] }

enqueue-Outcome_example :
    Outcome
      (Enqueued backend stop_s1 (some "mia") (job ∷ []))
      (job ∷ [])
      (enqueue stops_only stop_s1 true "j2" 3 (some "mia") (job ∷ []))
enqueue-Outcome_example =
    enqueue-Outcome backend stops_only-ReadsBack stop_s1 true "j2" 3 (some "mia") (job ∷ [])

execute_one-Executed_example :
    Executed backend true 5 job world (execute_one backend true 5 job world)
execute_one-Executed_example = execute_one-Executed backend true 5 job world

execute_one-IsSettled_example :
    (CutShort backend job × (execute_one backend true 5 job world ≡ world))
    ⊎ IsSettled "j1" (execute_one backend true 5 job world).jobs
execute_one-IsSettled_example = execute_one-IsSettled backend 5 job world
