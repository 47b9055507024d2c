-- ===== src/Upgrade/Events/Examples.antt =====
-- Examples for worker/host_upgrade_orchestrator.go: one draining host with one session.
use baru_reso_headless_contr.Upgrade.Restarts.{RestartsDrained, reconcile_host-RestartsDrained}
use baru_reso_headless_contr.Upgrade.Attempts.{
  Reconciled, reconcile_host-Reconciled, reconcile_host-not_draining, reconcile_times, gives_up,
}
use baru_reso_headless_contr.Upgrade.Events.Draining.{WasDraining, handle_host_event-Frozen}
use baru_reso_headless_contr.Upgrade.Events.Enrollment.{
  listed_candidate, listed_hosts, IsFor, handle_new_image-Admits,
}
use baru_reso_headless_contr.Upgrade.{
  list_running, dial, get_session, stop, restart, after_count, after_stop, stop_session,
  user_count_for_session, fetch_user_count_rpc, ask, after_restart, restart_host, after_drain,
  set_user_count, drain_session, drain_sessions, sessions_on_host,
}
use baru_reso_headless_contr.Upgrade.Events.{
  require_config, take_snapshot, snapshot, enter, is_candidate, seed_counts,
}
use baru_reso_headless_contr.Prelude.Exec.{resume}
use baru_reso_headless_contr.Prelude.{◌⊎◌}
use baru_reso_headless_contr.Prelude.{
  delete, insert, ◌≡◌, refl, true, false, none, some, List, [], ◌∷◌, ok, err, other, lookup,
}
use baru_reso_headless_contr.Prelude.Int32.{to_int32, down, max_zero, add_delta, is_positive, pos}
use baru_reso_headless_contr.Domain.{
  HeadlessHost, HeadlessAccount, ContainerImage, Session, SessionStatus, HostStatus, users_empty,
}
use baru_reso_headless_contr.Upgrade.{
  fetch_user_count_rpc, user_count_for_session, drain_session, drain_sessions, reconcile_listed,
  sessions_on_host, reconcile_draining, Outside, Orchestrator, DrainState, StartParams,
  reconcile_host, bump_user_count, forget_session, is_host_draining,
}
use baru_reso_headless_contr.Upgrade.Stops.{reconcile_host-StopsVerified, StopsVerified}
use baru_reso_headless_contr.Upgrade.Events.{
  take_snapshot, enroll_host, enroll_one, enroll_candidates, enroll_listed, reconcile_if_draining,
  handle_new_image, seed_session_user_cache, user_left, handle_host_event,
}
use baru_reso_headless_contr.Upgrade.Events.Signals.{
  Signal, host_event, tick, new_image, react_all, react_all-CallsSafe, CallsSafe,
}

abbrev account : HeadlessAccount
account = record { resonite_id = "U-1"; credential = "c"; password = "p"; group_id = "g" }

abbrev params : StartParams
params = record {
  name = "host";
  container_image_tag = "v2";
  startup_config = "{}";
  headless_account = account;
  auto_update_policy = users_empty;
  memo = "";
}

abbrev host_one : HeadlessHost
host_one = record {
  id = "h1";
  name = "host";
  status = HostStatus.running;
  resonite_version = "1";
  app_version = "1";
  account_id = "U-1";
  auto_update_policy = users_empty;
  memo = "";
  group_id = "g";
}

abbrev image : ContainerImage
image = record { tag = "v2"; app_version = "2"; resonite_version = "1"; is_pre_release = false }

abbrev session_one : Session
session_one = record {
  id = "s1";
  name = "world";
  status = SessionStatus.running;
  started_at = none;
  created_by = none;
  ended_at = none;
  host_id = "h1";
  startup_parameters = [];
  auto_upgrade = false;
  memo = "";
  group_id = "g";
}

-- All calls succeed, and no session has a user.
abbrev calm : Outside
calm = record {
  list_all_hosts = λ cs. ok (host_one ∷ []);
  rpc_client = λ cs h. ok tt;
  startup_config = λ cs h. ok (some "{}");
  account = λ cs a. ok account;
  sessions_of = λ cs h. ok (("s1", pos 0) ∷ []);
  users_of = λ cs h s. ok (pos 0);
  running_sessions = λ cs. ok (session_one ∷ []);
  stop_session = λ cs s. ok tt;
  restart_host = λ cs h p. ok tt;
  others = λ cs m. m;
}

-- No session runs, and every restart fails.
abbrev broken : Outside
broken = record calm {
  running_sessions = λ cs. ok [];
  restart_host = λ cs h p. err (other "no such image");
}

abbrev draining : DrainState
draining = record { target_tag = "v2"; restart_params = params; attempts = 2 }

abbrev start : Orchestrator
start = record {
  drain_targets = ("h1", draining) ∷ [];
  session_users = ("h1", ("s1", pos 1) ∷ []) ∷ [];
  stopper_wired = true;
  calls = [];
}

-- The last user leaves, then a new image appears: the host is drained and enrolled again.
abbrev signals : List Signal
signals = host_event "h1" (user_left "s1") ∷ new_image (some image) ∷ tick ∷ []

react_all-CallsSafe_example : CallsSafe calm (react_all calm signals start)
react_all-CallsSafe_example =
    react_all-CallsSafe calm signals start (record { stops = tt; restarts = tt })

reconcile_host-StopsVerified_example : StopsVerified calm (reconcile_host calm "h1" start).calls
reconcile_host-StopsVerified_example = reconcile_host-StopsVerified calm "h1" start tt

-- The cache says that nobody is there, so the container is asked, the session stopped and the host
-- restarted.
abbrev empty_start : Orchestrator
empty_start = record start { session_users = [] }

reconcile_host-drains :
    (reconcile_host calm "h1" empty_start).calls
    ≡ restart "h1" params 180 ∷ stop "s1" ∷ get_session "h1" "s1" ∷ dial "h1" ∷ list_running ∷ []
unfolding reconcile_host reconcile_draining reconcile_listed sessions_on_host drain_sessions
    drain_session user_count_for_session fetch_user_count_rpc after_count stop_session after_stop
    forget_session set_user_count after_drain restart_host after_restart ask resume lookup insert
    delete is_positive
reconcile_host-drains = refl

reconcile_host-RestartsDrained_example :
    RestartsDrained calm (reconcile_host calm "h1" empty_start).calls
reconcile_host-RestartsDrained_example = reconcile_host-RestartsDrained calm "h1" empty_start tt

reconcile_host-Reconciled_example :
    Reconciled calm "h1" draining empty_start (reconcile_host calm "h1" empty_start)
unfolding lookup
reconcile_host-Reconciled_example = reconcile_host-Reconciled calm "h1" draining empty_start refl

reconcile_host-not_draining_example : reconcile_host calm "h2" start ≡ start
unfolding lookup
reconcile_host-not_draining_example = reconcile_host-not_draining calm "h2" start refl

gives_up_example :
    (is_host_draining "h1" (reconcile_times broken "h1" 2 start) ≡ true)
    × (is_host_draining "h1" (reconcile_times broken "h1" 3 start) ≡ false)
unfolding sessions_on_host lookup
gives_up_example =
    gives_up broken "h1" (λ cs. ([], refl, refl)) (λ cs p. (other "no such image", refl)) 2 draining
      start refl refl

-- No container can be asked, so the session stays and the host keeps draining.
abbrev unreachable : Outside
unreachable = record calm { rpc_client = λ cs h. err (other "refused") }

handle_host_event-Frozen_example : WasDraining start "h1" draining
unfolding handle_host_event reconcile_if_draining is_host_draining bump_user_count reconcile_host
    reconcile_draining reconcile_listed sessions_on_host drain_sessions drain_session
    user_count_for_session fetch_user_count_rpc after_count set_user_count after_drain ask resume
    lookup insert delete is_positive add_delta down to_int32 max_zero
handle_host_event-Frozen_example =
    handle_host_event-Frozen unreachable "h1" (user_left "s1") start "h1" draining refl

-- Users stay in the session, so the enrolled host drains on.
abbrev busy : Outside
busy = record calm { users_of = λ cs h s. ok (pos 3) }

abbrev idle_start : Orchestrator
idle_start = record start { drain_targets = []; session_users = [] }

abbrev entered : DrainState
entered = record draining { attempts = 0 }

handle_new_image-Admits_example :
    WasDraining idle_start "h1" entered
    ⊎ ((image.is_pre_release ≡ false)
        × (listed_candidate image (listed_hosts (busy.list_all_hosts [])) "h1" ≡ true)
        × IsFor image.tag entered)
unfolding handle_new_image enroll_listed enroll_candidates enroll_one enroll_host take_snapshot
    require_config enter snapshot is_candidate seed_session_user_cache seed_counts is_host_draining
    reconcile_host reconcile_draining reconcile_listed sessions_on_host drain_sessions drain_session
    user_count_for_session fetch_user_count_rpc after_count set_user_count after_drain ask resume
    lookup insert delete is_positive
handle_new_image-Admits_example = handle_new_image-Admits image busy idle_start "h1" entered refl
