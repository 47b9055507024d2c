-- ===== src/Upgrade/Events.antt =====
-- worker/host_upgrade_orchestrator.go: enrollment of hosts, the seeding of the user counts, and the
-- handlers of host events, stream resets, new images and the periodic tick.
pub mod Draining
pub mod Enrollment
pub mod Signals
mod Examples
use baru_reso_headless_contr.Prelude.{
  Bool, true, false, ◌&&◌, Option, none, some, List, [], ◌∷◌, String, str_eq, if◌then◌else◌, Map,
  insert, delete, keys, Result, ok, err, other,
}
use baru_reso_headless_contr.Prelude.Int32.{ℤ, plus_one, minus_one}
use baru_reso_headless_contr.Prelude.Exec.{resume, return, update, ◌>>=◌, ◌>>◌}
use baru_reso_headless_contr.Domain.{
  HeadlessHost, HeadlessAccount, ContainerImage, HostStatus, AutoUpdatePolicy, users_empty,
}
use baru_reso_headless_contr.Upgrade.{
  Orchestrator, DrainState, Outside, Act, ask, dial, ask_config, ask_account, list_sessions,
  list_hosts, is_host_draining, bump_user_count, forget_session, reconcile_host,
}

-- The payload of a host event, as far as the orchestrator looks.
pub data HostEvent : Type 0 where
  user_joined user_left session_ended : String → HostEvent
  other_event : HostEvent

-- The map filled by the loop over the reported sessions: the last report of a session counts.
pub seed_counts : List (String × ℤ) → Map ℤ → Map ℤ
seed_counts [] seeded = seeded
seed_counts ((session, n) ∷ rest) seeded = seed_counts rest (insert session n seeded)

abbrev is_running : HostStatus → Bool
is_running HostStatus.running = true
is_running _ = false

abbrev is_users_empty : AutoUpdatePolicy → Bool
is_users_empty users_empty = true
is_users_empty _ = false

-- The filters of `handleNewImage` that look only at the host and the image.
pub is_candidate : ContainerImage → HeadlessHost → Bool
is_candidate latest h =
    if is_running h.status
    then (if is_users_empty h.auto_update_policy
        then (if str_eq h.app_version latest.app_version
              && str_eq h.resonite_version latest.resonite_version
            then false
            else true)
        else false)
    else false

snapshot : HeadlessHost → String → String → HeadlessAccount → DrainState
snapshot host tag config account = record {
  target_tag = tag;
  restart_params = record {
    name = host.name;
    container_image_tag = tag;
    startup_config = config;
    headless_account = account;
    auto_update_policy = host.auto_update_policy;
    memo = host.memo;
  };
  attempts = 0;
}

require_config : Option String → Act String
require_config none o = (err (other "empty startup config response"), o)
require_config (some c) o = (ok c, o)

module _ (env : Outside) where
  pub seed_session_user_cache : String → Act (Unit {0})
  unfolding resume ask
  seed_session_user_cache host = do
    ask env (dial host) (λ cs. env.rpc_client cs host)
    sessions ← ask env (list_sessions host) (λ cs. env.sessions_of cs host)
    update (λ o. record o { session_users = insert host (seed_counts sessions []) o.session_users })

  -- What is read before the host is entered; an error ends the enrollment.
  take_snapshot : HeadlessHost → String → Act DrainState
  unfolding resume ask require_config
  take_snapshot host tag = do
    ask env (dial host.id) (λ cs. env.rpc_client cs host.id)
    response ← ask env (ask_config host.id) (λ cs. env.startup_config cs host.id)
    config ← require_config response
    account ← ask env (ask_account host.account_id) (λ cs. env.account cs host.account_id)
    return (snapshot host tag config account)

  enter : HeadlessHost → Result DrainState → Orchestrator → Orchestrator
  unfolding is_host_draining
  enter host (err e) o = o
  enter host (ok st) o =
      if is_host_draining host.id o
      then o
      else (let (r, o') =
            seed_session_user_cache host.id
              (record o { drain_targets = insert host.id st o.drain_targets }) in
          reconcile_host env host.id o')

  pub enroll_host : HeadlessHost → String → Orchestrator → Orchestrator
  unfolding enter
  enroll_host host tag o = let (r, o') = take_snapshot host tag o in enter host r o'

  enroll_one : ContainerImage → HeadlessHost → Orchestrator → Orchestrator
  enroll_one latest h o =
      if is_candidate latest h
      then (if is_host_draining h.id o then o else enroll_host h latest.tag o)
      else o

  enroll_candidates : ContainerImage → List HeadlessHost → Orchestrator → Orchestrator
  unfolding enroll_one
  enroll_candidates latest [] o = o
  enroll_candidates latest (h ∷ hs) o = enroll_candidates latest hs (enroll_one latest h o)

  enroll_listed : ContainerImage → Result (List HeadlessHost) → Orchestrator → Orchestrator
  unfolding enroll_candidates
  enroll_listed latest (err e) o = o
  enroll_listed latest (ok hosts) o = enroll_candidates latest hosts o

  pub handle_new_image : Option ContainerImage → Orchestrator → Orchestrator
  unfolding enroll_listed ask
  handle_new_image none o = o
  handle_new_image (some latest) o =
      if latest.is_pre_release
      then o
      else (let (r, o') = ask env list_hosts env.list_all_hosts o in enroll_listed latest r o')

  reconcile_if_draining : String → Orchestrator → Orchestrator
  reconcile_if_draining host o = if is_host_draining host o then reconcile_host env host o else o

  pub handle_host_event : String → HostEvent → Orchestrator → Orchestrator
  unfolding reconcile_if_draining
  handle_host_event host (user_joined s) o =
      reconcile_if_draining host (bump_user_count host s plus_one o)
  handle_host_event host (user_left s) o =
      reconcile_if_draining host (bump_user_count host s minus_one o)
  handle_host_event host (session_ended s) o = reconcile_if_draining host (forget_session host s o)
  handle_host_event host other_event o = o

  pub handle_stream_reset : String → Orchestrator → Orchestrator
  handle_stream_reset host o =
      let wiped = record o { session_users = delete host o.session_users } in
      if is_host_draining host wiped
      then (let (r, o') = seed_session_user_cache host wiped in reconcile_host env host o')
      else wiped

  reconcile_each : List String → Orchestrator → Orchestrator
  reconcile_each [] o = o
  reconcile_each (host ∷ hosts) o = reconcile_each hosts (reconcile_host env host o)

  -- The ids are listed first, then each is reconciled.
  pub reconcile_all_draining : Orchestrator → Orchestrator
  unfolding reconcile_each
  reconcile_all_draining o = reconcile_each (keys o.drain_targets) o
