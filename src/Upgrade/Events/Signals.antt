-- ===== src/Upgrade/Events/Signals.antt =====
-- worker/host_upgrade_orchestrator.go: any sequence of host events, stream resets, ticks and images.
use baru_reso_headless_contr.Prelude.{
  Bool-cases, inl, inr, keys, delete, Bool-cases, ◌≡◌, refl, Bool, true, false, Option, none, some,
  List, [], ◌∷◌, String, Result, ok, err, arith, if◌then◌else◌,
}
use baru_reso_headless_contr.Domain.{HeadlessHost, ContainerImage}
use baru_reso_headless_contr.Upgrade.{
  Orchestrator, DrainState, Outside, bump_user_count, forget_session, is_host_draining,
  reconcile_host, set_user_count, list_hosts,
}
use baru_reso_headless_contr.Upgrade.Stops.{StopsVerified, reconcile_host-StopsVerified}
use baru_reso_headless_contr.Upgrade.Restarts.{RestartsDrained, reconcile_host-RestartsDrained}
use baru_reso_headless_contr.Upgrade.Events.{
  HostEvent, user_joined, user_left, session_ended, other_event, is_candidate,
  seed_session_user_cache, take_snapshot, enter, enroll_host, enroll_one, enroll_candidates,
  enroll_listed, handle_new_image, reconcile_if_draining, handle_host_event, handle_stream_reset,
  reconcile_each, reconcile_all_draining,
}

-- What the orchestrator is called back with.
pub data Signal : Type 0 where
  host_event : String → HostEvent → Signal
  stream_reset : String → Signal
  tick : Signal
  new_image : Option ContainerImage → Signal

module _ (env : Outside) where
  unfoldable pub react : Signal → Orchestrator → Orchestrator
  react (host_event host e) o = handle_host_event env host e o
  react (stream_reset host) o = handle_stream_reset env host o
  react tick o = reconcile_all_draining env o
  react (new_image latest) o = handle_new_image env latest o

  unfoldable pub react_all : List Signal → Orchestrator → Orchestrator
  react_all [] o = o
  react_all (s ∷ ss) o = react_all ss (react s o)

  -- Every stop and every restart that was made is safe.
  pub record CallsSafe (o : Orchestrator) : Type 0 where
    pub stops : StopsVerified env o.calls
    pub restarts : RestartsDrained env o.calls

  reconcile_host-CallsSafe :
      (host : String) (o : Orchestrator) → CallsSafe o → CallsSafe (reconcile_host env host o)
  reconcile_host-CallsSafe host o h = record {
    stops = reconcile_host-StopsVerified env host o h.stops;
    restarts = reconcile_host-RestartsDrained env host o h.restarts;
  }

  seed-CallsSafe :
      (host : String) (o : Orchestrator)
      → CallsSafe o
      → CallsSafe (seed_session_user_cache env host o).1
  unfolding seed_session_user_cache
  seed-CallsSafe host o h = ground arith

  take_snapshot-CallsSafe :
      (host : HeadlessHost) (tag : String) (o : Orchestrator)
      → CallsSafe o
      → CallsSafe (take_snapshot env host tag o).1
  unfolding take_snapshot
  take_snapshot-CallsSafe host tag o h = ground arith

  enter-CallsSafe :
      (host : HeadlessHost) (r : Result DrainState) (o : Orchestrator)
      → CallsSafe o
      → CallsSafe (enter env host r o)
  unfolding enter
  enter-CallsSafe host (err e) o h = h
  enter-CallsSafe host (ok st) o h = elim (Bool-cases (is_host_draining host.id o)) [
    | inl drains ↦ rw drains h
    | inr absent ↦ rw absent (
        reconcile_host-CallsSafe host.id _
          (seed-CallsSafe host.id _ (record { stops = h.stops; restarts = h.restarts })))
  ]

  enroll_one-CallsSafe :
      (latest : ContainerImage) (host : HeadlessHost) (o : Orchestrator)
      → CallsSafe o
      → CallsSafe (enroll_one env latest host o)
  unfolding enroll_one enroll_host
  enroll_one-CallsSafe latest host o h = elim (Bool-cases (is_candidate latest host)) [
    | inl candidate ↦ rw candidate (elim (Bool-cases (is_host_draining host.id o)) [
      | inl drains ↦ rw drains h
      | inr absent ↦
          rw absent (enter-CallsSafe host _ _ (take_snapshot-CallsSafe host latest.tag o h))
    ])
    | inr refused ↦ rw refused h
  ]

  enroll_candidates-CallsSafe :
      (latest : ContainerImage) (hosts : List HeadlessHost) (o : Orchestrator)
      → CallsSafe o
      → CallsSafe (enroll_candidates env latest hosts o)
  unfolding enroll_candidates
  enroll_candidates-CallsSafe latest [] o h = h
  enroll_candidates-CallsSafe latest (x ∷ hosts) o h =
      enroll_candidates-CallsSafe latest hosts _ (enroll_one-CallsSafe latest x o h)

  enroll_listed-CallsSafe :
      (latest : ContainerImage) (r : Result (List HeadlessHost)) (o : Orchestrator)
      → CallsSafe o
      → CallsSafe (enroll_listed env latest r o)
  unfolding enroll_listed
  enroll_listed-CallsSafe latest (err e) o h = h
  enroll_listed-CallsSafe latest (ok hosts) o h = enroll_candidates-CallsSafe latest hosts o h

  handle_new_image-CallsSafe :
      (latest : Option ContainerImage) (o : Orchestrator)
      → CallsSafe o
      → CallsSafe (handle_new_image env latest o)
  unfolding handle_new_image
  handle_new_image-CallsSafe none o h = h
  handle_new_image-CallsSafe (some latest) o h = go latest.is_pre_release
    where
      go :
          (pre : Bool)
          → CallsSafe (
              if pre
              then o
              else enroll_listed env latest (env.list_all_hosts o.calls) (record o {
                session_users = env.others (list_hosts ∷ o.calls) o.session_users;
                calls = list_hosts ∷ o.calls;
              }))
      go true = h
      go false =
          enroll_listed-CallsSafe latest (env.list_all_hosts o.calls)
            (record o {
              session_users = env.others (list_hosts ∷ o.calls) o.session_users;
              calls = list_hosts ∷ o.calls;
            })
            (record { stops = h.stops; restarts = h.restarts })

  -- After a change of the counts only.
  reconcile_if_draining-CallsSafe :
      (host : String) (o o' : Orchestrator)
      → o'.calls ≡ o.calls
      → CallsSafe o
      → CallsSafe (reconcile_if_draining env host o')
  unfolding reconcile_if_draining
  reconcile_if_draining-CallsSafe host o o' same h =
      let h' : CallsSafe o' = record { stops = rw same h.stops; restarts = rw same h.restarts } in
      elim (Bool-cases (is_host_draining host o')) [
        | inl drains ↦ rw drains (reconcile_host-CallsSafe host o' h')
        | inr absent ↦ rw absent h'
      ]

  handle_host_event-CallsSafe :
      (host : String) (e : HostEvent) (o : Orchestrator)
      → CallsSafe o
      → CallsSafe (handle_host_event env host e o)
  unfolding handle_host_event bump_user_count set_user_count forget_session
  handle_host_event-CallsSafe host (user_joined s) o h =
      reconcile_if_draining-CallsSafe host o _ (ground arith) h
  handle_host_event-CallsSafe host (user_left s) o h =
      reconcile_if_draining-CallsSafe host o _ (ground arith) h
  handle_host_event-CallsSafe host (session_ended s) o h =
      reconcile_if_draining-CallsSafe host o _ refl h
  handle_host_event-CallsSafe host other_event o h = h

  handle_stream_reset-CallsSafe :
      (host : String) (o : Orchestrator) → CallsSafe o → CallsSafe (handle_stream_reset env host o)
  unfolding handle_stream_reset
  handle_stream_reset-CallsSafe host o h =
      let wiped = record o { session_users = delete host o.session_users } in
      let h' : CallsSafe wiped = record { stops = h.stops; restarts = h.restarts } in
      elim (Bool-cases (is_host_draining host wiped)) [
        | inl drains ↦ rw drains (reconcile_host-CallsSafe host _ (seed-CallsSafe host wiped h'))
        | inr absent ↦ rw absent h'
      ]

  reconcile_each-CallsSafe :
      (hosts : List String) (o : Orchestrator)
      → CallsSafe o
      → CallsSafe (reconcile_each env hosts o)
  unfolding reconcile_each
  reconcile_each-CallsSafe [] o h = h
  reconcile_each-CallsSafe (host ∷ hosts) o h =
      reconcile_each-CallsSafe hosts _ (reconcile_host-CallsSafe host o h)

  react-CallsSafe : (s : Signal) (o : Orchestrator) → CallsSafe o → CallsSafe (react s o)
  unfolding react reconcile_all_draining
  react-CallsSafe (host_event host e) o h = handle_host_event-CallsSafe host e o h
  react-CallsSafe (stream_reset host) o h = handle_stream_reset-CallsSafe host o h
  react-CallsSafe tick o h = reconcile_each-CallsSafe (keys o.drain_targets) o h
  react-CallsSafe (new_image latest) o h = handle_new_image-CallsSafe latest o h

  -- Through any sequence of host events, stream resets, ticks and new images, whatever the calls
  -- answer: a session is stopped only directly after the container of the host that it had in the
  -- last listing reported that it has no user, and a host is restarted only after each session that
  -- the last listing had on it was stopped with success since.
  pub react_all-CallsSafe :
      (ss : List Signal) (o : Orchestrator) → CallsSafe o → CallsSafe (react_all ss o)
  unfolding react_all
  react_all-CallsSafe [] o h = h
  react_all-CallsSafe (s ∷ ss) o h = react_all-CallsSafe ss (react s o) (react-CallsSafe s o h)
