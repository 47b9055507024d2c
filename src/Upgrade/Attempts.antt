-- ===== src/Upgrade/Attempts.antt =====
-- worker/host_upgrade_orchestrator.go: what a reconcile leaves of the host's drain state, and how
-- many failing restarts it takes to give up.
use baru_reso_headless_contr.Prelude.{length, ◌≤◌}
use baru_reso_headless_contr.Prelude.{
  ℕ, zero, suc, ◌+◌, ◌≡◌, refl, ◌∙◌, ap, true, false, Option, none, some, List, [], ◌∷◌, String,
  str_eq, Result, ok, err, Error, arith, lookup, lookup-insert, lookup-delete, eq_refl, eq_iff,
  if◌then◌else◌, leb, Result-cases, inl, inr,
}
use baru_reso_headless_contr.Domain.{Session}
use baru_reso_headless_contr.Upgrade.{
  Orchestrator, DrainState, Outside, set_user_count, forget_session, drain_session, drain_sessions,
  after_drain, sessions_on_host, record_restart_failure, reconcile_host, reconcile_listed,
  reconcile_draining, Call, StartParams, is_host_draining, max_restart_attempts, list_running,
  restart_host, restart, restart_stop_timeout,
}

-- What is left of a drain state after a restart with this result.
abbrev pub after_result : DrainState → Result (Unit {0}) → Option DrainState
after_result st (ok _) = none
after_result st (err e) =
    if leb max_restart_attempts (st.attempts + 1)
    then none
    else some (record st { attempts = st.attempts + 1 })

-- The rest of the map is as it was, and the host's entry is `t`.
abbrev pub OnlyHost : String → Option DrainState → Orchestrator → Orchestrator → Type 0
OnlyHost host t o o' =
    (h : String)
    → lookup h o'.drain_targets ≡ (if str_eq host h then t else lookup h o.drain_targets)

lookup-record_restart_failure :
    (host h : String) (st : DrainState) (e : Error) (o : Orchestrator)
    → lookup host o.drain_targets ≡ some st
    → lookup h (record_restart_failure host o).drain_targets
      ≡ (if str_eq host h then after_result st (err e) else lookup h o.drain_targets)
unfolding record_restart_failure
lookup-record_restart_failure host h st e o here = rw here (
    ground (
      arith,
      lookup-delete host h o.drain_targets,
      lookup-insert host h (record st { attempts = st.attempts + 1 }) o.drain_targets,
    ))

module _ (env : Outside) (host : String) where
  lookup-restart_host :
      (st : DrainState) (o : Orchestrator)
      → lookup host o.drain_targets ≡ some st
      → OnlyHost host
          (after_result st (env.restart_host o.calls host st.restart_params))
          o
          (restart_host env host st o)
  unfolding restart_host
  lookup-restart_host st o here h =
      elim (Result-cases (env.restart_host o.calls host st.restart_params)) [
        | inl (u, done) ↦ rw done (lookup-delete host h o.drain_targets)
        | inr (e, failed) ↦ rw failed (
            lookup-record_restart_failure host h st e
              (record o {
                session_users =
                    env.others (restart host st.restart_params restart_stop_timeout ∷ o.calls)
                      o.session_users;
                calls = restart host st.restart_params restart_stop_timeout ∷ o.calls;
              })
              here)
      ]

  calls-restart_host :
      (st : DrainState) (o : Orchestrator)
      → (restart_host env host st o).calls
        ≡ restart host st.restart_params restart_stop_timeout ∷ o.calls
  unfolding restart_host record_restart_failure
  calls-restart_host st o = ground arith

  drain_targets-drain_session :
      (session : String) (o : Orchestrator)
      → (drain_session env host session o).1.drain_targets ≡ o.drain_targets
  unfolding drain_session set_user_count forget_session
  drain_targets-drain_session session o = ground arith

  drain_targets-drain_sessions :
      (ss : List Session) (n : ℕ) (o : Orchestrator)
      → (drain_sessions env host ss n o).1.drain_targets ≡ o.drain_targets
  unfolding drain_sessions
  drain_targets-drain_sessions [] n o = refl
  drain_targets-drain_sessions (s ∷ ss) n o =
      let (stays, o') = drain_session env host s.id o in
      drain_targets-drain_sessions ss (if stays then n + 1 else n) o'
      ∙ drain_targets-drain_session s.id o

  -- A session's turn only adds calls.
  length-drain_session :
      (session : String) (o : Orchestrator)
      → length o.calls ≤ length (drain_session env host session o).1.calls
  unfolding drain_session set_user_count forget_session
  length-drain_session session o = ground arith

  length-drain_sessions :
      (ss : List Session) (n : ℕ) (o : Orchestrator)
      → length o.calls ≤ length (drain_sessions env host ss n o).1.calls
  unfolding drain_sessions
  length-drain_sessions [] n o = omega arith
  length-drain_sessions (s ∷ ss) n o =
      let (stays, o') = drain_session env host s.id o in
      let first = length-drain_session s.id o in
      let rest = length-drain_sessions ss (if stays then n + 1 else n) o' in omega arith

  -- What a reconcile can leave of a host's drain state: all of it, or what the answer of a restart
  -- leaves. That restart is the newest call, asked for with the host's snapshot after the calls that
  -- were there before.
  pub data Left (st : DrainState) (o o' : Orchestrator) (t : Option DrainState) : Type 0 where
    kept : t ≡ some st → Left st o o' t
    tried :
        (cs : List Call)
        → length o.calls ≤ length cs
        → o'.calls ≡ restart host st.restart_params restart_stop_timeout ∷ cs
        → t ≡ after_result st (env.restart_host cs host st.restart_params)
        → Left st o o' t

  later_start :
      {st : DrainState} {o o1 o' : Orchestrator} {t : Option DrainState}
      → length o.calls ≤ length o1.calls
      → Left st o1 o' t
      → Left st o o' t
  later_start le (kept e) = kept e
  later_start le (tried cs longer newest e) = tried cs (omega arith) newest e

  pub record Reconciled (st : DrainState) (o o' : Orchestrator) : Type 0 where
    pub outcome : Left st o o' (lookup host o'.drain_targets)
    pub elsewhere :
        (h : String)
        → lookup h o'.drain_targets
          ≡ (if str_eq host h then lookup host o'.drain_targets else lookup h o.drain_targets)

  after_drain-Reconciled :
      (st : DrainState) (n : ℕ) (o : Orchestrator)
      → lookup host o.drain_targets ≡ some st
      → Reconciled st o (after_drain env host st n o)
  unfolding after_drain
  after_drain-Reconciled st zero o here = record {
    outcome =
        tried o.calls (omega arith) (calls-restart_host st o)
          (lookup-restart_host st o here host ∙ rw (eq_refl host));
    elsewhere = λ h.
        ground (
          arith,
          eq_refl host,
          lookup-restart_host st o here h,
          lookup-restart_host st o here host,
        );
  }
  after_drain-Reconciled st (suc n) o here = record {
    outcome = kept here;
    elsewhere = λ h. ground (arith, eq_iff host h);
  }

  -- The orchestrator between the listing of the sessions and the loop.
  listed : Orchestrator → Orchestrator
  listed o = record o {
    session_users = env.others (list_running ∷ o.calls) o.session_users;
    calls = list_running ∷ o.calls;
  }

  reconcile_listed-Reconciled :
      (st : DrainState) (r : Result (List Session)) (o : Orchestrator)
      → lookup host o.drain_targets ≡ some st
      → Reconciled st o (reconcile_listed env host st r o)
  unfolding reconcile_listed
  reconcile_listed-Reconciled st (err e) o here = record {
    outcome = kept here;
    elsewhere = λ h. ground (arith, eq_iff host h);
  }
  reconcile_listed-Reconciled st (ok all) o here =
      let ss = sessions_on_host host all in
      let (remaining, o') = drain_sessions env host ss 0 o in
      let same : o'.drain_targets ≡ o.drain_targets = drain_targets-drain_sessions ss 0 o in
      let done = after_drain-Reconciled st remaining o' (ap (lookup host) same ∙ here) in
      record {
        outcome = later_start (length-drain_sessions ss 0 o) done.outcome;
        elsewhere = λ h. ground (arith, done.elsewhere h, ap (lookup h) same);
      }

  reconcile_draining-Reconciled :
      (st : DrainState) (o : Orchestrator)
      → lookup host o.drain_targets ≡ some st
      → Reconciled st o (reconcile_draining env host (some st) o)
  unfolding reconcile_draining
  reconcile_draining-Reconciled st o here =
      let done =
        reconcile_listed-Reconciled st (env.running_sessions o.calls)
          (record o {
            session_users = env.others (list_running ∷ o.calls) o.session_users;
            calls = list_running ∷ o.calls;
          })
          here in
      record { outcome = later_start (omega arith) done.outcome; elsewhere = done.elsewhere }

  -- A reconcile of a draining host leaves its drain state as it is, or its newest call is a restart
  -- of the host with its snapshot: the state is dropped if that restart is answered with success or
  -- was the fifth failing one, and else counts one more failing restart. The snapshot and the target
  -- stay, and so do the drain states of all other hosts.
  pub reconcile_host-Reconciled :
      (st : DrainState) (o : Orchestrator)
      → lookup host o.drain_targets ≡ some st
      → Reconciled st o (reconcile_host env host o)
  unfolding reconcile_host
  reconcile_host-Reconciled st o here = rw here (reconcile_draining-Reconciled st o here)

  -- A host that is not draining is left alone.
  pub reconcile_host-not_draining :
      (o : Orchestrator) → lookup host o.drain_targets ≡ none → reconcile_host env host o ≡ o
  unfolding reconcile_host reconcile_draining
  reconcile_host-not_draining o absent = rw absent

  -- `n` reconciles in a row.
  abbrev pub reconcile_times : ℕ → Orchestrator → Orchestrator
  reconcile_times zero o = o
  reconcile_times (suc n) o = reconcile_times n (reconcile_host env host o)

  module _
      (idle : (cs : List Call)
        → (all : List Session) × (env.running_sessions cs ≡ ok all)
          × (sessions_on_host host all ≡ []))
      (broken : (cs : List Call) (p : StartParams)
        → (e : Error) × (env.restart_host cs host p ≡ err e)) where
    reconcile_broken :
        (st : DrainState) (o : Orchestrator)
        → lookup host o.drain_targets ≡ some st
        → lookup host (reconcile_host env host o).drain_targets ≡ (
            if leb max_restart_attempts (st.attempts + 1)
            then none
            else some (record st { attempts = st.attempts + 1 }))
    unfolding reconcile_host reconcile_draining reconcile_listed drain_sessions after_drain listed
    reconcile_broken st o here =
        let (all, lists, none_here) = idle o.calls in
        let (e, fails) = broken (list_running ∷ o.calls) st.restart_params in
        rw here (
          rw lists
            (rw none_here (lookup-restart_host st (listed o) here host ∙ rw (fails, eq_refl host))))

    -- A host with no session whose restarts all fail is given up, and so takes sessions again,
    -- after exactly the attempts that are left of five.
    pub gives_up :
        (n : ℕ) (st : DrainState) (o : Orchestrator)
        → lookup host o.drain_targets ≡ some st
        → st.attempts + suc n ≡ max_restart_attempts
        → (is_host_draining host (reconcile_times n o) ≡ true)
          × (is_host_draining host (reconcile_times (suc n) o) ≡ false)
    unfolding is_host_draining
    gives_up zero st o here left = (rw here, ground (arith, reconcile_broken st o here))
    gives_up (suc n) st o here left =
        gives_up n (record st { attempts = st.attempts + 1 }) (reconcile_host env host o)
          (ground (arith, reconcile_broken st o here)) (omega arith)
