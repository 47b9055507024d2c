-- ===== src/Upgrade/Restarts.antt =====
-- worker/host_upgrade_orchestrator.go: when a reconcile restarts the host, and what it leaves.
use baru_reso_headless_contr.Prelude.{Bool-cases, inl, inr, eq_iff}
use baru_reso_headless_contr.Prelude.{
  ℕ, ◌+◌, ◌≤◌, ◌≡◌, refl, sym, ◌∙◌, Bool, true, false, ◌||◌, ◌&&◌, Option, none, some, List, [],
  ◌∷◌, String, str_eq, Result, ok, err, arith, lookup, if◌then◌else◌, All, subst,
}
use baru_reso_headless_contr.Domain.{Session}
use text.Mathlib.TextPositions.{eq_refl}
use baru_reso_headless_contr.Upgrade.{
  Orchestrator, DrainState, Outside, Call, list_running, stop, restart, set_user_count,
  forget_session, drain_session, drain_sessions, after_drain, sessions_on_host,
  record_restart_failure, reconcile_host, reconcile_listed, reconcile_draining,
}

abbrev pub succeeded : Result (Unit {0}) → Bool
succeeded (err e) = false
succeeded (ok u) = true

module _ (env : Outside) where
  -- Since the sessions were last listed, `session` was stopped with success.
  abbrev pub stopped_in_pass : String → List Call → Bool
  stopped_in_pass session [] = false
  stopped_in_pass session (list_running ∷ cs) = false
  stopped_in_pass session (stop s ∷ cs) =
      (str_eq s session && succeeded (env.stop_session cs s)) || stopped_in_pass session cs
  stopped_in_pass session (_ ∷ cs) = stopped_in_pass session cs

  -- What the last listing of the running sessions returned.
  abbrev pub last_listing : List Call → Result (List Session)
  last_listing [] = ok []
  last_listing (list_running ∷ cs) = env.running_sessions cs
  last_listing (_ ∷ cs) = last_listing cs

  abbrev pub AllStopped : String → Result (List Session) → List Call → Type 0
  AllStopped host (err e) cs = ⊥
  AllStopped host (ok all) cs =
      All (λ (s : Session). s.host_id ≡ host → stopped_in_pass s.id cs ≡ true) all

  among_listed :
      (host : String) (P : Session → Type 0) (all : List Session)
      → All P (sessions_on_host host all)
      → All (λ (s : Session). s.host_id ≡ host → P s) all
  unfolding sessions_on_host
  among_listed host P [] h = tt
  among_listed host P (s ∷ ss) h = elim (Bool-cases (str_eq s.host_id host)) [
    | inl mine ↦ let h' = rw mine at h in (λ _. h'.0, among_listed host P ss h'.1)
    | inr other ↦ (
      λ same. absurd (ground (arith, other, eq_iff s.host_id host)),
      among_listed host P ss (rw other at h),
    )
  ]

  -- Before each restart of a host, all its sessions of the last listing were stopped.
  abbrev pub RestartsDrained : List Call → Type 0
  RestartsDrained [] = Unit
  RestartsDrained (restart host p t ∷ cs) =
      AllStopped host (last_listing cs) cs × RestartsDrained cs
  RestartsDrained (_ ∷ cs) = RestartsDrained cs

  drain_session-keeps_stopped :
      (host session other : String) (o : Orchestrator)
      → stopped_in_pass other o.calls ≡ true
      → stopped_in_pass other (drain_session env host session o).1.calls ≡ true
  unfolding drain_session set_user_count forget_session
  drain_session-keeps_stopped host session other o h = ground arith

  drain_session-stops :
      (host session : String) (o : Orchestrator)
      → (drain_session env host session o).0 ≡ false
      → stopped_in_pass session (drain_session env host session o).1.calls ≡ true
  unfolding drain_session set_user_count forget_session
  drain_session-stops host session o h = ground (arith, eq_refl session)

  pub last_listing-drain_session :
      (host session : String) (o : Orchestrator)
      → last_listing (drain_session env host session o).1.calls ≡ last_listing o.calls
  unfolding drain_session set_user_count forget_session
  last_listing-drain_session host session o = ground arith

  drain_session-RestartsDrained :
      (host session : String) (o : Orchestrator)
      → RestartsDrained o.calls
      → RestartsDrained (drain_session env host session o).1.calls
  unfolding drain_session set_user_count forget_session
  drain_session-RestartsDrained host session o h = ground arith

  drain_sessions-keeps_stopped :
      (host other : String) (ss : List Session) (n : ℕ) (o : Orchestrator)
      → stopped_in_pass other o.calls ≡ true
      → stopped_in_pass other (drain_sessions env host ss n o).1.calls ≡ true
  unfolding drain_sessions
  drain_sessions-keeps_stopped host other [] n o h = h
  drain_sessions-keeps_stopped host other (s ∷ ss) n o h =
      let (stays, o') = drain_session env host s.id o in
      drain_sessions-keeps_stopped host other ss (if stays then n + 1 else n) o'
        (drain_session-keeps_stopped host s.id other o h)

  last_listing-drain_sessions :
      (host : String) (ss : List Session) (n : ℕ) (o : Orchestrator)
      → last_listing (drain_sessions env host ss n o).1.calls ≡ last_listing o.calls
  unfolding drain_sessions
  last_listing-drain_sessions host [] n o = refl
  last_listing-drain_sessions host (s ∷ ss) n o =
      let (stays, o') = drain_session env host s.id o in
      last_listing-drain_sessions host ss (if stays then n + 1 else n) o'
      ∙ last_listing-drain_session host s.id o

  drain_sessions-RestartsDrained :
      (host : String) (ss : List Session) (n : ℕ) (o : Orchestrator)
      → RestartsDrained o.calls
      → RestartsDrained (drain_sessions env host ss n o).1.calls
  unfolding drain_sessions
  drain_sessions-RestartsDrained host [] n o h = h
  drain_sessions-RestartsDrained host (s ∷ ss) n o h =
      let (stays, o') = drain_session env host s.id o in
      drain_sessions-RestartsDrained host ss (if stays then n + 1 else n) o'
        (drain_session-RestartsDrained host s.id o h)

  drain_sessions-counts :
      (host : String) (ss : List Session) (n : ℕ) (o : Orchestrator)
      → n ≤ (drain_sessions env host ss n o).0
  unfolding drain_sessions
  drain_sessions-counts host [] n o = omega arith
  drain_sessions-counts host (s ∷ ss) n o =
      let (stays, o') = drain_session env host s.id o in
      ground (arith, drain_sessions-counts host ss (if stays then n + 1 else n) o')

  abbrev StoppedAfter : String → List Session → ℕ → Orchestrator → List Session → Type 0
  StoppedAfter host ss n o =
      All (λ (s : Session). stopped_in_pass s.id (drain_sessions env host ss n o).1.calls ≡ true)

  all_stopped_step :
      (host : String) (s : Session) (ss : List Session) (n : ℕ) (stays : Bool) (o : Orchestrator)
      → (stays ≡ false → stopped_in_pass s.id o.calls ≡ true)
      → ((k : ℕ) → (drain_sessions env host ss k o).0 ≤ k → StoppedAfter host ss k o ss)
      → (drain_sessions env host ss (if stays then n + 1 else n) o).0 ≤ n
      → StoppedAfter host ss (if stays then n + 1 else n) o (s ∷ ss)
  all_stopped_step host s ss n true o stopped ih h =
      absurd (omega (arith, drain_sessions-counts host ss (n + 1) o))
  all_stopped_step host s ss n false o stopped ih h =
      (drain_sessions-keeps_stopped host s.id ss n o (stopped refl), ih n h)

  drain_sessions-all_stopped :
      (host : String) (ss : List Session) (n : ℕ) (o : Orchestrator)
      → (drain_sessions env host ss n o).0 ≤ n
      → StoppedAfter host ss n o ss
  unfolding drain_sessions
  drain_sessions-all_stopped host [] n o h = tt
  drain_sessions-all_stopped host (s ∷ ss) n o h =
      let (stays, o') = drain_session env host s.id o in
      all_stopped_step host s ss n stays o' (drain_session-stops host s.id o)
        (λ k. drain_sessions-all_stopped host ss k o') h

  after_drain-RestartsDrained :
      (host : String) (st : DrainState) (n : ℕ) (o : Orchestrator)
      → (n ≡ 0 → AllStopped host (last_listing o.calls) o.calls)
      → RestartsDrained o.calls
      → RestartsDrained (after_drain env host st n o).calls
  unfolding after_drain record_restart_failure
  after_drain-RestartsDrained host st n o drained h = ground (arith, drained)

  reconcile_listed-RestartsDrained :
      (host : String) (st : DrainState) (r : Result (List Session)) (o : Orchestrator)
      → last_listing o.calls ≡ r
      → RestartsDrained o.calls
      → RestartsDrained (reconcile_listed env host st r o).calls
  unfolding reconcile_listed
  reconcile_listed-RestartsDrained host st (err e) o listed h = h
  reconcile_listed-RestartsDrained host st (ok all) o listed h =
      let ss = sessions_on_host host all in
      let (remaining, o') = drain_sessions env host ss 0 o in
      after_drain-RestartsDrained host st remaining o'
        (λ none_left.
          subst (λ r. AllStopped host r o'.calls)
            (sym (last_listing-drain_sessions host ss 0 o ∙ listed))
            (among_listed host (λ s. stopped_in_pass s.id o'.calls ≡ true) all
              (drain_sessions-all_stopped host ss 0 o (omega arith))))
        (drain_sessions-RestartsDrained host ss 0 o h)

  reconcile_draining-RestartsDrained :
      (host : String) (t : Option DrainState) (o : Orchestrator)
      → RestartsDrained o.calls
      → RestartsDrained (reconcile_draining env host t o).calls
  unfolding reconcile_draining
  reconcile_draining-RestartsDrained host none o h = h
  reconcile_draining-RestartsDrained host (some st) o h =
      reconcile_listed-RestartsDrained host st (env.running_sessions o.calls)
        (record o {
          session_users = env.others (list_running ∷ o.calls) o.session_users;
          calls = list_running ∷ o.calls;
        })
        refl h

  -- Whenever a reconcile restarts a host, every session that the last listing had running on that
  -- host was stopped with success since the listing.
  pub reconcile_host-RestartsDrained :
      (host : String) (o : Orchestrator)
      → RestartsDrained o.calls
      → RestartsDrained (reconcile_host env host o).calls
  unfolding reconcile_host
  reconcile_host-RestartsDrained host o h =
      reconcile_draining-RestartsDrained host (lookup host o.drain_targets) o h
