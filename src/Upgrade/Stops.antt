-- ===== src/Upgrade/Stops.antt =====
-- worker/host_upgrade_orchestrator.go: which sessions a reconcile stops.
use baru_reso_headless_contr.Prelude.{
  In, here, there, All, inl, inr, Bool-cases, str_eq, str_eq→eq, refl, subst, sym,
}
use baru_reso_headless_contr.Upgrade.Restarts.{last_listing, last_listing-drain_session}
use baru_reso_headless_contr.Prelude.{
  ℕ, ◌+◌, ◌≡◌, Bool, true, false, Option, none, some, List, [], ◌∷◌, String, Result, ok, err, arith,
  lookup, if◌then◌else◌,
}
use baru_reso_headless_contr.Prelude.Int32.{ℤ, is_positive}
use baru_reso_headless_contr.Domain.{Session}
use baru_reso_headless_contr.Upgrade.{
  Orchestrator, DrainState, Outside, Call, get_session, list_running, stop, set_user_count,
  forget_session, drain_session, drain_sessions, after_drain, sessions_on_host,
  record_restart_failure, reconcile_host, reconcile_listed, reconcile_draining,
}

-- The container answered, and reported no user.
abbrev pub reports_empty : Result ℤ → Bool
reports_empty (err e) = false
reports_empty (ok n) = if is_positive n then false else true

-- A session of this id was listed on the host.
pub record ListedOn (host session : String) (listing : Result (List Session)) : Type 0 where
  pub all : List Session
  pub answered : listing ≡ ok all
  pub s : Session
  pub is_listed : In s all
  pub named : s.id ≡ session
  pub on_host : s.host_id ≡ host

sessions_on_host-ListedOn :
    (host : String) (all ss : List Session)
    → ((s : Session) → In s ss → In s all)
    → All (λ (s : Session). ListedOn host s.id (ok all)) (sessions_on_host host ss)
unfolding sessions_on_host
sessions_on_host-ListedOn host all [] part = tt
sessions_on_host-ListedOn host all (s ∷ ss) part =
    let rest = sessions_on_host-ListedOn host all ss (λ x at. part x (there at)) in
    elim (Bool-cases (str_eq s.host_id host)) [
      | inl mine ↦ rw mine (
        record {
          all = all;
          answered = refl;
          s = s;
          is_listed = part s here;
          named = refl;
          on_host = str_eq→eq s.host_id host mine;
        },
        rest,
      )
      | inr other ↦ rw other rest
    ]

module _ (env : Outside) where
  -- The newest call asked for this session, and the answer reported no user. It went to the
  -- container of the host that the session had in the last listing.
  abbrev pub Verified : String → List Call → Type 0
  Verified session (get_session h s ∷ cs) =
      (s ≡ session)
      × (reports_empty (env.users_of cs h s) ≡ true)
      × ListedOn h s (last_listing env cs)
  Verified session _ = ⊥

  -- Every stop in a list of calls comes directly after such an answer.
  abbrev pub StopsVerified : List Call → Type 0
  StopsVerified [] = Unit
  StopsVerified (stop s ∷ cs) = Verified s cs × StopsVerified cs
  StopsVerified (_ ∷ cs) = StopsVerified cs

  drain_session-StopsVerified :
      (host session : String) (o : Orchestrator)
      → ListedOn host session (last_listing env o.calls)
      → StopsVerified o.calls
      → StopsVerified (drain_session env host session o).1.calls
  unfolding drain_session set_user_count forget_session
  drain_session-StopsVerified host session o listed h = ground arith

  drain_sessions-StopsVerified :
      (host : String) (ss : List Session) (n : ℕ) (o : Orchestrator)
      → All (λ (s : Session). ListedOn host s.id (last_listing env o.calls)) ss
      → StopsVerified o.calls
      → StopsVerified (drain_sessions env host ss n o).1.calls
  unfolding drain_sessions
  drain_sessions-StopsVerified host [] n o listed h = h
  drain_sessions-StopsVerified host (s ∷ ss) n o listed h =
      let (stays, o') = drain_session env host s.id o in
      drain_sessions-StopsVerified host ss (if stays then n + 1 else n) o'
        (subst (λ r. All (λ (x : Session). ListedOn host x.id r) ss)
          (sym (last_listing-drain_session env host s.id o)) listed.1)
        (drain_session-StopsVerified host s.id o listed.0 h)

  after_drain-StopsVerified :
      (host : String) (st : DrainState) (n : ℕ) (o : Orchestrator)
      → StopsVerified o.calls
      → StopsVerified (after_drain env host st n o).calls
  unfolding after_drain record_restart_failure
  after_drain-StopsVerified host st n o h = ground arith

  reconcile_listed-StopsVerified :
      (host : String) (st : DrainState) (r : Result (List Session)) (o : Orchestrator)
      → last_listing env o.calls ≡ r
      → StopsVerified o.calls
      → StopsVerified (reconcile_listed env host st r o).calls
  unfolding reconcile_listed
  reconcile_listed-StopsVerified host st (err e) o listed h = h
  reconcile_listed-StopsVerified host st (ok all) o listed h =
      let (remaining, o') = drain_sessions env host (sessions_on_host host all) 0 o in
      after_drain-StopsVerified host st remaining o' (
        drain_sessions-StopsVerified host (sessions_on_host host all) 0 o
          (subst (λ r. All (λ (x : Session). ListedOn host x.id r) (sessions_on_host host all))
            (sym listed) (sessions_on_host-ListedOn host all all (λ x at. at)))
          h)

  reconcile_draining-StopsVerified :
      (host : String) (t : Option DrainState) (o : Orchestrator)
      → StopsVerified o.calls
      → StopsVerified (reconcile_draining env host t o).calls
  unfolding reconcile_draining
  reconcile_draining-StopsVerified host none o h = h
  reconcile_draining-StopsVerified host (some st) o h =
      reconcile_listed-StopsVerified host st (env.running_sessions o.calls)
        (record o {
          session_users = env.others (list_running ∷ o.calls) o.session_users;
          calls = list_running ∷ o.calls;
        })
        refl h

  -- Every session that a reconcile stops was, in the call just before, reported empty by the
  -- container of its host itself, whatever the cached counts say and other goroutines write to them.
  pub reconcile_host-StopsVerified :
      (host : String) (o : Orchestrator)
      → StopsVerified o.calls
      → StopsVerified (reconcile_host env host o).calls
  unfolding reconcile_host
  reconcile_host-StopsVerified host o h =
      reconcile_draining-StopsVerified host (lookup host o.drain_targets) o h
