-- ===== src/Upgrade/Events/Draining.antt =====
-- worker/host_upgrade_orchestrator.go: which hosts come under `drainTargets`, and that what was
-- captured there at enrollment is not changed by anything that happens later.
use baru_reso_headless_contr.Prelude.{
  ◌<◌, ◌≤◌, ◌≡◌, refl, sym, ◌∙◌, ap, Bool, true, false, Option, some, List, [], ◌∷◌, String, str_eq,
  Result, ok, err, arith, lookup, if◌then◌else◌, Option-cases, inl, inr, Bool-cases, subst,
  str_eq→eq, delete, keys,
}
use baru_reso_headless_contr.Prelude.Int32.{Delta, plus_one, minus_one}
use baru_reso_headless_contr.Upgrade.{
  Orchestrator, DrainState, Outside, is_host_draining, reconcile_host, bump_user_count,
  forget_session, max_restart_attempts,
}
use baru_reso_headless_contr.Upgrade.Attempts.{
  after_result, Left, kept, tried, reconcile_host-Reconciled, reconcile_host-not_draining,
}
use baru_reso_headless_contr.Upgrade.Events.{
  HostEvent, user_joined, user_left, session_ended, other_event, seed_session_user_cache,
  reconcile_if_draining, handle_host_event, handle_stream_reset, reconcile_each,
  reconcile_all_draining,
}

-- `st'` is `st` with perhaps more attempts, but never five.
pub record Later (st st' : DrainState) : Type 0 where
  pub same_target : st'.target_tag ≡ st.target_tag
  pub same_params : st'.restart_params ≡ st.restart_params
  pub more_attempts : st.attempts ≤ st'.attempts
  pub below_max : st.attempts < max_restart_attempts → st'.attempts < max_restart_attempts

-- The host drained in `o` with the same snapshot.
abbrev pub WasDraining : Orchestrator → String → DrainState → Type 0
WasDraining o h st' = (st : DrainState) × (lookup h o.drain_targets ≡ some st) × Later st st'

-- Every host that drains in `o'` did so in `o`, with the same snapshot.
abbrev pub Frozen : Orchestrator → Orchestrator → Type 0
Frozen o o' =
    (h : String) (st' : DrainState) → lookup h o'.drain_targets ≡ some st' → WasDraining o h st'

pub Later-refl : (st : DrainState) → Later st st
Later-refl st = record {
  same_target = refl;
  same_params = refl;
  more_attempts = omega arith;
  below_max = λ h. h;
}

pub Frozen-same : (o o' : Orchestrator) → o'.drain_targets ≡ o.drain_targets → Frozen o o'
Frozen-same o o' same h st' here = (st', sym (ap (lookup h) same) ∙ here, Later-refl st')

pub Later-trans : {a b c : DrainState} → Later a b → Later b c → Later a c
Later-trans p q = record {
  same_target = q.same_target ∙ p.same_target;
  same_params = q.same_params ∙ p.same_params;
  more_attempts = omega arith;
  below_max = λ h. q.below_max (p.below_max h);
}

Frozen-trans : (a b c : Orchestrator) → Frozen a b → Frozen b c → Frozen a c
Frozen-trans a b c p q h st' here =
    let (st, there, later) = q h st' here in
    let (st0, before, earlier) = p h st there in (st0, before, Later-trans earlier later)

after_result-Later :
    (st st' : DrainState) (r : Result (Unit {0})) → after_result st r ≡ some st' → Later st st'
after_result-Later st st' (ok u) h = cc
after_result-Later st st' (err e) h = ground arith

module _ (env : Outside) where
  Left-Later :
      (host : String) {o o' : Orchestrator} (st st' : DrainState) (t : Option DrainState)
      → Left env host st o o' t
      → t ≡ some st'
      → Later st st'
  Left-Later host st st' t (kept e) here = ground arith
  Left-Later host st st' t (tried cs longer newest e) here =
      after_result-Later st st' (env.restart_host cs host st.restart_params) (sym e ∙ here)

  reconcile_draining-Frozen :
      (host : String) (st : DrainState) (o : Orchestrator)
      → lookup host o.drain_targets ≡ some st
      → Frozen o (reconcile_host env host o)
  reconcile_draining-Frozen host st o drains h st' here =
      let left = reconcile_host-Reconciled env host st o drains in
      elim (Bool-cases (str_eq host h)) [
        | inl same ↦
            let e : host ≡ h = str_eq→eq host h same in
            (
              st,
              subst (λ k. lookup k o.drain_targets ≡ some st) e drains,
              Left-Later host st st' (lookup host (reconcile_host env host o).drain_targets)
                  left.outcome
                  (subst (λ k. lookup k (reconcile_host env host o).drain_targets ≡ some st')
                    (sym e) here),
            )
        | inr differs ↦ (st', ground (arith, left.elsewhere h), Later-refl st')
      ]

  reconcile_host-Frozen : (host : String) (o : Orchestrator) → Frozen o (reconcile_host env host o)
  reconcile_host-Frozen host o = elim (Option-cases (lookup host o.drain_targets)) [
    | inl absent ↦
        Frozen-same o (reconcile_host env host o) (
          ap (λ (p : Orchestrator). p.drain_targets)
            (reconcile_host-not_draining env host o absent))
    | inr (st, drains) ↦ reconcile_draining-Frozen host st o drains
  ]

  reconcile_if_draining-Frozen :
      (host : String) (o : Orchestrator) → Frozen o (reconcile_if_draining env host o)
  unfolding reconcile_if_draining
  reconcile_if_draining-Frozen host o = elim (Bool-cases (is_host_draining host o)) [
    | inl drains ↦ rw drains (reconcile_host-Frozen host o)
    | inr absent ↦ rw absent (Frozen-same o o refl)
  ]

  drain_targets-seed :
      (host : String) (o : Orchestrator)
      → (seed_session_user_cache env host o).1.drain_targets ≡ o.drain_targets
  unfolding seed_session_user_cache
  drain_targets-seed host o = ground arith

  pub seed_reconcile-Frozen :
      (host : String) (o p : Orchestrator)
      → p.drain_targets ≡ o.drain_targets
      → Frozen o (reconcile_host env host (seed_session_user_cache env host p).1)
  seed_reconcile-Frozen host o p same =
      let o' = (seed_session_user_cache env host p).1 in
      Frozen-trans o o' (reconcile_host env host o')
        (Frozen-same o o' (drain_targets-seed host p ∙ same)) (reconcile_host-Frozen host o')

  after_cache-Frozen :
      (host : String) (o p : Orchestrator)
      → p.drain_targets ≡ o.drain_targets
      → Frozen o (reconcile_if_draining env host p)
  after_cache-Frozen host o p same =
      Frozen-trans o p (reconcile_if_draining env host p) (Frozen-same o p same)
        (reconcile_if_draining-Frozen host p)

  drain_targets-bump :
      (host s : String) (d : Delta) (o : Orchestrator)
      → (bump_user_count host s d o).drain_targets ≡ o.drain_targets
  unfolding bump_user_count
  drain_targets-bump host s d o = ground arith

  drain_targets-forget :
      (host s : String) (o : Orchestrator)
      → (forget_session host s o).drain_targets ≡ o.drain_targets
  unfolding forget_session
  drain_targets-forget host s o = refl

  -- No host event enters a host, and what was captured of a draining host stays as it was; its
  -- attempts only grow, and not to the limit.
  pub handle_host_event-Frozen :
      (host : String) (e : HostEvent) (o : Orchestrator) (h : String) (st' : DrainState)
      → lookup h (handle_host_event env host e o).drain_targets ≡ some st'
      → WasDraining o h st'
  unfolding handle_host_event
  handle_host_event-Frozen host (user_joined s) o =
      after_cache-Frozen host o (bump_user_count host s plus_one o)
        (drain_targets-bump host s plus_one o)
  handle_host_event-Frozen host (user_left s) o =
      after_cache-Frozen host o (bump_user_count host s minus_one o)
        (drain_targets-bump host s minus_one o)
  handle_host_event-Frozen host (session_ended s) o =
      after_cache-Frozen host o (forget_session host s o) (drain_targets-forget host s o)
  handle_host_event-Frozen host other_event o = Frozen-same o o refl

  wiped-Frozen :
      (host : String) (o wiped : Orchestrator) (drains : Bool)
      → wiped.drain_targets ≡ o.drain_targets
      → Frozen o (
          if drains
          then reconcile_host env host (seed_session_user_cache env host wiped).1
          else wiped)
  wiped-Frozen host o wiped true same = seed_reconcile-Frozen host o wiped same
  wiped-Frozen host o wiped false same = Frozen-same o wiped same

  -- No stream reset enters a host, and what was captured of a draining host stays as it was.
  pub handle_stream_reset-Frozen :
      (host : String) (o : Orchestrator) (h : String) (st' : DrainState)
      → lookup h (handle_stream_reset env host o).drain_targets ≡ some st'
      → WasDraining o h st'
  unfolding handle_stream_reset
  handle_stream_reset-Frozen host o =
      let wiped = record o { session_users = delete host o.session_users } in
      wiped-Frozen host o wiped (is_host_draining host wiped) refl

  reconcile_each-Frozen :
      (hosts : List String) (o : Orchestrator) → Frozen o (reconcile_each env hosts o)
  unfolding reconcile_each
  reconcile_each-Frozen [] o = Frozen-same o o refl
  reconcile_each-Frozen (host ∷ hosts) o =
      let o' = reconcile_host env host o in
      Frozen-trans o o' (reconcile_each env hosts o') (reconcile_host-Frozen host o)
        (reconcile_each-Frozen hosts o')

  -- The periodic pass enters no host, and what was captured of a draining host stays as it was.
  pub reconcile_all_draining-Frozen :
      (o : Orchestrator) (h : String) (st' : DrainState)
      → lookup h (reconcile_all_draining env o).drain_targets ≡ some st'
      → WasDraining o h st'
  unfolding reconcile_all_draining
  reconcile_all_draining-Frozen o = reconcile_each-Frozen (keys o.drain_targets) o
