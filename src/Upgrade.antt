-- ===== src/Upgrade.antt =====
-- worker/host_upgrade_orchestrator.go: rolls the hosts that opted in onto a new container image.
-- `Outside` is what the orchestrator calls: its answers depend on all calls made so far, so they
-- may change between two calls. While a call runs, `mu` is free and other goroutines may change the
-- cache of user counts: `others` is what they do to it. `reconcileHost` holds the host's own lock,
-- so nobody else changes the host's entry of `drainTargets`. The maps of a `*drainState` pointer are
-- plain values here: only `recordRestartFailure` writes through the pointer, and it stores back.
pub mod Events
pub mod Stops
pub mod Restarts
pub mod Counts
pub mod Attempts
use baru_reso_headless_contr.Prelude.{
  ℕ, suc, ◌+◌, Bool, true, false, Option, none, some, List, [], ◌∷◌, String, str_eq, leb,
  if◌then◌else◌, Map, lookup, insert, delete, is_some, Result, ok, err, other,
}
use baru_reso_headless_contr.Prelude.Int32.{ℤ, pos, Delta, add_delta, max_zero, is_positive}
use baru_reso_headless_contr.Prelude.Exec.{resume, Exec, return, update, ◌>>=◌, ◌>>◌}
use baru_reso_headless_contr.Domain.{HeadlessHost, HeadlessAccount, Session, AutoUpdatePolicy}

pub record StartParams : Type 0 where
  pub name : String
  pub container_image_tag : String
  pub startup_config : String
  pub headless_account : HeadlessAccount
  pub auto_update_policy : AutoUpdatePolicy
  pub memo : String

pub record DrainState : Type 0 where
  pub target_tag : String
  pub restart_params : StartParams
  pub attempts : ℕ

-- A call that leaves the orchestrator, newest first in `calls`.
pub data Call : Type 0 where
  list_hosts list_running : Call
  dial ask_config list_sessions : String → Call
  ask_account : String → Call
  get_session : String → String → Call
  stop : String → Call
  restart : String → StartParams → ℕ → Call

pub record Outside : Type 0 where
  pub list_all_hosts : List Call → Result (List HeadlessHost)
  pub rpc_client : List Call → String → Result (Unit {0})
  pub startup_config : List Call → String → Result (Option String)
  pub account : List Call → String → Result HeadlessAccount
  pub sessions_of : List Call → String → Result (List (String × ℤ))
  pub users_of : List Call → String → String → Result ℤ
  pub running_sessions : List Call → Result (List Session)
  pub stop_session : List Call → String → Result (Unit {0})
  pub restart_host : List Call → String → StartParams → Result (Unit {0})
  pub others : List Call → Map (Map ℤ) → Map (Map ℤ)

pub record Orchestrator : Type 0 where
  pub drain_targets : Map DrainState
  pub session_users : Map (Map ℤ)
  pub stopper_wired : Bool
  pub calls : List Call

abbrev pub restart_stop_timeout : ℕ
restart_stop_timeout = 180

abbrev pub max_restart_attempts : ℕ
max_restart_attempts = 5

abbrev Act : Type 0 → Type 0
Act = Exec Orchestrator

pub is_host_draining : String → Orchestrator → Bool
is_host_draining host o = is_some (lookup host o.drain_targets)

abbrev counts_of : Option (Map ℤ) → Map ℤ
counts_of none = []
counts_of (some m) = m

abbrev count_or_zero : Option ℤ → ℤ
count_or_zero none = pos 0
count_or_zero (some n) = n

set_user_count : String → String → ℤ → Orchestrator → Orchestrator
set_user_count host session n o = record o {
  session_users =
      insert host (insert session n (counts_of (lookup host o.session_users))) o.session_users;
}

pub bump_user_count : String → String → Delta → Orchestrator → Orchestrator
unfolding set_user_count
bump_user_count host session delta o =
    if str_eq host ""
    then o
    else if str_eq session ""
    then o
    else set_user_count host session
        (max_zero (
          add_delta (count_or_zero (lookup session (counts_of (lookup host o.session_users))))
            delta))
        o

-- `if len(hostMap) == 0 { delete(o.sessionUsers, hostID) }`
abbrev store_unless_empty : String → Map ℤ → Map (Map ℤ) → Map (Map ℤ)
store_unless_empty host [] users = delete host users
store_unless_empty host (c ∷ m) users = insert host (c ∷ m) users

abbrev forget_in : String → String → Option (Map ℤ) → Map (Map ℤ) → Map (Map ℤ)
forget_in host session none users = users
forget_in host session (some m) users = store_unless_empty host (delete session m) users

pub forget_session : String → String → Orchestrator → Orchestrator
forget_session host session o = record o {
  session_users = forget_in host session (lookup host o.session_users) o.session_users;
}

abbrev retire : String → Orchestrator → Orchestrator
retire host o = record o {
  drain_targets = delete host o.drain_targets;
  session_users = delete host o.session_users;
}

abbrev record_failure_of : String → Option DrainState → Orchestrator → Orchestrator
record_failure_of host none o = o
record_failure_of host (some st) o =
    if leb max_restart_attempts (st.attempts + 1) then retire host o else record o {
      drain_targets = insert host (record st { attempts = st.attempts + 1 }) o.drain_targets;
    }

pub record_restart_failure : String → Orchestrator → Orchestrator
record_restart_failure host o = record_failure_of host (lookup host o.drain_targets) o

-- The sessions of a list that the host owns.
pub sessions_on_host : String → List Session → List Session
sessions_on_host host [] = []
sessions_on_host host (s ∷ ss) =
    let rest = sessions_on_host host ss in if str_eq s.host_id host then s ∷ rest else rest

module _ (env : Outside) where
  -- Makes a call: it is noted, and other goroutines run meanwhile.
  ask : {A : Type 0} → Call → (List Call → Result A) → Act A
  ask c answer o = (
    answer o.calls,
    record o { session_users = env.others (c ∷ o.calls) o.session_users; calls = c ∷ o.calls },
  )

  fetch_user_count_rpc : String → String → Act ℤ
  unfolding resume ask
  fetch_user_count_rpc host session = do
    ask (dial host) (λ cs. env.rpc_client cs host)
    n ← ask (get_session host session) (λ cs. env.users_of cs host session)
    update (set_user_count host session n)
    return n

  -- A cached count is trusted only if it is positive.
  user_count_for_session : String → String → Act ℤ
  unfolding fetch_user_count_rpc
  user_count_for_session host session o =
      let cached = lookup session (counts_of (lookup host o.session_users)) in
      if is_positive (count_or_zero cached)
      then (ok (count_or_zero cached), o)
      else fetch_user_count_rpc host session o

  stop_session : String → Act (Unit {0})
  unfolding ask
  stop_session session o =
      if o.stopper_wired
      then ask (stop session) (λ cs. env.stop_session cs session) o
      else (err (other "upgrade-orchestrator: SessionStopper not wired"), o)

  after_stop : String → String → Result (Unit {0}) → Orchestrator → Bool × Orchestrator
  after_stop host session (err e) o = (true, o)
  after_stop host session (ok _) o = (false, forget_session host session o)

  after_count : String → String → Result ℤ → Orchestrator → Bool × Orchestrator
  unfolding after_stop stop_session
  after_count host session (err e) o = (true, o)
  after_count host session (ok n) o =
      if is_positive n
      then (true, o)
      else let (r, o') = stop_session session o in after_stop host session r o'

  -- The body of the loop over the sessions: does the session remain?
  pub drain_session : String → String → Orchestrator → Bool × Orchestrator
  unfolding after_count user_count_for_session
  drain_session host session o =
      let (r, o') = user_count_for_session host session o in after_count host session r o'

  -- The loop, with the number of sessions that remain.
  drain_sessions : String → List Session → ℕ → Orchestrator → ℕ × Orchestrator
  drain_sessions host [] remaining o = (remaining, o)
  drain_sessions host (s ∷ ss) remaining o =
      let (stays, o') = drain_session host s.id o in
      drain_sessions host ss (if stays then remaining + 1 else remaining) o'

  after_restart : String → Result (Unit {0}) → Orchestrator → Orchestrator
  after_restart host (ok _) o = retire host o
  after_restart host (err e) o = record_restart_failure host o

  restart_host : String → DrainState → Orchestrator → Orchestrator
  unfolding ask after_restart
  restart_host host st o =
      let (r, o') =
        ask (restart host st.restart_params restart_stop_timeout)
          (λ cs. env.restart_host cs host st.restart_params) o in
      after_restart host r o'

  after_drain : String → DrainState → ℕ → Orchestrator → Orchestrator
  unfolding restart_host
  after_drain host st ℕ.zero o = restart_host host st o
  after_drain host st (suc n) o = o

  reconcile_listed : String → DrainState → Result (List Session) → Orchestrator → Orchestrator
  reconcile_listed host st (err e) o = o
  reconcile_listed host st (ok all) o =
      let (remaining, o') = drain_sessions host (sessions_on_host host all) 0 o in
      after_drain host st remaining o'

  reconcile_draining : String → Option DrainState → Orchestrator → Orchestrator
  unfolding reconcile_listed ask
  reconcile_draining host none o = o
  reconcile_draining host (some st) o =
      let (r, o') = ask list_running env.running_sessions o in reconcile_listed host st r o'

  pub reconcile_host : String → Orchestrator → Orchestrator
  unfolding reconcile_draining
  reconcile_host host o = reconcile_draining host (lookup host o.drain_targets) o
