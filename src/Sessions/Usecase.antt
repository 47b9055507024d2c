-- ===== src/Sessions/Usecase.antt =====
-- usecase/session_usecase.go: the operations on one session. `Services` has what the usecase asks
-- the host repository, the drainer, a host's container and the clock; `calls` are the container
-- calls that start, stop or change something, newest first.
pub mod Starting
pub mod Stopping
pub mod Queries
pub mod Changes
pub mod Fixtures
mod Examples
use baru_reso_headless_contr.Prelude.{
  ℕ, ◌==◌, Bool, true, false, not, ◌||◌, Option, none, some, List, [], ◌∷◌, String, str_eq,
  if◌then◌else◌, Map, insert, delete, Result, ok, err, Error, other, db_error,
}
use baru_reso_headless_contr.Prelude.Exec.{Exec, query, check, resume, return, ◌>>=◌, ◌>>◌}
use baru_reso_headless_contr.Domain.{Session, SessionStatus, LiveSession, running, ended, crashed}
use baru_reso_headless_contr.Permission.Tables.{Db}
use baru_reso_headless_contr.Permission.Check.{
  Ctx, require_permission_for_group, require_all_permissions_for_group,
}
use baru_reso_headless_contr.Sessions.Cache.{MemoryCache, get, put, remove}
use baru_reso_headless_contr.Sessions.Rows.{
  Store, SessionQuery, upsert, update_status, delete_row, find_session, upsert_session,
  update_session_status, delete_session_row,
}

abbrev pub host_use : String
host_use = "host:use"

abbrev pub account_use : String
account_use = "account:use"

abbrev pub session_write : String
session_write = "session:write"

pub data HostCall : Type 0 where
  start_world : String → Map String → HostCall
  stop_world : String → String → HostCall
  change_world : String → String → HostCall
  stop_container kill_container : String → HostCall
  start_container restart_container : String → String → HostCall
  save_world : String → String → HostCall
  save_world_as : String → String → Bool → HostCall

-- The session that StartWorld opened.
pub record Opened : Type 0 where
  pub id : String
  pub started_at : ℕ
  pub live : LiveSession

-- `free_port` is the answer of `getFreeSessionPort`; `force_port` reads that field of the startup
-- parameters, 0 if it is not there, and `port_text` is the number as JSON.
pub record Services : Type 0 where
  pub is_host_draining : String → Bool
  pub host_group : String → Result String
  pub rpc_client : String → Result (Unit {0})
  pub free_port : Result ℕ
  pub force_port : Map String → ℕ
  pub port_text : ℕ → String
  pub open_world : String → Map String → Result Opened
  pub close_world : String → String → Result (Unit {0})
  pub live_session : String → String → Result (Option LiveSession)
  pub changed_world : String → String → Result (Unit {0})
  pub stopped_container : String → Result (Unit {0})
  pub killed_container : String → Result (Unit {0})
  pub saved_world : String → String → Result String
  pub saved_world_as : String → String → Bool → Result String
  pub now : ℕ

pub record World : Type 0 where
  pub cache : MemoryCache
  pub store : Store
  pub calls : List HostCall

-- A statement that the database may refuse.
unfoldable pub write : SessionQuery → (Store → Store) → Exec World (Unit {0})
write q change w =
    if w.store.down q then (err db_error, w) else (ok tt, record w { store = change w.store })

pub cached : (MemoryCache → MemoryCache) → Exec World (Unit {0})
cached change w = (ok tt, record w { cache = change w.cache })

-- A call of the container, whatever it answers.
unfoldable pub call_host : {A : Type 0} → HostCall → Result A → Exec World A
call_host c answer w = (answer, record w { calls = c ∷ w.calls })

abbrev pub load : String → World → Result Session
load id w =
    if w.store.down SessionQuery.get_session then err db_error else find_session id w.store.sessions

-- The container is given a free port, the row is not.
with_port : Services → Map String → Result ℕ → Result (Map String)
with_port svc params (err e) = err e
with_port svc params (ok port) =
    if port == 0 then ok params else ok (insert "forcePort" (svc.port_text port) params)

pub container_params : Services → Map String → Result (Map String)
unfolding with_port
container_params svc params =
    if svc.force_port params == 0 then with_port svc params svc.free_port else ok params

abbrev memo_or_empty : Option String → String
memo_or_empty none = ""
memo_or_empty (some m) = m

pub opened_session : String → String → Option String → Map String → Option String → Opened → Session
opened_session host group user params memo o = record {
  id = o.id;
  name = o.live.name;
  status = running;
  started_at = some o.started_at;
  created_by = user;
  ended_at = none;
  host_id = host;
  startup_parameters = params;
  auto_upgrade = false;
  memo = memo_or_empty memo;
  group_id = group;
}

-- `StartSession` from the call of the container on.
open_and_keep :
    Services
    → String
    → String
    → Option String
    → Map String
    → Option String
    → Map String
    → Exec World Session
unfolding write cached call_host opened_session
open_and_keep svc host group user params memo for_container = do
  o ← call_host (start_world host for_container) (svc.open_world host for_container)
  write upsert (upsert_session (opened_session host group user params memo o))
  cached (put host o.id (some o.live))
  return (opened_session host group user params memo o)

pub start_session :
    Services
    → Db
    → Ctx
    → String
    → String
    → Option String
    → Map String
    → Option String
    → Exec World Session
unfolding open_and_keep container_params
start_session svc db ctx host group user params memo = do
  check (not (svc.is_host_draining host)) (other "host is draining for upgrade")
  host_group ← query (λ _. svc.host_group host)
  check (str_eq group "" || str_eq group host_group) (other "session group must equal host group")
  query (λ _.
      require_all_permissions_for_group db ctx host_group
        (host_use ∷ account_use ∷ session_write ∷ []))
  query (λ _. svc.rpc_client host)
  for_container ← query (λ _. container_params svc params)
  open_and_keep svc host host_group user params memo for_container

-- The world that the session had last is the one to load next time.
next_world : Option LiveSession → Session → Session
next_world none s = s
next_world (some live) s = if str_eq live.world_url "" then s else record s {
  startup_parameters =
      insert "loadWorldUrl" live.world_url (delete "loadWorldPresetName" s.startup_parameters);
}

pub stopped : ℕ → Option LiveSession → Session → Session
unfolding next_world
stopped now live s = record (next_world live s) { ended_at = some now; status = ended }

-- `StopSession` from the call of the container on. The cache is read before the call.
close_and_keep : Services → String → Session → Exec World (Unit {0})
unfolding write cached call_host stopped
close_and_keep svc id s = do
  live ← query (λ w. ok (get id w.cache))
  call_host (stop_world s.host_id id) (svc.close_world s.host_id id)
  write upsert (upsert_session (stopped svc.now live s))
  cached (remove id)

pub stop_session : Services → Db → Ctx → String → Exec World (Unit {0})
unfolding close_and_keep
stop_session svc db ctx id = do
  s ← query (load id)
  query (λ _. require_permission_for_group db ctx s.group_id session_write)
  query (λ _. svc.rpc_client s.host_id)
  close_and_keep svc id s

pub delete_session : Db → Ctx → String → Exec World (Unit {0})
unfolding write cached
delete_session db ctx id = do
  s ← query (load id)
  query (λ _. require_permission_for_group db ctx s.group_id session_write)
  write delete_row (delete_session_row id)
  cached (remove id)
