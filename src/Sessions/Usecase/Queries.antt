-- ===== src/Sessions/Usecase/Queries.antt =====
-- usecase/session_usecase.go: `GetSession`, which heals the status of a row on the way. The result
-- has the session with its `CurrentState`.
pub mod Healing
use baru_reso_headless_contr.Prelude.{
  Bool, true, false, Option, none, some, String, if◌then◌else◌, Result, ok, err,
}
use baru_reso_headless_contr.Prelude.Exec.{Exec, query, resume, return, ◌>>=◌, ◌>>◌}
use baru_reso_headless_contr.Domain.{Session, SessionStatus, LiveSession, running, ended, crashed}
use baru_reso_headless_contr.Sessions.Cache.{get, put}
use baru_reso_headless_contr.Sessions.Rows.{update_status, update_session_status, is_running}
use baru_reso_headless_contr.Sessions.Usecase.{Services, World, cached, load}

abbrev pub is_ended : SessionStatus → Bool
is_ended ended = true
is_ended _ = false

abbrev pub is_crashed : SessionStatus → Bool
is_crashed crashed = true
is_crashed _ = false

-- An `UpdateStatus` whose error nobody looks at.
pub try_update_status : String → SessionStatus → World → World
try_update_status id status w =
    if w.store.down update_status
    then w
    else record w { store = update_session_status id status w.store }

-- `now_is` tells whether the row has the status already.
pub mark : Bool → SessionStatus → String → Session → Exec World Session
unfolding try_update_status
mark true status id s w = (ok s, w)
mark false status id s w = (ok (record s { status = status }), try_update_status id status w)

-- What the container says of the session, `none` for each error.
pub host_answer : Services → String → String → Option LiveSession
host_answer svc host id = elim (svc.rpc_client host) [
  | err e ↦ none
  | ok u ↦ elim (svc.live_session host id) [ err e ↦ none | ok live ↦ live ]
]

pub from_host : String → Session → Option LiveSession → Exec World (Session × Option LiveSession)
unfolding mark cached
from_host id s none = do t ← mark (is_crashed s.status) crashed id s; return (t, none)
from_host id s (some live) = do
  cached (put s.host_id id (some live))
  t ← mark (is_running s.status) running id s
  return (t, some live)

pub from_cache :
    Services → String → Session → Option LiveSession → Exec World (Session × Option LiveSession)
unfolding from_host host_answer
from_cache svc id s (some live) = do
  t ← mark (is_running s.status) running id s
  return (t, some live)
from_cache svc id s none = from_host id s (host_answer svc s.host_id id)

-- Whatever is not at its end is looked up.
pub current : Services → String → Session → Bool → Exec World (Session × Option LiveSession)
unfolding from_cache
current svc id s true w = (ok (s, none), w)
current svc id s false w = from_cache svc id s (get id w.cache) w

pub get_session : Services → String → Exec World (Session × Option LiveSession)
unfolding current
get_session svc id = do s ← query (load id); current svc id s (is_ended s.status)
