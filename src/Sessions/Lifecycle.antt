-- ===== src/Sessions/Lifecycle.antt =====
-- worker/session_lifecycle_handler.go: the rows follow the hosts' SessionStarted and SessionEnded
-- events, which may come twice, late, or from a host that no longer owns the session.
pub mod Replays
pub mod Ownership
mod Examples
use baru_reso_headless_contr.Prelude.{
  ℕ, Bool, true, false, not, ◌&&◌, Option, none, some, List, [], ◌∷◌, String, str_eq, ltb,
  if◌then◌else◌, Result, ok, err,
}
use baru_reso_headless_contr.Domain.{Session}
use baru_reso_headless_contr.Sessions.Rows.{
  Store, SessionQuery, insert_from_event, apply_started, apply_ended, get_session, find_session,
  insert_session_from_event, apply_session_started, apply_session_ended, older,
}

-- The payloads that the handler reads: a session's id and name, or its id.
pub data Payload : Type 0 where
  session_started : String → String → Payload
  session_ended : String → Payload
  other_payload : Payload

pub record Event : Type 0 where
  pub occurred_at : Option ℕ
  pub payload : Payload

-- Both statements run, unless the first fails.
pub handle_session_started : String → ℕ → String → String → Store → Store
handle_session_started host at id name st =
    if st.down insert_from_event
    then st
    else (let inserted = insert_session_from_event id name at host st in
        if st.down apply_started then inserted else apply_session_started id host name at inserted)

abbrev predates : ℕ → Option ℕ → Bool
predates at none = false
predates at (some started) = ltb at started

-- What is done with the session that was loaded.
end_loaded : String → ℕ → String → Result Session → Store → Store
end_loaded host at id (err e) st = st
end_loaded host at id (ok s) st =
    if str_eq s.host_id host && not (predates at s.started_at) && not (st.down apply_ended)
    then apply_session_ended id host at st
    else st

pub handle_session_ended : String → ℕ → String → Store → Store
unfolding end_loaded
handle_session_ended host at id st =
    if st.down get_session then st else end_loaded host at id (find_session id st.sessions) st

handle_at : String → ℕ → Payload → Store → Store
handle_at host at (session_started id name) st = handle_session_started host at id name st
handle_at host at (session_ended id) st = handle_session_ended host at id st
handle_at host at other_payload st = st

handle_dated : String → Option ℕ → Payload → Store → Store
unfolding handle_at
handle_dated host none p st = st
handle_dated host (some at) p st = handle_at host at p st

pub handle_host_event : String → Event → Store → Store
unfolding handle_dated
handle_host_event host e st = handle_dated host e.occurred_at e.payload st
