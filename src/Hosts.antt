-- ===== src/Hosts.antt =====
-- usecase/headless_host_usecase.go: the tag for a new container, and how a host is stopped. The
-- services and the state are those of the session usecase; rows are listed in the table's order.
pub mod Tags
pub mod Ending
pub mod Launching
mod Examples
use baru_reso_headless_contr.Prelude.{
  Bool, true, false, not, ◌||◌, ◌&&◌, Option, none, some, List, [], ◌∷◌, String, str_eq, contains,
  if◌then◌else◌, Result, ok, err, other, db_error,
}
use baru_reso_headless_contr.Prelude.Exec.{Exec, check, query, resume, return, ◌>>=◌, ◌>>◌}
use baru_reso_headless_contr.Domain.{
  Session, SessionStatus, LiveSession, unknown, starting, running, ended, crashed,
}
use baru_reso_headless_contr.Permission.Tables.{Db}
use baru_reso_headless_contr.Permission.Check.{Ctx, require_permission_for_group}
use baru_reso_headless_contr.Sessions.Cache.{MemoryCache, get}
use baru_reso_headless_contr.Sessions.Rows.{upsert, upsert_session, list_by_status}
use baru_reso_headless_contr.Sessions.Usecase.{
  Services, World, HostCall, account_use, start_container, restart_container, stop_container,
  kill_container, stopped, write, call_host,
}

pub record Tag : Type 0 where
  pub tag : String
  pub is_pre_release : Bool

abbrev pub same_bool : Bool → Bool → Bool
same_bool true b = b
same_bool false b = not b

abbrev pub asks_latest : Option String → Bool
asks_latest none = true
asks_latest (some t) = str_eq t "" || str_eq t "latestRelease" || str_eq t "latestPreRelease"

abbrev pub wants_pre_release : Option String → Bool
wants_pre_release none = false
wants_pre_release (some t) = str_eq t "latestPreRelease"

-- The first tag of the kind, from the end.
pub latest : Bool → List Tag → Option String
latest want [] = none
latest want (t ∷ ts) = elim (latest want ts) [
  | some later ↦ some later
  | none ↦ if same_bool t.is_pre_release want then some t.tag else none
]

abbrev pub tag_or_err : Option String → Result String
tag_or_err none = err (other "no available container image tags")
tag_or_err (some t) = ok t

abbrev pub given : Option String → String
given none = ""
given (some t) = t

-- `tags` is the answer of `ListContainerTags`.
pub resolve_tag_to_use : Result (List Tag) → Option String → Result String
unfolding latest
resolve_tag_to_use tags input =
    if asks_latest input
    then elim tags [ err e ↦ err e | ok ts ↦ tag_or_err (latest (wants_pre_release input) ts) ]
    else ok (given input)

abbrev pub host_write : String
host_write = "host:write"

-- The running sessions of a host, with the state that the cache has.
pub running_with_state : String → MemoryCache → List Session → List (Session × Option LiveSession)
running_with_state host c [] = []
running_with_state host c (s ∷ ss) =
    let rest = running_with_state host c ss in
    elim s.status [
      | running ↦ if str_eq s.host_id host then (s, get s.id c) ∷ rest else rest
      | unknown ↦ rest
      | starting ↦ rest
      | ended ↦ rest
      | crashed ↦ rest
    ]

pub search_running : String → World → Result (List (Session × Option LiveSession))
unfolding running_with_state
search_running host w =
    if w.store.down list_by_status
    then err db_error
    else ok (running_with_state host w.cache w.store.sessions)

-- `now` is read once; the first row that the database refuses ends the loop.
pub mark_sessions_as_ended : Services → List (Session × Option LiveSession) → Exec World (Unit {0})
unfolding write
mark_sessions_as_ended svc [] = return tt
mark_sessions_as_ended svc ((s, live) ∷ ss) = do
  write upsert (upsert_session (stopped svc.now live s))
  mark_sessions_as_ended svc ss

pub end_and_call : Services → String → HostCall → Result (Unit {0}) → Exec World (Unit {0})
unfolding mark_sessions_as_ended search_running call_host
end_and_call svc host c answer = do
  found ← query (search_running host)
  mark_sessions_as_ended svc found
  call_host c answer

pub headless_host_shutdown : Services → Db → Ctx → String → Exec World (Unit {0})
unfolding end_and_call
headless_host_shutdown svc db ctx host = do
  group ← query (λ _. svc.host_group host)
  query (λ _. require_permission_for_group db ctx group host_write)
  end_and_call svc host (stop_container host) (svc.stopped_container host)

pub headless_host_kill : Services → Db → Ctx → String → Exec World (Unit {0})
unfolding end_and_call
headless_host_kill svc db ctx host = do
  group ← query (λ _. svc.host_group host)
  query (λ _. require_permission_for_group db ctx group host_write)
  end_and_call svc host (kill_container host) (svc.killed_container host)

-- What the host usecase asks further: the account of a host, whether an account is there, the tags
-- of the registry, and the connector.
pub record Connector : Type 0 where
  pub account_of_host : String → Result String
  pub account_found : String → Result (Unit {0})
  pub container_tags : Result (List Tag)
  pub started_container : String → String → Result String
  pub restarted_container : String → String → Result (Unit {0})

-- `withWorldRestart` and the timeout are the connector's business.
pub headless_host_restart :
    Services → Connector → Db → Ctx → String → Option String → Exec World (Unit {0})
unfolding end_and_call resolve_tag_to_use
headless_host_restart svc con db ctx host new_tag = do
  group ← query (λ _. svc.host_group host)
  query (λ _. require_permission_for_group db ctx group host_write)
  account ← query (λ _. con.account_of_host host)
  tag ← query (λ _. resolve_tag_to_use con.container_tags new_tag)
  query (λ _. con.account_found account)
  end_and_call svc host (restart_container host tag) (con.restarted_container host tag)

-- A container is started in a group, with an account of the same group; the result is the host's id.
pub headless_host_start : Connector → Db → Ctx → String → String → String → Exec World String
unfolding call_host resolve_tag_to_use
headless_host_start con db ctx group account_group image_tag = do
  query (λ _. require_permission_for_group db ctx group host_write)
  query (λ _. require_permission_for_group db ctx group account_use)
  check (str_eq account_group "" || str_eq account_group group)
      (other "account group does not match host group")
  tag ← query (λ _. resolve_tag_to_use con.container_tags (some image_tag))
  call_host (start_container group tag) (con.started_container group tag)
