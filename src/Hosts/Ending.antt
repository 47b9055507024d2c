-- ===== src/Hosts/Ending.antt =====
-- usecase/headless_host_usecase.go: what stopping a host needs, and what becomes of its sessions.
use baru_reso_headless_contr.Prelude.{In}
use baru_reso_headless_contr.Domain.{running}
use baru_reso_headless_contr.Prelude.{◌≡◌, Option, List, ◌∷◌, String, All, ok}
use baru_reso_headless_contr.Domain.{Session, LiveSession, ended}
use baru_reso_headless_contr.Permission.Tables.{Db}
use baru_reso_headless_contr.Permission.Check.{Ctx}
use baru_reso_headless_contr.Permission.Check.Grants.{CallerGranted}
use baru_reso_headless_contr.Sessions.Rows.{find_session}
use baru_reso_headless_contr.Sessions.Usecase.{Services, World, HostCall, restart_container}
use baru_reso_headless_contr.Hosts.{Connector, resolve_tag_to_use, host_write}

-- The session has a row, and it has ended.
abbrev pub HasEnded : String → List Session → Type 0
HasEnded k rows = (row : Session) × (find_session k rows ≡ ok row) × (row.status ≡ ended)

-- What the loop leaves where the database takes its writes.
pub record AllEnded (found : List (Session × Option LiveSession)) (w w' : World) : Type 0 where
  pub have_ended : All (λ p. HasEnded (p.0).id w'.store.sessions) found
  pub stay_ended : (k : String) → HasEnded k w.store.sessions → HasEnded k w'.store.sessions
  pub same_cache : w'.cache ≡ w.cache
  pub same_calls : w'.calls ≡ w.calls

-- The container was asked, by a caller who may, after the end of its running sessions was stored.
pub record Ended (svc : Services) (db : Db) (ctx : Ctx) (host : String) (c : HostCall)
    (w w' : World) : Type 0 where
  pub group : String
  pub belongs : svc.host_group host ≡ ok group
  pub granted : CallerGranted db ctx group host_write
  pub have_ended :
      (s : Session)
      → In s w.store.sessions
      → s.host_id ≡ host
      → s.status ≡ running
      → HasEnded s.id w'.store.sessions
  pub same_cache : w'.cache ≡ w.cache
  pub one_call : w'.calls ≡ c ∷ w.calls

-- A container was asked to restart with the tag that the request resolves to.
pub record Restarted (svc : Services) (con : Connector) (db : Db) (ctx : Ctx) (host : String)
    (new_tag : Option String) (w w' : World) : Type 0 where
  pub tag : String
  pub resolved : resolve_tag_to_use con.container_tags new_tag ≡ ok tag
  pub ended_first : Ended svc db ctx host (restart_container host tag) w w'
