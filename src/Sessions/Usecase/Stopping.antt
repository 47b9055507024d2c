-- ===== src/Sessions/Usecase/Stopping.antt =====
-- usecase/session_usecase.go: what `StopSession` needs, and what it leaves.
use baru_reso_headless_contr.Prelude.{
  ◌≢◌, lookup, lookup-insert, delete, ne→str_eq, ◌≡◌, refl, sym, ap, subst, ◌∙◌, true, Option, none,
  some, List, [], ◌∷◌, String, eq_iff, ok, err, Error, Bool-cases, Result-cases, inl, inr, arith, ℕ,
}
use baru_reso_headless_contr.Prelude.Exec.{query, resume}
use baru_reso_headless_contr.Prelude.Outcome.{Effect, changed, Effect-query}
use baru_reso_headless_contr.Domain.{Session, SessionStatus, LiveSession}
use baru_reso_headless_contr.Permission.Tables.{Db}
use baru_reso_headless_contr.Permission.Check.{Ctx}
use baru_reso_headless_contr.Permission.Check.Grants.{
  CallerGranted, require_permission_for_group-Granted,
}
use baru_reso_headless_contr.Sessions.Cache.{get, remove}
use baru_reso_headless_contr.Sessions.Lifecycle.Ownership.{find-id, find-exists}
use baru_reso_headless_contr.Sessions.Rows.{
  Store, upsert, upsert_session, find_session, update_row, overwrite,
}
use baru_reso_headless_contr.Sessions.Usecase.{
  Services, World, stop_world, session_write, write, cached, call_host, load, stopped, next_world,
  close_and_keep, stop_session,
}

-- A row that is overwritten.
pub find-overwrite :
    (s old : Session) (rows : List Session)
    → find_session s.id rows ≡ ok old
    → find_session s.id (update_row s.id (λ o. true) (overwrite s) rows) ≡ ok (overwrite s old)
unfolding update_row
find-overwrite s old [] h = cc
find-overwrite s old (r ∷ rows) h = ground (arith, eq_iff s.id s.id, h, find-overwrite s old rows)

overwrite_same :
    (s old : Session)
    → s.created_by ≡ old.created_by
    → s.group_id ≡ old.group_id
    → overwrite s old ≡ s
overwrite_same s old creator group = ground arith

-- A row with the columns that an update keeps is found as it was written.
pub find-upsert_session :
    (s old : Session) (st : Store)
    → find_session s.id st.sessions ≡ ok old
    → s.created_by ≡ old.created_by
    → s.group_id ≡ old.group_id
    → find_session s.id (upsert_session s st).sessions ≡ ok s
unfolding upsert_session
find-upsert_session s old st h creator group =
    rw (find-exists s.id old st.sessions h)
      (find-overwrite s old st.sessions h ∙ ap ok (overwrite_same s old creator group))

-- Stopping changes the status, the end and the world to load, so the row keeps its owner.
pub stopped_keeps :
    (now : ℕ) (live : Option LiveSession) (s : Session)
    → ((stopped now live s).id ≡ s.id)
      × ((stopped now live s).created_by ≡ s.created_by)
      × ((stopped now live s).group_id ≡ s.group_id)
unfolding stopped next_world
stopped_keeps now none s = (refl, refl, refl)
stopped_keeps now (some live) s = (ground arith, ground arith, ground arith)

find_stopped :
    (id : String) (now : ℕ) (live : Option LiveSession) (s : Session) (st : Store)
    → find_session id st.sessions ≡ ok s
    → find_session id (upsert_session (stopped now live s) st).sessions ≡ ok (stopped now live s)
find_stopped id now live s st h =
    let t = stopped now live s in
    let keeps = stopped_keeps now live s in
    let e : t.id ≡ id = keeps.0 ∙ find-id id s st.sessions h in
    let there : find_session t.id st.sessions ≡ ok s =
      subst (λ k. find_session k st.sessions ≡ ok s) (sym e) h in
    subst (λ k. find_session k (upsert_session t st).sessions ≡ ok t) e
      (find-upsert_session t s st there keeps.1 keeps.2)

-- An ended session that starts again with the world that it had last.
pub record EndedRow (now : ℕ) (last : Option LiveSession) (row : Session) : Type 0 where
  pub has_ended : row.status ≡ SessionStatus.ended
  pub ended_then : row.ended_at ≡ some now
  pub loads_last :
      (live : LiveSession)
      → last ≡ some live
      → live.world_url ≢ ""
      → lookup "loadWorldUrl" row.startup_parameters ≡ some live.world_url

lookup-next_world :
    (live : LiveSession) (s : Session)
    → live.world_url ≢ ""
    → lookup "loadWorldUrl" (next_world (some live) s).startup_parameters ≡ some live.world_url
unfolding next_world
lookup-next_world live s named = rw (ne→str_eq live.world_url "" named) (
    lookup-insert "loadWorldUrl" "loadWorldUrl" live.world_url
      (delete "loadWorldPresetName" s.startup_parameters))

pub stopped-EndedRow :
    (now : ℕ) (live : Option LiveSession) (s : Session) → EndedRow now live (stopped now live s)
unfolding stopped
stopped-EndedRow now live s = record {
  has_ended = refl;
  ended_then = refl;
  loads_last = λ l e named. rw e (lookup-next_world l s named);
}

-- What became of the session that the container was asked to stop.
pub data Closed (svc : Services) (id : String) (s : Session) (w w' : World) : Type 0 where
  not_closed :
      (e : Error)
      → svc.close_world s.host_id id ≡ err e
      → w'.store ≡ w.store
      → w'.cache ≡ w.cache
      → Closed svc id s w w'
  not_stored :
      svc.close_world s.host_id id ≡ ok tt
      → w.store.down upsert ≡ true
      → w'.store ≡ w.store
      → w'.cache ≡ w.cache
      → Closed svc id s w w'
  closed :
      svc.close_world s.host_id id ≡ ok tt
      → (row : Session) → find_session id w'.store.sessions ≡ ok row
      → EndedRow svc.now (get id w.cache) row
      → w'.cache ≡ remove id w.cache
      → Closed svc id s w w'

-- A container was asked to stop a session.
pub record Stopped (svc : Services) (db : Db) (ctx : Ctx) (id : String) (w w' : World)
    : Type 0 where
  pub s : Session
  pub loaded : load id w ≡ ok s
  pub granted : CallerGranted db ctx s.group_id session_write
  pub one_call : w'.calls ≡ stop_world s.host_id id ∷ w.calls
  pub outcome : Closed svc id s w w'

pub find-load :
    (id : String) (w : World) (s : Session)
    → load id w ≡ ok s
    → find_session id w.store.sessions ≡ ok s
find-load id w s h = ground (arith, h)

close_and_keep-Closed :
    (svc : Services) (id : String) (s : Session) (w : World)
    → load id w ≡ ok s
    → Closed svc id s w (close_and_keep svc id s w).1
      × ((close_and_keep svc id s w).1.calls ≡ stop_world s.host_id id ∷ w.calls)
unfolding close_and_keep call_host query resume write cached
close_and_keep-Closed svc id s w loaded = elim (Result-cases (svc.close_world s.host_id id)) [
  | inl (u, ended) ↦ elim (Bool-cases (w.store.down upsert)) [
    | inl down ↦ rw (ended, down) (not_stored ended down refl refl, refl)
    | inr up ↦
        rw (ended, up)
          (
            closed ended (stopped svc.now (get id w.cache) s)
                (find_stopped id svc.now (get id w.cache) s w.store (find-load id w s loaded))
                (stopped-EndedRow svc.now (get id w.cache) s) refl,
            refl,
          )
  ]
  | inr (e, failing) ↦ rw failing (not_closed e failing refl refl, refl)
]

-- `StopSession` either changes nothing and asks no container, or the caller is granted
-- session:write in the session's group. Then the container is asked once to stop the session. If
-- the container or the database refuses, row and cache stay as they were; else the session's row
-- is found ended now, to be started again with the world that the cache knew last, and the cache
-- forgets the session.
pub stop_session-Effect :
    (svc : Services) (db : Db) (ctx : Ctx) (id : String) (w : World)
    → Effect (Stopped svc db ctx id w) w (stop_session svc db ctx id w).1
unfolding stop_session
stop_session-Effect svc db ctx id w = Effect-query _ _ w (λ s loaded. Effect-query _ _ w (λ _ may.
    Effect-query _ _ w (λ _ _.
      let (outcome, one_call) = close_and_keep-Closed svc id s w loaded in
      changed (record {
        s = s;
        loaded = loaded;
        granted = require_permission_for_group-Granted db ctx s.group_id session_write may;
        one_call = one_call;
        outcome = outcome;
      }))))
