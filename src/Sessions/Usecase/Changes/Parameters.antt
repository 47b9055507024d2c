-- ===== src/Sessions/Usecase/Changes/Parameters.antt =====
-- usecase/session_usecase.go: what `UpdateSessionParameters` needs, and what it leaves.
use baru_reso_headless_contr.Sessions.Usecase.Changes.Fields.{
  fields, given_for, value_after, lookup-update_startup_params,
}
use baru_reso_headless_contr.Prelude.{
  ◌≡◌, refl, sym, subst, true, Option, none, some, ◌∷◌, String, lookup, ok, err, Error, Bool-cases,
  Result-cases, inl, inr,
}
use baru_reso_headless_contr.Prelude.Exec.{query, resume}
use baru_reso_headless_contr.Prelude.Outcome.{Effect, changed, Effect-query}
use baru_reso_headless_contr.Domain.{Session, LiveSession}
use baru_reso_headless_contr.Permission.Tables.{Db}
use baru_reso_headless_contr.Permission.Check.{Ctx}
use baru_reso_headless_contr.Permission.Check.Grants.{
  CallerGranted, require_permission_for_group-Granted,
}
use baru_reso_headless_contr.Sessions.Cache.{put}
use baru_reso_headless_contr.Sessions.Lifecycle.Ownership.{find-id}
use baru_reso_headless_contr.Sessions.Rows.{upsert, upsert_session, find_session}
use baru_reso_headless_contr.Sessions.Usecase.{
  Services, World, change_world, session_write, write, cached, call_host, load,
}
use baru_reso_headless_contr.Sessions.Usecase.Stopping.{find-load, find-upsert_session}
use baru_reso_headless_contr.Sessions.Usecase.Changes.{
  ParameterUpdate, updated, name_of, set_cached, change_and_keep, update_session_parameters,
}

-- The row after an update of its parameters.
pub record UpdatedRow (u : ParameterUpdate) (live : Option LiveSession) (s row : Session)
    : Type 0 where
  pub named_live : row.name ≡ name_of live
  pub same_else : row ≡ record s { name = row.name; startup_parameters = row.startup_parameters }
  pub parameters :
      (k : String)
      → lookup k row.startup_parameters
        ≡ value_after (given_for k (fields u)) (lookup k s.startup_parameters)

updated-UpdatedRow :
    (u : ParameterUpdate) (live : Option LiveSession) (s : Session)
    → UpdatedRow u live s (updated u live s)
unfolding updated
updated-UpdatedRow u live s = record {
  named_live = refl;
  same_else = refl;
  parameters = λ k. lookup-update_startup_params u k s.startup_parameters;
}

find-updated :
    (id : String) (u : ParameterUpdate) (live : Option LiveSession) (s : Session) (w : World)
    → load id w ≡ ok s
    → find_session id (upsert_session (updated u live s) w.store).sessions ≡ ok (updated u live s)
unfolding updated
find-updated id u live s w loaded =
    let found = find-load id w s loaded in
    let same = find-id id s w.store.sessions found in
    let there : find_session s.id w.store.sessions ≡ ok s =
      subst (λ k. find_session k w.store.sessions ≡ ok s) (sym same) found in
    subst
      (λ k.
        find_session k (upsert_session (updated u live s) w.store).sessions ≡ ok (updated u live s))
      same (find-upsert_session (updated u live s) s w.store there refl refl)

-- What became of an update that the container was asked for.
pub data Kept (svc : Services) (id : String) (u : ParameterUpdate) (s : Session) (w w' : World)
    : Type 0 where
  not_changed :
      (e : Error)
      → svc.changed_world s.host_id id ≡ err e
      → w'.store ≡ w.store
      → w'.cache ≡ w.cache
      → Kept svc id u s w w'
  not_read :
      (e : Error)
      → svc.live_session s.host_id id ≡ err e
      → w'.store ≡ w.store
      → w'.cache ≡ w.cache
      → Kept svc id u s w w'
  not_stored :
      w.store.down upsert ≡ true → w'.store ≡ w.store → w'.cache ≡ w.cache → Kept svc id u s w w'
  kept :
      (live : Option LiveSession) (row : Session)
      → svc.changed_world s.host_id id ≡ ok tt
      → svc.live_session s.host_id id ≡ ok live
      → find_session id w'.store.sessions ≡ ok row
      → UpdatedRow u live s row
      → w'.cache ≡ put s.host_id id live w.cache
      → Kept svc id u s w w'

-- A row that is stored, with or without a live state for the cache.
abbrev stored : ParameterUpdate → Option LiveSession → String → Session → World → World
stored u live id s w = record w {
  store = upsert_session (updated u live s) w.store;
  calls = change_world s.host_id id ∷ w.calls;
}

set_cached-Kept :
    (svc : Services) (id : String) (u : ParameterUpdate) (s : Session) (w : World)
    → load id w ≡ ok s
    → svc.changed_world s.host_id id ≡ ok tt
    → (live : Option LiveSession) → svc.live_session s.host_id id ≡ ok live
    → Kept svc id u s w (set_cached s.host_id id live (stored u live id s w)).1
      × ((set_cached s.host_id id live (stored u live id s w)).1.calls
          ≡ change_world s.host_id id ∷ w.calls)
unfolding cached put
set_cached-Kept svc id u s w loaded accepted none read = (
  kept none (updated u none s) accepted read (find-updated id u none s w loaded)
      (updated-UpdatedRow u none s) refl,
  refl,
)
set_cached-Kept svc id u s w loaded accepted (some live) read = (
  kept (some live) (updated u (some live) s) accepted read
      (find-updated id u (some live) s w loaded) (updated-UpdatedRow u (some live) s) refl,
  refl,
)

change_and_keep-Kept :
    (svc : Services) (id : String) (u : ParameterUpdate) (s : Session) (w : World)
    → load id w ≡ ok s
    → Kept svc id u s w (change_and_keep svc id u s w).1
      × ((change_and_keep svc id u s w).1.calls ≡ change_world s.host_id id ∷ w.calls)
unfolding change_and_keep call_host query resume write
change_and_keep-Kept svc id u s w loaded = elim (Result-cases (svc.changed_world s.host_id id)) [
  | inr (e, failing) ↦ rw failing (not_changed e failing refl refl, refl)
  | inl (t, change) ↦ elim (Result-cases (svc.live_session s.host_id id)) [
    | inr (e, failing) ↦ rw (change, failing) (not_read e failing refl refl, refl)
    | inl (live, read) ↦ elim (Bool-cases (w.store.down upsert)) [
      | inl down ↦ rw (change, read, down) (not_stored down refl refl, refl)
      | inr up ↦ rw (change, read, up) (set_cached-Kept svc id u s w loaded change live read)
    ]
  ]
]

-- A container was asked to change a session.
pub record ParametersChanged (svc : Services) (db : Db) (ctx : Ctx) (id : String)
    (u : ParameterUpdate) (w w' : World) : Type 0 where
  pub s : Session
  pub loaded : load id w ≡ ok s
  pub granted : CallerGranted db ctx s.group_id session_write
  pub one_call : w'.calls ≡ change_world s.host_id id ∷ w.calls
  pub outcome : Kept svc id u s w w'

-- Either `UpdateSessionParameters` changes nothing and asks no container, or the caller is granted
-- session:write in the session's group. Then the container is asked once. If it refuses or is then
-- not readable, or the database refuses, row and cache stay as they were; else the row has the
-- name of the live session, has each startup parameter that the update gives as given and every
-- other one as it was, and keeps all other columns; the cache is set to the live session.
pub update_session_parameters-Effect :
    (svc : Services) (db : Db) (ctx : Ctx) (id : String) (u : ParameterUpdate) (w : World)
    → Effect (ParametersChanged svc db ctx id u w) w (update_session_parameters svc db ctx id u w).1
unfolding update_session_parameters
update_session_parameters-Effect svc db ctx id u w = Effect-query _ _ w (λ s loaded.
    Effect-query _ _ w (λ _ may. Effect-query _ _ w (λ _ _.
      let (outcome, one_call) = change_and_keep-Kept svc id u s w loaded in
      changed (record {
        s = s;
        loaded = loaded;
        granted = require_permission_for_group-Granted db ctx s.group_id session_write may;
        one_call = one_call;
        outcome = outcome;
      }))))
