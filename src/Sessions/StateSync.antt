-- ===== src/Sessions/StateSync.antt =====
-- worker/session_state_sync_handler.go: the cache and the rows follow parameter changes, saved
-- worlds, users and stream resets. A snapshot is copied before it is changed (`proto.Clone`), so
-- values are values. `ListSessions` of the host's container is an argument.
pub mod Reports
pub mod Resets
pub mod Rebuilt
mod Examples
use baru_reso_headless_contr.Prelude.{
  Bool, true, false, Option, none, some, List, [], ◌∷◌, String, str_eq, contains, if◌then◌else◌,
  Map, insert, keys, Result, ok, err,
}
use baru_reso_headless_contr.Prelude.Int32.{ℤ, Delta, plus_one, minus_one, add_delta, max_zero}
use baru_reso_headless_contr.Domain.{Session, LiveSession}
use baru_reso_headless_contr.Sessions.Cache.{MemoryCache, get, put, remove, prune_host}
use baru_reso_headless_contr.Sessions.Rows.{
  Store, SessionQuery, apply_parameters, update_world, downgrade, list_running,
  apply_session_parameters_changed, update_after_world_saved, downgrade_to_unknown_if_running,
  running_of_host,
}

pub record State : Type 0 where
  pub cache : MemoryCache
  pub store : Store

pub data SyncPayload : Type 0 where
  parameters_changed : String → Option LiveSession → SyncPayload
  world_saved : String → String → SyncPayload
  user_joined user_left ended_session : String → SyncPayload
  other_payload : SyncPayload

-- A write that is only logged when the database refuses it.
abbrev attempt : SessionQuery → (Store → Store) → Store → Store
attempt q write st = if st.down q then st else write st

apply_parameters_changed : String → String → Option LiveSession → State → State
apply_parameters_changed host id none w = w
apply_parameters_changed host id (some live) w = record {
  cache = put host id (some live) w.cache;
  store = attempt apply_parameters (apply_session_parameters_changed id live) w.store;
}

-- A cached snapshot is changed and stored under the host of the event.
change_cached :
    (LiveSession → LiveSession) → String → String → Option LiveSession → MemoryCache → MemoryCache
change_cached change host id none c = c
change_cached change host id (some live) c = put host id (some (change live)) c

apply_world_saved : String → String → String → State → State
unfolding change_cached
apply_world_saved host id url w = if str_eq url "" then w else record {
  cache = change_cached (λ live. record live { world_url = url }) host id (get id w.cache) w.cache;
  store = attempt update_world (update_after_world_saved id url) w.store;
}

bump_users_count : String → String → Delta → MemoryCache → MemoryCache
unfolding change_cached
bump_users_count host id delta c =
    change_cached
      (λ live. record live { users_count = max_zero (add_delta live.users_count delta) }) host id
      (get id c) c

pub handle_sync_event : String → SyncPayload → State → State
unfolding apply_parameters_changed apply_world_saved bump_users_count
handle_sync_event host (parameters_changed id live) w = apply_parameters_changed host id live w
handle_sync_event host (world_saved id url) w = apply_world_saved host id url w
handle_sync_event host (user_joined id) w = record w {
  cache = bump_users_count host id plus_one w.cache;
}
handle_sync_event host (user_left id) w = record w {
  cache = bump_users_count host id minus_one w.cache;
}
handle_sync_event host (ended_session id) w = record w { cache = remove id w.cache }
handle_sync_event host other_payload w = w

-- The map of the reported sessions: the last report of an id counts.
pub live_map : List (String × LiveSession) → Map LiveSession → Map LiveSession
live_map [] m = m
live_map ((id, s) ∷ rest) m = live_map rest (insert id s m)

put_all : String → Map LiveSession → MemoryCache → MemoryCache
put_all host [] c = c
put_all host ((id, s) ∷ rest) c = put_all host rest (put host id (some s) c)

demote_missing : List String → List Session → Store → Store
demote_missing live [] st = st
demote_missing live (s ∷ ss) st =
    demote_missing live ss (
      if contains live s.id
      then st
      else attempt downgrade (downgrade_to_unknown_if_running s.id) st)

rebuild : String → List Session → List (String × LiveSession) → State → State
unfolding live_map put_all demote_missing
rebuild host was_running reported w =
    let live = live_map reported [] in
    record {
      cache = prune_host host (keys live) (put_all host live w.cache);
      store = demote_missing (keys live) was_running w.store;
    }

reset_with : String → List Session → Result (List (String × LiveSession)) → State → State
unfolding rebuild
reset_with host was_running (err e) w = w
reset_with host was_running (ok reported) w = rebuild host was_running reported w

-- The running rows are read first; without them or the host's answer nothing changes.
pub handle_stream_reset : String → Result (List (String × LiveSession)) → State → State
unfolding reset_with
handle_stream_reset host reported w =
    if w.store.down list_running
    then w
    else reset_with host (running_of_host host w.store.sessions) reported w
