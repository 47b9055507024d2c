-- ===== src/Sessions/StateSync/Rebuilt.antt =====
-- worker/session_state_sync_handler.go: the cache after a stream reset.
use baru_reso_headless_contr.Sessions.StateSync.Reports.{contains-live_map}
use baru_reso_headless_contr.Prelude.{
  ◌≡◌, refl, false, ◌||◌, some, List, [], ◌∷◌, String, str_eq, eq_refl, contains, Map, keys,
  lookup-insert, ok, arith,
}
use baru_reso_headless_contr.Domain.{LiveSession}
use baru_reso_headless_contr.Sessions.Cache.{MemoryCache, put}
use baru_reso_headless_contr.Sessions.Cache.Agreement.{IndexesAgree, put-IndexesAgree, owner_is}
use baru_reso_headless_contr.Sessions.Cache.Pruning.{lookup-prune_host}
use baru_reso_headless_contr.Sessions.Rows.{list_running}
use baru_reso_headless_contr.Sessions.StateSync.{
  State, live_map, put_all, rebuild, reset_with, handle_stream_reset,
}

put_all-IndexesAgree :
    (host : String) (live : Map LiveSession) (c : MemoryCache)
    → IndexesAgree c
    → IndexesAgree (put_all host live c)
unfolding put_all
put_all-IndexesAgree host [] c a = a
put_all-IndexesAgree host ((id, s) ∷ rest) c a =
    put_all-IndexesAgree host rest (put host id (some s) c) (put-IndexesAgree host id (some s) c a)

owner_is-put :
    (host id k : String) (s : LiveSession) (c : MemoryCache)
    → owner_is k host (put host id (some s) c) ≡ (str_eq id k || owner_is k host c)
unfolding put
owner_is-put host id k s c =
    ground
      (arith, eq_refl host, lookup-insert id k (record { host_id = host; snapshot = s }) c.sessions)

owner_is-put_all :
    (host k : String) (live : Map LiveSession) (c : MemoryCache)
    → owner_is k host (put_all host live c) ≡ (contains (keys live) k || owner_is k host c)
unfolding put_all
owner_is-put_all host k [] c = refl
owner_is-put_all host k ((id, s) ∷ rest) c =
    ground
      (arith, owner_is-put host id k s c, owner_is-put_all host k rest (put host id (some s) c))

-- After a stream reset whose queries are answered, the entries of the cache that the host owns are
-- those of the ids in the list that it reports, whatever the cache held, if its indexes agreed.
pub owner_is-handle_stream_reset :
    (host k : String) (reported : List (String × LiveSession)) (w : State)
    → w.store.down list_running ≡ false
    → IndexesAgree w.cache
    → owner_is k host (handle_stream_reset host (ok reported) w).cache ≡ contains (keys reported) k
unfolding handle_stream_reset reset_with rebuild
owner_is-handle_stream_reset host k reported w answered a =
    let live = live_map reported [] in
    rw answered (
      ground (
        arith,
        lookup-prune_host host (keys live) k (put_all host live w.cache)
            (put_all-IndexesAgree host live w.cache a),
        owner_is-put_all host k live w.cache,
        contains-live_map reported k,
      ))
