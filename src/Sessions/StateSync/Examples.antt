-- ===== src/Sessions/StateSync/Examples.antt =====
-- Examples for worker/session_state_sync_handler.go: a host that lost one of its sessions.
use baru_reso_headless_contr.Prelude.{str_eq}
use baru_reso_headless_contr.Prelude.{
  ◌≡◌, ◌&&◌, not, refl, some, [], ◌∷◌, List, String, contains, keys, ok, false,
}
use baru_reso_headless_contr.Prelude.Int32.{pos}
use baru_reso_headless_contr.Domain.{LiveSession}
use baru_reso_headless_contr.Sessions.Cache.{new_memory_cache}
use baru_reso_headless_contr.Sessions.Cache.Agreement.{owner_is}
use baru_reso_headless_contr.Sessions.Cache.Pruning.{set_call, calls, calls-IndexesAgree}
use baru_reso_headless_contr.Sessions.Rows.{new_session, find_session, is_running}
use baru_reso_headless_contr.Sessions.StateSync.{State, handle_stream_reset}
use baru_reso_headless_contr.Sessions.StateSync.Resets.{
  find-handle_stream_reset, demoted_if, resync_done, reported_ids,
}
use baru_reso_headless_contr.Sessions.StateSync.Rebuilt.{owner_is-handle_stream_reset}

abbrev live : LiveSession
live = record { name = "world"; users_count = pos 1; world_url = ""; overlap = [] }

abbrev state : State
state = record {
  cache = calls (set_call "h1" "s1" (some live) ∷ []) new_memory_cache;
  store = record {
    hosts = ("h1", "g") ∷ [];
    sessions = new_session "s1" "world" 5 "h1" "g" ∷ [];
    down = λ q. false;
  };
}

abbrev reported : List (String × LiveSession)
reported = ("s2", live) ∷ []

find-handle_stream_reset_example :
    find_session "s1" (handle_stream_reset "h1" (ok reported) state).store.sessions
    ≡ ok (
        demoted_if
          (resync_done state.store (ok reported)
            && str_eq (new_session "s1" "world" 5 "h1" "g").host_id "h1"
            && is_running (new_session "s1" "world" 5 "h1" "g").status
            && not (contains (reported_ids (ok reported)) "s1"))
          (new_session "s1" "world" 5 "h1" "g"))
unfolding new_session
find-handle_stream_reset_example =
    find-handle_stream_reset "h1" "s1" (ok reported) (new_session "s1" "world" 5 "h1" "g") state
      (refl, tt) refl

owner_is-handle_stream_reset_example :
    owner_is "s1" "h1" (handle_stream_reset "h1" (ok reported) state).cache
    ≡ contains (keys reported) "s1"
owner_is-handle_stream_reset_example =
    owner_is-handle_stream_reset "h1" "s1" reported state refl
      (calls-IndexesAgree (set_call "h1" "s1" (some live) ∷ []))
