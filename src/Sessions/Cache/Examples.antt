-- ===== src/Sessions/Cache/Examples.antt =====
-- Examples for adapter/sessionstate/cache.go: a session that moves between hosts.
use baru_reso_headless_contr.Prelude.{
  ◌≡◌, ◌&&◌, not, some, none, [], ◌∷◌, List, contains, lookup, if◌then◌else◌,
}
use baru_reso_headless_contr.Prelude.Int32.{pos}
use baru_reso_headless_contr.Domain.{LiveSession}
use baru_reso_headless_contr.Sessions.Cache.{new_memory_cache, prune_host, get}
use baru_reso_headless_contr.Sessions.Cache.Agreement.{IndexesAgree, owner_is}
use baru_reso_headless_contr.Sessions.Cache.Contents.{get-calls_refines}
use baru_reso_headless_contr.Sessions.Cache.Pruning.{
  CacheCall, set_call, prune_call, calls, calls-IndexesAgree, lookup-prune_host,
}

abbrev live : LiveSession
live = record { name = "world"; users_count = pos 1; world_url = ""; overlap = [] }

abbrev moves : List CacheCall
moves = set_call "h1" "s1" (some live) ∷ set_call "h2" "s1" (some live) ∷ prune_call "h1" [] ∷ []

calls-IndexesAgree_example : IndexesAgree (calls moves new_memory_cache)
calls-IndexesAgree_example = calls-IndexesAgree moves

lookup-prune_host_example :
    lookup "s1" (prune_host "h2" [] (calls moves new_memory_cache)).sessions ≡ (
      if owner_is "s1" "h2" (calls moves new_memory_cache) && not (contains [] "s1")
      then none
      else lookup "s1" (calls moves new_memory_cache).sessions)
lookup-prune_host_example =
    lookup-prune_host "h2" [] "s1" (calls moves new_memory_cache) (calls-IndexesAgree moves)

get-calls_refines_example : get "s1" (calls moves new_memory_cache) ≡ some live
get-calls_refines_example = get-calls_refines moves "s1"
