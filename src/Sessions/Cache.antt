-- ===== src/Sessions/Cache.antt =====
-- adapter/sessionstate/cache.go: `MemoryCache`. A nil
-- snapshot is `none`. Each method holds the lock throughout, so methods happen one at a time.
pub mod Agreement
pub mod Pruning
pub mod Contents
mod Examples
use baru_reso_headless_contr.Domain.{LiveSession}
use baru_reso_headless_contr.Prelude.{
  Bool, true, false, not, Option, none, some, List, [], ◌∷◌, String, str_eq, contains,
  if◌then◌else◌, Map, lookup, insert, delete,
}

pub record Entry : Type 0 where
  pub host_id : String
  pub snapshot : LiveSession

-- The sets of the second index are lists of texts without order.
pub record MemoryCache : Type 0 where
  pub sessions : Map Entry
  pub host_sessions : Map (List String)

abbrev pub new_memory_cache : MemoryCache
new_memory_cache = record { sessions = []; host_sessions = [] }

abbrev snapshot_of : Option Entry → Option LiveSession
snapshot_of none = none
snapshot_of (some e) = some e.snapshot

pub get : String → MemoryCache → Option LiveSession
get session c = snapshot_of (lookup session c.sessions)

-- delete(set, id) and set[id] = struct{}{}
pub without : String → List String → List String
without id [] = []
without id (x ∷ set) = let rest = without id set in if str_eq x id then rest else x ∷ rest

pub with_id : String → List String → List String
unfolding without
with_id id set = id ∷ without id set

abbrev store_set : String → List String → Map (List String) → Map (List String)
store_set host [] m = delete host m
store_set host (x ∷ set) m = insert host (x ∷ set) m

abbrev unlink_in : String → String → Option (List String) → Map (List String) → Map (List String)
unlink_in host session none m = m
unlink_in host session (some set) m = store_set host (without session set) m

pub remove_from_host_index : String → String → Map (List String) → Map (List String)
remove_from_host_index host session m = unlink_in host session (lookup host m) m

abbrev set_or_empty : Option (List String) → List String
set_or_empty none = []
set_or_empty (some set) = set

-- A session that moved from another host leaves that host's set.
abbrev leave_previous : String → String → Option Entry → Map (List String) → Map (List String)
leave_previous host session none m = m
leave_previous host session (some prev) m =
    if str_eq prev.host_id host then m else remove_from_host_index prev.host_id session m

pub link : String → String → Map (List String) → Map (List String)
unfolding with_id
link host session m = insert host (with_id session (set_or_empty (lookup host m))) m

unfoldable pub put : String → String → Option LiveSession → MemoryCache → MemoryCache
unfolding link
put host session none c = c
put host session (some snapshot) c = record {
  sessions = insert session (record { host_id = host; snapshot = snapshot }) c.sessions;
  host_sessions =
      link host session (leave_previous host session (lookup session c.sessions) c.host_sessions);
}

abbrev remove_entry : String → Option Entry → MemoryCache → MemoryCache
remove_entry session none c = c
remove_entry session (some e) c = record {
  sessions = delete session c.sessions;
  host_sessions = remove_from_host_index e.host_id session c.host_sessions;
}

pub remove : String → MemoryCache → MemoryCache
unfolding remove_from_host_index
remove session c = remove_entry session (lookup session c.sessions) c

-- The loop over the host's set: the entries that go, and the set that stays.
pub drop_dead : List String → List String → Map Entry → Map Entry
drop_dead live [] m = m
drop_dead live (id ∷ set) m =
    if contains live id then drop_dead live set m else drop_dead live set (delete id m)

pub living : List String → List String → List String
living live [] = []
living live (id ∷ set) = let rest = living live set in if contains live id then id ∷ rest else rest

abbrev prune_in : String → List String → Option (List String) → MemoryCache → MemoryCache
prune_in host live none c = c
prune_in host live (some set) c = record {
  sessions = drop_dead live set c.sessions;
  host_sessions = store_set host (living live set) c.host_sessions;
}

pub prune_host : String → List String → MemoryCache → MemoryCache
unfolding drop_dead living
prune_host host live c = prune_in host live (lookup host c.host_sessions) c
