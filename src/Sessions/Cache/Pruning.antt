-- ===== src/Sessions/Cache/Pruning.antt =====
-- adapter/sessionstate/cache.go: what PruneHost drops, and that every method keeps the indexes.
use baru_reso_headless_contr.Domain.{LiveSession}
use baru_reso_headless_contr.Prelude.{
  ◌≡◌, refl, false, not, ◌&&◌, Option, none, some, List, [], ◌∷◌, String, str_eq, contains,
  if◌then◌else◌, Map, lookup, delete, lookup-delete, eq_iff, arith, Option-cases, inl, inr,
}
use baru_reso_headless_contr.Sessions.Cache.{
  Entry, MemoryCache, new_memory_cache, store_set, put, remove, drop_dead, living, prune_host,
  set_or_empty,
}
use baru_reso_headless_contr.Sessions.Cache.Agreement.{
  owned_by, IndexesAgree, owner_is, put-IndexesAgree, remove-IndexesAgree, set-store_set,
  new_memory_cache-IndexesAgree,
}

lookup-drop_dead :
    (live set : List String) (s : String) (m : Map Entry)
    → lookup s (drop_dead live set m)
      ≡ (if contains set s && not (contains live s) then none else lookup s m)
unfolding drop_dead
lookup-drop_dead live [] s m = refl
lookup-drop_dead live (id ∷ set) s m = ground (
  arith,
  eq_iff id s,
  lookup-drop_dead live set s m,
  lookup-drop_dead live set s (delete id m),
  lookup-delete id s m,
)

contains-living :
    (live set : List String) (s : String)
    → contains (living live set) s ≡ (contains set s && contains live s)
unfolding living
contains-living live [] s = refl
contains-living live (id ∷ set) s = ground (arith, eq_iff id s, contains-living live set s)

-- While the indexes agree, pruning a host drops exactly the entries that the host owns and that are
-- not in the listing, and changes no other entry.
pub lookup-prune_host :
    (host : String) (live : List String) (s : String) (c : MemoryCache)
    → IndexesAgree c
    → lookup s (prune_host host live c).sessions
      ≡ (if owner_is s host c && not (contains live s) then none else lookup s c.sessions)
unfolding prune_host
lookup-prune_host host live s c a = elim (Option-cases (lookup host c.host_sessions)) [
  | inl absent ↦ rw absent (ground (arith, absent, a.agree s host))
  | inr (set, present) ↦
      rw present (ground (arith, present, a.agree s host, lookup-drop_dead live set s c.sessions))
]

owner_unique :
    (s host h : String) (c : MemoryCache)
    → (owner_is s host c && owner_is s h c && not (str_eq host h)) ≡ false
owner_unique s host h c = elim (Option-cases (lookup s c.sessions)) [
  | inl absent ↦ ground (arith, absent)
  | inr (e, present) ↦
      ground (arith, present, eq_iff e.host_id host, eq_iff e.host_id h, eq_iff host h)
]

pub prune_host-IndexesAgree :
    (host : String) (live : List String) (c : MemoryCache)
    → IndexesAgree c
    → IndexesAgree (prune_host host live c)
unfolding prune_host
prune_host-IndexesAgree host live c a = elim (Option-cases (lookup host c.host_sessions)) [
  | inl absent ↦ rw absent a
  | inr (set, present) ↦ rw present (record { agree = λ s h. pruned set present s h })
]
  where
    pruned :
        (set : List String)
        → lookup host c.host_sessions ≡ some set
        → (s h : String)
        → contains (set_or_empty (lookup h (store_set host (living live set) c.host_sessions))) s
          ≡ owned_by h (lookup s (drop_dead live set c.sessions))
    pruned set present s h =
        rw
          (
            set-store_set host h (living live set) c.host_sessions,
            lookup-drop_dead live set s c.sessions,
          )
          (ground (
            arith,
            present,
            a.agree s h,
            a.agree s host,
            owner_unique s host h c,
            eq_iff host h,
            contains-living live set s,
          ))

-- The methods that write.
pub data CacheCall : Type 0 where
  set_call : String → String → Option LiveSession → CacheCall
  delete_call : String → CacheCall
  prune_call : String → List String → CacheCall

unfoldable pub call : CacheCall → MemoryCache → MemoryCache
call (set_call host session snapshot) c = put host session snapshot c
call (delete_call session) c = remove session c
call (prune_call host live) c = prune_host host live c

unfoldable pub calls : List CacheCall → MemoryCache → MemoryCache
calls [] c = c
calls (x ∷ xs) c = calls xs (call x c)

pub call-IndexesAgree : (x : CacheCall) (c : MemoryCache) → IndexesAgree c → IndexesAgree (call x c)
unfolding call
call-IndexesAgree (set_call host session snapshot) c a = put-IndexesAgree host session snapshot c a
call-IndexesAgree (delete_call session) c a = remove-IndexesAgree session c a
call-IndexesAgree (prune_call host live) c a = prune_host-IndexesAgree host live c a

calls_keep : (xs : List CacheCall) (c : MemoryCache) → IndexesAgree c → IndexesAgree (calls xs c)
unfolding calls
calls_keep [] c a = a
calls_keep (x ∷ xs) c a = calls_keep xs (call x c) (call-IndexesAgree x c a)

-- After any sequence of calls on a new cache, a host's set holds exactly the sessions whose entry
-- names the host, so a session that moved to another host is in the new host's set alone.
pub calls-IndexesAgree : (xs : List CacheCall) → IndexesAgree (calls xs new_memory_cache)
calls-IndexesAgree xs = calls_keep xs new_memory_cache new_memory_cache-IndexesAgree
