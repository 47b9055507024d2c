-- ===== src/Sessions/Cache/Contents.antt =====
-- adapter/sessionstate/cache.go: what a client of `MemoryCache` sees, as a function from session
-- ids to entries. The second index, by which PruneHost finds a host's sessions, is forgotten.
use mathlib.Core.Path.{fun_ext}
use baru_reso_headless_contr.Domain.{LiveSession}
use baru_reso_headless_contr.Prelude.{
  eq_iff, ◌≡◌, refl, ap, ◌∙◌, not, ◌&&◌, Option, none, some, List, [], ◌∷◌, String, str_eq,
  contains, if◌then◌else◌, lookup, lookup-insert, lookup-delete, lookup-nil, arith, Option-cases,
  inl, inr, eq_iff,
}
use baru_reso_headless_contr.Sessions.Cache.{
  Entry, MemoryCache, new_memory_cache, put, remove, get, snapshot_of,
}
use baru_reso_headless_contr.Sessions.Cache.Agreement.{
  owned_by, IndexesAgree, new_memory_cache-IndexesAgree,
}
use baru_reso_headless_contr.Sessions.Cache.Pruning.{
  lookup-prune_host, CacheCall, set_call, delete_call, prune_call, call, calls, call-IndexesAgree,
}

abbrev pub Contents : Type 0
Contents = String → Option Entry

abbrev pub nothing : Contents
nothing s = none

-- What the methods promise.
abbrev pub promised : CacheCall → Contents → Contents
promised (set_call host session none) f s = f s
promised (set_call host session (some snapshot)) f s =
    if str_eq session s then some (record { host_id = host; snapshot = snapshot }) else f s
promised (delete_call session) f s = if str_eq session s then none else f s
promised (prune_call host live) f s =
    if owned_by host (f s) && not (contains live s) then none else f s

abbrev pub promised_all : List CacheCall → Contents → Contents
promised_all [] f = f
promised_all (x ∷ xs) f = promised_all xs (promised x f)

lookup-put :
    (host session s : String) (snapshot : Option LiveSession) (c : MemoryCache)
    → lookup s (put host session snapshot c).sessions
      ≡ promised (set_call host session snapshot) (λ k. lookup k c.sessions) s
unfolding put
lookup-put host session s none c = refl
lookup-put host session s (some snapshot) c = lookup-insert session s _ c.sessions

-- A session that is set is read back.
pub get-put :
    (host session : String) (live : LiveSession) (c : MemoryCache)
    → get session (put host session (some live) c) ≡ some live
unfolding get
get-put host session live c =
    rw (lookup-put host session session (some live) c) (ground (arith, eq_iff session session))

lookup-remove :
    (session s : String) (c : MemoryCache)
    → lookup s (remove session c).sessions
      ≡ promised (delete_call session) (λ k. lookup k c.sessions) s
unfolding remove
lookup-remove session s c = elim (Option-cases (lookup session c.sessions)) [
  | inl absent ↦ rw absent (ground (arith, absent, eq_iff session s))
  | inr (e, present) ↦ rw present (lookup-delete session s c.sessions)
]

lookup-call :
    (x : CacheCall) (c : MemoryCache) (s : String)
    → IndexesAgree c
    → lookup s (call x c).sessions ≡ promised x (λ k. lookup k c.sessions) s
unfolding call
lookup-call (set_call host session snapshot) c s a = lookup-put host session s snapshot c
lookup-call (delete_call session) c s a = lookup-remove session s c
lookup-call (prune_call host live) c s a = lookup-prune_host host live s c a

abbrev pub contents : MemoryCache → Contents
contents c s = lookup s c.sessions

calls_keep_contents :
    (xs : List CacheCall) (c : MemoryCache)
    → IndexesAgree c
    → contents (calls xs c) ≡ promised_all xs (contents c)
unfolding calls
calls_keep_contents [] c a = refl
calls_keep_contents (x ∷ xs) c a =
    let step : contents (call x c) ≡ promised x (contents c) = fun_ext (λ s. lookup-call x c s a) in
    calls_keep_contents xs (call x c) (call-IndexesAgree x c a) ∙ ap (promised_all xs) step

-- After any calls on a new cache, `Get` of every session answers as the same calls on a plain
-- function from sessions to their host and snapshot do: Set without a snapshot does nothing, Set
-- with one replaces the session's entry, Delete drops it, and PruneHost drops what the host owns
-- and the listing lacks. No answer depends on the second index.
pub get-calls_refines :
    (xs : List CacheCall) (s : String)
    → get s (calls xs new_memory_cache) ≡ snapshot_of (promised_all xs nothing s)
unfolding get
get-calls_refines xs s =
    let empty : contents new_memory_cache ≡ nothing = fun_ext (λ k. lookup-nil k) in
    ap snapshot_of (
      ap (λ (f : Contents). f s)
        (calls_keep_contents xs new_memory_cache new_memory_cache-IndexesAgree
          ∙ ap (promised_all xs) empty))
