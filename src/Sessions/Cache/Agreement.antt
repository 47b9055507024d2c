-- ===== src/Sessions/Cache/Agreement.antt =====
-- adapter/sessionstate/cache.go: the two indexes agree.
use baru_reso_headless_contr.Domain.{LiveSession}
use baru_reso_headless_contr.Prelude.{
  ◌≡◌, refl, Bool, true, false, not, ◌&&◌, Option, none, some, List, [], ◌∷◌, String, str_eq,
  contains, if◌then◌else◌, Map, lookup, lookup-insert, lookup-delete, eq_iff, arith, Option-cases,
  inl, inr, lookup-nil,
}
use baru_reso_headless_contr.Sessions.Cache.{
  Entry, MemoryCache, new_memory_cache, without, with_id, store_set, remove_from_host_index,
  set_or_empty, link, put, remove, leave_previous,
}

-- Does the session's entry name the host, and does the host's set name the session?
abbrev pub owned_by : String → Option Entry → Bool
owned_by host none = false
owned_by host (some e) = str_eq e.host_id host

abbrev pub owner_is : String → String → MemoryCache → Bool
owner_is session host c = owned_by host (lookup session c.sessions)

abbrev pub indexed : String → String → MemoryCache → Bool
indexed session host c = contains (set_or_empty (lookup host c.host_sessions)) session

-- A host's set holds exactly the sessions whose entry names the host.
pub record IndexesAgree (c : MemoryCache) : Type 0 where
  pub agree : (session host : String) → indexed session host c ≡ owner_is session host c

contains-without :
    (id k : String) (set : List String)
    → contains (without id set) k ≡ (contains set k && not (str_eq id k))
unfolding without
contains-without id k [] = refl
contains-without id k (x ∷ set) =
    ground (arith, eq_iff x id, eq_iff x k, eq_iff id k, contains-without id k set)

pub set-store_set :
    (host h : String) (set : List String) (m : Map (List String))
    → set_or_empty (lookup h (store_set host set m))
      ≡ (if str_eq host h then set else set_or_empty (lookup h m))
set-store_set host h [] m = ground (arith, lookup-delete host h m)
set-store_set host h (x ∷ set) m = ground (arith, lookup-insert host h (x ∷ set) m)

contains-unlink :
    (host session h s : String) (m : Map (List String))
    → contains (set_or_empty (lookup h (remove_from_host_index host session m))) s
      ≡ (contains (set_or_empty (lookup h m)) s && not (str_eq host h && str_eq session s))
unfolding remove_from_host_index
contains-unlink host session h s m = elim (Option-cases (lookup host m)) [
  | inl absent ↦ rw absent (ground (arith, absent, eq_iff host h))
  | inr (set, present) ↦ rw present (
      rw (set-store_set host h (without session set) m)
        (ground (arith, present, eq_iff host h, contains-without session s set)))
]

contains-link :
    (host session h s : String) (m : Map (List String))
    → contains (set_or_empty (lookup h (link host session m))) s
      ≡ (if str_eq host h && str_eq session s then true else contains (set_or_empty (lookup h m)) s)
unfolding link with_id
contains-link host session h s m = ground (
  arith,
  eq_iff host h,
  eq_iff session s,
  contains-without session s (set_or_empty (lookup host m)),
  lookup-insert host h (session ∷ without session (set_or_empty (lookup host m))) m,
)

pub new_memory_cache-IndexesAgree : IndexesAgree new_memory_cache
new_memory_cache-IndexesAgree = record {
  agree = λ session host.
      ground (arith, lookup-nil {V = List String} host, lookup-nil {V = Entry} session);
}

contains-leave_previous :
    (host session h s : String) (o : Option Entry) (m : Map (List String))
    → contains (set_or_empty (lookup h (leave_previous host session o m))) s ≡ (
        contains (set_or_empty (lookup h m)) s
        && not (owned_by h o && str_eq session s && not (str_eq h host)))
contains-leave_previous host session h s none m = ground arith
contains-leave_previous host session h s (some prev) m = ground (
  arith,
  eq_iff prev.host_id host,
  eq_iff prev.host_id h,
  eq_iff h host,
  contains-unlink prev.host_id session h s m,
)

pub put-IndexesAgree :
    (host session : String) (snapshot : Option LiveSession) (c : MemoryCache)
    → IndexesAgree c
    → IndexesAgree (put host session snapshot c)
unfolding put
put-IndexesAgree host session none c a = a
put-IndexesAgree host session (some snapshot) c a = record {
  agree = λ s h. ground (
    arith,
    a.agree s h,
    eq_iff session s,
    eq_iff host h,
    eq_iff h host,
    contains-link host session h s
        (leave_previous host session (lookup session c.sessions) c.host_sessions),
    contains-leave_previous host session h s (lookup session c.sessions) c.host_sessions,
    lookup-insert session s (record { host_id = host; snapshot = snapshot }) c.sessions,
  );
}

pub remove-IndexesAgree :
    (session : String) (c : MemoryCache) → IndexesAgree c → IndexesAgree (remove session c)
unfolding remove
remove-IndexesAgree session c a = elim (Option-cases (lookup session c.sessions)) [
  | inl absent ↦ rw absent a
  | inr (e, present) ↦ rw present (record {
    agree = λ s h. ground (
      arith,
      present,
      a.agree s h,
      eq_iff session s,
      eq_iff e.host_id h,
      contains-unlink e.host_id session h s c.host_sessions,
      lookup-delete session s c.sessions,
    );
  })
]
