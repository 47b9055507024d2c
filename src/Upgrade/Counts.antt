-- ===== src/Upgrade/Counts.antt =====
-- worker/host_upgrade_orchestrator.go: the cache of user counts, `bumpUserCount`, `forgetSession`
-- and the retry counter of `recordRestartFailure`.
use baru_reso_headless_contr.Prelude.{
  ◌≡◌, ◌≢◌, Option, none, some, [], ◌∷◌, String, str_eq, arith, lookup, insert, delete,
  lookup-insert, lookup-delete, lookup-nil, if◌then◌else◌, ◌&&◌, eq_iff, Map, ne→str_eq,
  Option-cases, inl, inr,
}
use baru_reso_headless_contr.Prelude.Int32.{ℤ, Delta, add_delta, max_zero}
use baru_reso_headless_contr.Upgrade.{
  Orchestrator, bump_user_count, set_user_count, forget_session, counts_of, count_or_zero,
  store_unless_empty,
}

-- The cached count of a session on a host.
abbrev pub count : String → String → Orchestrator → Option ℤ
count host session o = lookup session (counts_of (lookup host o.session_users))

count-set_user_count :
    (host session h s : String) (n : ℤ) (o : Orchestrator)
    → count h s (set_user_count host session n o)
      ≡ (if str_eq host h && str_eq session s then some n else count h s o)
unfolding set_user_count
count-set_user_count host session h s n o =
    let m = counts_of (lookup host o.session_users) in
    ground (
      arith,
      eq_iff host h,
      lookup-insert host h (insert session n m) o.session_users,
      lookup-insert session s n m,
    )

-- A user event moves the count of its session by one, never below 0, and no other count.
pub count-bump_user_count :
    (host session h s : String) (delta : Delta) (o : Orchestrator)
    → host ≢ ""
    → session ≢ ""
    → count h s (bump_user_count host session delta o) ≡ (
        if str_eq host h && str_eq session s
        then some (max_zero (add_delta (count_or_zero (count host session o)) delta))
        else count h s o)
unfolding bump_user_count
count-bump_user_count host session h s delta o hne sne =
    rw (ne→str_eq host "" hne, ne→str_eq session "" sne)
      (count-set_user_count host session h s
        (max_zero (add_delta (count_or_zero (count host session o)) delta)) o)

lookup-store_unless_empty :
    (host h : String) (m : Map ℤ) (users : Map (Map ℤ))
    → counts_of (lookup h (store_unless_empty host m users))
      ≡ (if str_eq host h then m else counts_of (lookup h users))
lookup-store_unless_empty host h [] users = simp lookup-delete (ground arith)
lookup-store_unless_empty host h (c ∷ m) users = simp lookup-insert (ground arith)

-- Forgetting a session removes its count and keeps all others.
pub count-forget_session :
    (host session h s : String) (o : Orchestrator)
    → count h s (forget_session host session o)
      ≡ (if str_eq host h && str_eq session s then none else count h s o)
unfolding forget_session
count-forget_session host session h s o = elim (Option-cases (lookup host o.session_users)) [
  | inl unseen ↦ rw unseen (ground (arith, eq_iff host h, unseen, lookup-nil {V = ℤ} s))
  | inr (m, seen) ↦ rw seen (
      ground (
        arith,
        eq_iff host h,
        lookup-store_unless_empty host h (delete session m) o.session_users,
        lookup-delete session s m,
        seen,
      ))
]
