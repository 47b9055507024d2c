-- ===== src/Sessions/StateSync/Resets.antt =====
-- worker/session_state_sync_handler.go: what a stream reset demotes, and what it leaves in the cache.
use baru_reso_headless_contr.Prelude.{Unique}
use baru_reso_headless_contr.Sessions.StateSync.Reports.{
  session_ids, contains-live_map, contains-running_of_host,
}
use baru_reso_headless_contr.Prelude.{
  ◌≡◌, refl, ◌∙◌, Bool, false, ◌&&◌, not, List, [], ◌∷◌, String, str_eq, eq_iff, contains,
  if◌then◌else◌, keys, Result, ok, err, arith, Bool-cases, inl, inr,
}
use baru_reso_headless_contr.Domain.{Session, SessionStatus, LiveSession}
use baru_reso_headless_contr.Sessions.Rows.{
  Store, downgrade, list_running, downgrade_to_unknown_if_running, running_of_host, find_session,
  is_running,
}
use baru_reso_headless_contr.Sessions.Lifecycle.Ownership.{find-update_row}
use baru_reso_headless_contr.Sessions.StateSync.{
  State, live_map, demote_missing, rebuild, reset_with, handle_stream_reset,
}

-- A demotion of one row.
find-downgrade :
    (k id : String) (s : Session) (st : Store)
    → find_session k st.sessions ≡ ok s
    → find_session k (downgrade_to_unknown_if_running id st).sessions
      ≡ ok (
          if str_eq s.id id && is_running s.status
          then record s { status = SessionStatus.unknown }
          else s)
unfolding downgrade_to_unknown_if_running
find-downgrade k id s st h =
    find-update_row k id (λ x. is_running x.status)
      (λ x. record x { status = SessionStatus.unknown }) s st.sessions (λ x. refl) h

abbrev pub demoted_if : Bool → Session → Session
demoted_if b s = if b then record s { status = SessionStatus.unknown } else s

-- One round of the loop.
demote_one : List String → String → Store → Store
demote_one live id st =
    if contains live id
    then st
    else (if st.down downgrade then st else downgrade_to_unknown_if_running id st)

down-demote_one :
    (live : List String) (id : String) (st : Store) → (demote_one live id st).down ≡ st.down
unfolding demote_one downgrade_to_unknown_if_running
down-demote_one live id st = ground arith

find-demote_one :
    (live : List String) (k id : String) (s : Session) (st : Store)
    → find_session k st.sessions ≡ ok s
    → find_session k (demote_one live id st).sessions
      ≡ ok (
          demoted_if
            (str_eq id s.id
              && not (contains live s.id)
              && not (st.down downgrade)
              && is_running s.status)
            s)
unfolding demote_one
find-demote_one live k id s st h =
    ground (arith, eq_iff id s.id, eq_iff s.id id, find-downgrade k id s st h)

find-demote_missing :
    (live : List String) (k : String) (ss : List Session) (s : Session) (st : Store)
    → find_session k st.sessions ≡ ok s
    → find_session k (demote_missing live ss st).sessions
      ≡ ok (
          demoted_if
            (contains (session_ids ss) s.id
              && not (contains live s.id)
              && not (st.down downgrade)
              && is_running s.status)
            s)
unfolding demote_missing demote_one
find-demote_missing live k [] s st h = h
find-demote_missing live k (x ∷ ss) s st h =
    let st' = demote_one live x.id st in
    let found = find-demote_one live k x.id s st h in
    elim (Bool-cases (
      str_eq x.id s.id
      && not (contains live s.id)
      && not (st.down downgrade)
      && is_running s.status)) [
        | inl now ↦
            let rest =
              find-demote_missing live k ss (record s { status = SessionStatus.unknown }) st'
                (rw now at found) in
            rest ∙ (ground (arith, now))
        | inr later ↦
            let rest = find-demote_missing live k ss s st' (rw later at found) in
            rest ∙ rw (down-demote_one live x.id st) (ground (arith, later))
      ]

-- The host answered, and both statements are taken.
abbrev pub resync_done : Store → Result (List (String × LiveSession)) → Bool
resync_done st (err e) = false
resync_done st (ok reported) = not (st.down list_running) && not (st.down downgrade)

abbrev pub reported_ids : Result (List (String × LiveSession)) → List String
reported_ids (err e) = []
reported_ids (ok reported) = keys reported

-- With unique ids, a stream reset demotes a row exactly if it is of the host and running, and the
-- host, which answered, does not report it; only the status changes, and no other row does.
pub find-handle_stream_reset :
    (host k : String) (reported : Result (List (String × LiveSession))) (s : Session) (w : State)
    → Unique (session_ids w.store.sessions)
    → find_session k w.store.sessions ≡ ok s
    → find_session k (handle_stream_reset host reported w).store.sessions
      ≡ ok (
          demoted_if
            (resync_done w.store reported
              && str_eq s.host_id host
              && is_running s.status
              && not (contains (reported_ids reported) s.id))
            s)
unfolding handle_stream_reset reset_with rebuild
find-handle_stream_reset host k (err e) s w unique h = ground arith
find-handle_stream_reset host k (ok reported) s w unique h = ground (
  arith,
  find-demote_missing (keys (live_map reported [])) k (running_of_host host w.store.sessions) s
      w.store h,
  contains-running_of_host host k s w.store.sessions unique h,
  contains-live_map reported s.id,
)
