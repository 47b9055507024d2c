-- ===== src/Sessions/Lifecycle/Ownership.antt =====
-- worker/session_lifecycle_handler.go: which changes of a row an event can make.
use baru_reso_headless_contr.Prelude.{
  ℕ, ◌≡◌, refl, sym, ap, ◌∙◌, Bool, true, false, not, ◌&&◌, none, some, List, [], ◌∷◌, String,
  str_eq, if◌then◌else◌, Result, ok, err, arith, lookup, eq_iff, str_eq→eq, Option-cases,
  Bool-cases, inl, inr,
}
use baru_reso_headless_contr.Domain.{Session, running, ended}
use baru_reso_headless_contr.Sessions.Rows.{
  Store, insert_from_event, apply_started, apply_ended, get_session, find_session,
  insert_session_from_event, apply_session_started, apply_session_ended, older, update_row,
  session_exists, new_session,
}
use baru_reso_headless_contr.Sessions.Lifecycle.{
  Payload, session_started, session_ended, other_payload, handle_session_started,
  handle_session_ended, handle_host_event, handle_at, handle_dated, end_loaded, predates,
}

-- The row before and after an event at a time.
pub data RowChange (host : String) (at : ℕ) (p : Payload) (s s' : Session) : Type 0 where
  unchanged : s' ≡ s → RowChange host at p s s'
  restarted :
      (name : String)
      → p ≡ session_started s.id name
      → older at s.started_at ≡ true
      → s' ≡ record s {
        name = name;
        status = running;
        started_at = some at;
        ended_at = none;
        host_id = host;
      }
      → RowChange host at p s s'
  ended_by_owner :
      p ≡ session_ended s.id
      → s.host_id ≡ host
      → predates at s.started_at ≡ false
      → older at s.ended_at ≡ true
      → s' ≡ record s { status = ended; ended_at = some at }
      → RowChange host at p s s'

pub find-id : (k : String) (s : Session) (ss : List Session) → find_session k ss ≡ ok s → s.id ≡ k
find-id k s [] h = cc
find-id k s (x ∷ ss) h = ground (arith, eq_iff x.id k, find-id k s ss)

pub find-exists :
    (k : String) (s : Session) (ss : List Session)
    → find_session k ss ≡ ok s
    → session_exists k ss ≡ true
find-exists k s [] h = cc
find-exists k s (x ∷ ss) h = ground (arith, find-exists k s ss)

pub find-update_row :
    (k id : String) (guard : Session → Bool) (change : Session → Session) (s : Session)
    (ss : List Session)
    → ((x : Session) → (change x).id ≡ x.id)
    → find_session k ss ≡ ok s
    → find_session k (update_row id guard change ss)
      ≡ ok (if str_eq s.id id && guard s then change s else s)
unfolding update_row
find-update_row k id guard change s [] same h = cc
find-update_row k id guard change s (x ∷ ss) same h =
    ground (arith, same x, find-update_row k id guard change s ss same)

find-insert :
    (k id name host : String) (at : ℕ) (s : Session) (st : Store)
    → find_session k st.sessions ≡ ok s
    → find_session k (insert_session_from_event id name at host st).sessions ≡ ok s
unfolding insert_session_from_event new_session
find-insert k id name host at s st h = elim (Option-cases (lookup host st.hosts)) [
  | inl absent ↦ rw absent h
  | inr (group, found) ↦ rw found (ground (arith, eq_iff id k, find-exists k s st.sessions h))
]

-- The row of session `k` after a handler, with how it changed.
abbrev pub Became : String → String → ℕ → Payload → Session → Store → Type 0
Became k host at p s st =
    (s' : Session) × (find_session k st.sessions ≡ ok s') × RowChange host at p s s'

update_row-Became :
    (k host id : String) (at : ℕ) (p : Payload) (guard : Session → Bool)
    (change : Session → Session) (s : Session) (ss : List Session)
    → ((x : Session) → (change x).id ≡ x.id)
    → find_session k ss ≡ ok s
    → (id ≡ s.id → guard s ≡ true → RowChange host at p s (change s))
    → (s' : Session) × (find_session k (update_row id guard change ss) ≡ ok s')
      × RowChange host at p s s'
update_row-Became k host id at p guard change s ss same h may =
    let found = find-update_row k id guard change s ss same h in
    elim (Bool-cases (str_eq s.id id && guard s)) [
      | inl applies ↦ (
        change s,
        rw applies at found,
        may (sym (str_eq→eq s.id id (ground arith))) (ground arith),
      )
      | inr skipped ↦ (s, rw skipped at found, unchanged refl)
    ]

started-Became :
    (k host : String) (at : ℕ) (id name : String) (s : Session) (st : Store)
    → find_session k st.sessions ≡ ok s
    → Became k host at (session_started id name) s (handle_session_started host at id name st)
unfolding handle_session_started apply_session_started
started-Became k host at id name s st h = go (st.down insert_from_event) (st.down apply_started)
  where
    inserted : Store
    inserted = insert_session_from_event id name at host st

    go :
        (a b : Bool)
        → Became k host at (session_started id name) s (
            if a
            then st
            else (if b then inserted else apply_session_started id host name at inserted))
    go true b = (s, h, unchanged refl)
    go false true = (s, find-insert k id name host at s st h, unchanged refl)
    go false false =
        update_row-Became k host id at (session_started id name) (λ x. older at x.started_at) _ s
          inserted.sessions (λ x. refl) (find-insert k id name host at s st h)
          (λ same newer. restarted name (ap (λ i. session_started i name) same) newer refl)

ended-Became :
    (k host : String) (at : ℕ) (id : String) (s : Session) (st : Store)
    → find_session k st.sessions ≡ ok s
    → Became k host at (session_ended id) s (handle_session_ended host at id st)
unfolding handle_session_ended end_loaded apply_session_ended
ended-Became k host at id s st h = go (st.down get_session) (find_session id st.sessions) refl
  where
    applied :
        (r : Session) (b : Bool)
        → find_session id st.sessions ≡ ok r
        → (str_eq r.host_id host && not (predates at r.started_at) && not (st.down apply_ended)) ≡ b
        → Became k host at
            (session_ended id)
            s
            (if b then apply_session_ended id host at st else st)
    applied r false found e = (s, h, unchanged refl)
    applied r true found e =
        update_row-Became k host id at (session_ended id)
          (λ x. str_eq x.host_id host && older at x.ended_at) _ s st.sessions (λ x. refl) h
          (λ same passes.
            let loaded : ok r ≡ ok s =
              sym found
              ∙ ap (λ i. find_session i st.sessions) (same ∙ find-id k s st.sessions h)
              ∙ h in
            ended_by_owner (ap session_ended same) (str_eq→eq s.host_id host (ground arith))
              (ground (arith, loaded)) (ground arith) refl)

    go :
        (refuses : Bool) (r : Result Session)
        → find_session id st.sessions ≡ r
        → Became k host at (session_ended id) s (if refuses then st else end_loaded host at id r st)
    go true r found = (s, h, unchanged refl)
    go false (err e) found = (s, h, unchanged refl)
    go false (ok r) found = applied r _ found refl

-- What a dated event of a host does to a row that is there: nothing; or, if it is a newer start of
-- that session, the start; or, if it is an end of that session that the owning host reports, not
-- before the start and newer than any end, the end. No other column moves, the start only forward.
pub handle_host_event-Became :
    (k host : String) (at : ℕ) (p : Payload) (s : Session) (st : Store)
    → find_session k st.sessions ≡ ok s
    → Became k host at p s
        (handle_host_event host (record { occurred_at = some at; payload = p }) st)
unfolding handle_host_event handle_dated handle_at
handle_host_event-Became k host at (session_started id name) s st h =
    started-Became k host at id name s st h
handle_host_event-Became k host at (session_ended id) s st h = ended-Became k host at id s st h
handle_host_event-Became k host at other_payload s st h = (s, h, unchanged refl)
