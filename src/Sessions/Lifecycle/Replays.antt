-- ===== src/Sessions/Lifecycle/Replays.antt =====
-- worker/session_lifecycle_handler.go: an event that comes twice.
use baru_reso_headless_contr.Prelude.{
  ◌⊎◌, sym, ℕ, ◌≡◌, refl, ap, ◌∙◌, Bool, true, false, not, ◌&&◌, Option, none, some, List, [], ◌∷◌,
  String, str_eq, if◌then◌else◌, Result, ok, err, arith, lookup, eq_refl, Option-cases, Bool-cases,
  inl, inr,
}
use baru_reso_headless_contr.Domain.{Session}
use baru_reso_headless_contr.Sessions.Rows.{
  Store, SessionQuery, insert_from_event, apply_started, apply_ended, get_session, find_session,
  insert_session_from_event, apply_session_started, apply_session_ended, update_row, session_exists,
  new_session,
}
use baru_reso_headless_contr.Sessions.Lifecycle.{
  Event, Payload, session_started, session_ended, other_payload, handle_session_started,
  handle_session_ended, handle_host_event, handle_at, handle_dated, end_loaded, predates,
}

-- An update whose guard its own change closes does nothing the second time.
update_row_twice :
    (id : String) (guard : Session → Bool) (change : Session → Session) (ss : List Session)
    → ((s : Session) → guard (change s) ≡ false)
    → update_row id guard change (update_row id guard change ss) ≡ update_row id guard change ss
unfolding update_row
update_row_twice id guard change [] closes = refl
update_row_twice id guard change (s ∷ ss) closes = elim (Bool-cases (str_eq s.id id && guard s)) [
  | inl chosen ↦ rw (chosen, closes s) (ground (arith, update_row_twice id guard change ss closes))
  | inr skipped ↦ ground (arith, skipped, update_row_twice id guard change ss closes)
]

session_exists-update_row :
    (k id : String) (guard : Session → Bool) (change : Session → Session) (ss : List Session)
    → ((s : Session) → (change s).id ≡ s.id)
    → session_exists k (update_row id guard change ss) ≡ session_exists k ss
unfolding update_row
session_exists-update_row k id guard change [] same = refl
session_exists-update_row k id guard change (s ∷ ss) same =
    ground (arith, same s, session_exists-update_row k id guard change ss same)

-- An insertion for a session that is there, or for a host that is not, does nothing.
insert_idle :
    (id name host : String) (at : ℕ) (st : Store)
    → (lookup host st.hosts ≡ none) ⊎ (session_exists id st.sessions ≡ true)
    → insert_session_from_event id name at host st ≡ st
unfolding insert_session_from_event
insert_idle id name host at st (inl absent) = rw absent
insert_idle id name host at st (inr there_is) = elim (Option-cases (lookup host st.hosts)) [
  | inl absent ↦ rw absent
  | inr (group, found) ↦ rw (found, there_is)
]

inserted-idle :
    (id name host : String) (at : ℕ) (st : Store)
    → (lookup host st.hosts ≡ none)
      ⊎ (session_exists id (insert_session_from_event id name at host st).sessions ≡ true)
unfolding insert_session_from_event new_session
inserted-idle id name host at st = elim (Option-cases (lookup host st.hosts)) [
  | inl absent ↦ inl absent
  | inr (group, found) ↦ inr (rw found (ground (arith, eq_refl id)))
]

started_twice :
    (id host name : String) (at : ℕ) (st : Store)
    → apply_session_started id host name at (apply_session_started id host name at st)
      ≡ apply_session_started id host name at st
unfolding apply_session_started
started_twice id host name at st =
    ap (λ ss. record st { sessions = ss }) (update_row_twice id _ _ st.sessions (λ s. ground arith))

ended_twice :
    (id host : String) (at : ℕ) (st : Store)
    → apply_session_ended id host at (apply_session_ended id host at st)
      ≡ apply_session_ended id host at st
unfolding apply_session_ended
ended_twice id host at st =
    ap (λ ss. record st { sessions = ss }) (update_row_twice id _ _ st.sessions (λ s. ground arith))

exists-started :
    (id host name : String) (at : ℕ) (st : Store)
    → session_exists id (apply_session_started id host name at st).sessions
      ≡ session_exists id st.sessions
unfolding apply_session_started
exists-started id host name at st = session_exists-update_row id id _ _ st.sessions (λ s. refl)

insert_after_start :
    (id host name : String) (at : ℕ) (st : Store)
    → insert_session_from_event id name at host
        (apply_session_started id host name at (insert_session_from_event id name at host st))
      ≡ apply_session_started id host name at (insert_session_from_event id name at host st)
unfolding apply_session_started insert_session_from_event
insert_after_start id host name at st =
    insert_idle id name host at
      (apply_session_started id host name at (insert_session_from_event id name at host st))
      (still (inserted-idle id name host at st))
  where
    inserted : Store
    inserted = insert_session_from_event id name at host st

    still :
        (lookup host st.hosts ≡ none) ⊎ (session_exists id inserted.sessions ≡ true)
        → (lookup host (apply_session_started id host name at inserted).hosts ≡ none)
          ⊎ (session_exists id (apply_session_started id host name at inserted).sessions ≡ true)
    still (inl absent) = inl absent
    still (inr there_is) = inr (exists-started id host name at inserted ∙ there_is)

-- The handler, with the answers to whether its statements are refused.
started_if : Bool → Bool → String → ℕ → String → String → Store → Store
started_if refuses_insert refuses_apply host at id name st =
    if refuses_insert
    then st
    else (let inserted = insert_session_from_event id name at host st in
        if refuses_apply then inserted else apply_session_started id host name at inserted)

down-started_if :
    (a b : Bool) (host : String) (at : ℕ) (id name : String) (st : Store)
    → (started_if a b host at id name st).down ≡ st.down
unfolding started_if apply_session_started insert_session_from_event
down-started_if true b host at id name st = refl
down-started_if false true host at id name st = refl
down-started_if false false host at id name st = refl

started_if_twice :
    (a b : Bool) (host : String) (at : ℕ) (id name : String) (st : Store)
    → started_if a b host at id name (started_if a b host at id name st)
      ≡ started_if a b host at id name st
unfolding started_if insert_session_from_event
started_if_twice true b host at id name st = refl
started_if_twice false true host at id name st =
    insert_idle id name host at (insert_session_from_event id name at host st)
      (inserted-idle id name host at st)
started_if_twice false false host at id name st =
    ap (apply_session_started id host name at) (insert_after_start id host name at st)
    ∙ started_twice id host name at (insert_session_from_event id name at host st)

handle_session_started_twice :
    (host : String) (at : ℕ) (id name : String) (st : Store)
    → handle_session_started host at id name (handle_session_started host at id name st)
      ≡ handle_session_started host at id name st
unfolding handle_session_started started_if
handle_session_started_twice host at id name st =
    let handled = handle_session_started host at id name st in
    ap
      (λ (d : SessionQuery → Bool).
        started_if (d insert_from_event) (d apply_started) host at id name handled)
      (down-started_if (st.down insert_from_event) (st.down apply_started) host at id name st)
    ∙ started_if_twice (st.down insert_from_event) (st.down apply_started) host at id name st

-- What an ended event does to the rows: nothing, or the update.
ended-cases :
    (host : String) (at : ℕ) (id : String) (st : Store)
    → (handle_session_ended host at id st ≡ st)
      ⊎ (handle_session_ended host at id st ≡ apply_session_ended id host at st)
unfolding handle_session_ended end_loaded
ended-cases host at id st = go (st.down get_session) (find_session id st.sessions)
  where
    go :
        (refuses : Bool) (r : Result Session)
        → ((if refuses then st else end_loaded host at id r st) ≡ st)
          ⊎ ((if refuses then st else end_loaded host at id r st)
              ≡ apply_session_ended id host at st)
    go true r = inl refl
    go false (err e) = inl refl
    go false (ok s) =
        elim (Bool-cases
          (str_eq s.host_id host && not (predates at s.started_at) && not (st.down apply_ended))) [
            | inl applies ↦ inr (rw applies)
            | inr not_now ↦ inl (rw not_now)
          ]

handle_session_ended_twice :
    (host : String) (at : ℕ) (id : String) (st : Store)
    → handle_session_ended host at id (handle_session_ended host at id st)
      ≡ handle_session_ended host at id st
handle_session_ended_twice host at id st =
    go (ended-cases host at id st) (ended-cases host at id (handle_session_ended host at id st))
  where
    again : Store
    again = handle_session_ended host at id (handle_session_ended host at id st)

    go :
        (handle_session_ended host at id st ≡ st)
          ⊎ (handle_session_ended host at id st ≡ apply_session_ended id host at st)
        → (again ≡ handle_session_ended host at id st)
          ⊎ (again ≡ apply_session_ended id host at (handle_session_ended host at id st))
        → again ≡ handle_session_ended host at id st
    go (inl same) later = ap (handle_session_ended host at id) same
    go (inr updated) (inl same) = same
    go (inr updated) (inr again_updated) =
        again_updated
        ∙ ap (apply_session_ended id host at) updated
        ∙ ended_twice id host at st
        ∙ sym updated

-- Handling the same event of a host twice in a row is handling it once, whichever statements the
-- database refuses.
pub handle_host_event_twice :
    (host : String) (e : Event) (st : Store)
    → handle_host_event host e (handle_host_event host e st) ≡ handle_host_event host e st
unfolding handle_host_event handle_dated handle_at
handle_host_event_twice host e st = go e.occurred_at e.payload
  where
    go :
        (at : Option ℕ) (p : Payload)
        → handle_dated host at p (handle_dated host at p st) ≡ handle_dated host at p st
    go none p = refl
    go (some at) (session_started id name) = handle_session_started_twice host at id name st
    go (some at) (session_ended id) = handle_session_ended_twice host at id st
    go (some at) other_payload = refl
