-- ===== src/Sessions/Rows.antt =====
-- db/sessions.sql.go with adapter/session_repository.go: the statements that the event handlers run
-- on the sessions table. `down` says which of them fail: the database refuses it, or a row that it
-- reads has startup parameters that protojson does not parse.
use baru_reso_headless_contr.Prelude.{
  ℕ, Bool, true, false, ◌&&◌, ◌||◌, Option, none, some, List, [], ◌∷◌, String, str_eq, ltb,
  if◌then◌else◌, Map, lookup, insert, delete, Result, ok, err, not_found,
}
use baru_reso_headless_contr.Domain.{Session, SessionStatus, running, ended, LiveSession}

pub data SessionQuery : Type 0 where
  insert_from_event apply_started apply_ended : SessionQuery
  apply_parameters update_world downgrade get_session list_running : SessionQuery
  upsert update_status delete_row list_paged list_by_status : SessionQuery

-- `hosts` has the group of each host.
pub record Store : Type 0 where
  pub hosts : Map String
  pub sessions : List Session
  pub down : SessionQuery → Bool

-- UPDATE … WHERE id = $1 AND guard
unfoldable pub update_row :
    String → (Session → Bool) → (Session → Session) → List Session → List Session
update_row id guard change [] = []
update_row id guard change (s ∷ ss) =
    (if str_eq s.id id && guard s then change s else s) ∷ update_row id guard change ss

abbrev pub find_session : String → List Session → Result Session
find_session id [] = err not_found
find_session id (s ∷ ss) = if str_eq s.id id then ok s else find_session id ss

abbrev pub session_exists : String → List Session → Bool
session_exists id [] = false
session_exists id (s ∷ ss) = str_eq s.id id || session_exists id ss

abbrev pub is_running : SessionStatus → Bool
is_running running = true
is_running _ = false

unfoldable pub new_session : String → String → ℕ → String → String → Session
new_session id name at host group = record {
  id = id;
  name = name;
  status = running;
  started_at = some at;
  created_by = none;
  ended_at = none;
  host_id = host;
  startup_parameters = [];
  auto_upgrade = false;
  memo = "";
  group_id = group;
}

-- The row takes its group from the host's row; without one nothing is inserted.
abbrev pub insert_row : String → String → ℕ → String → Option String → List Session → List Session
insert_row id name at host none ss = ss
insert_row id name at host (some group) ss =
    if session_exists id ss then ss else new_session id name at host group ∷ ss

-- ON CONFLICT (id) DO NOTHING
unfoldable pub insert_session_from_event : String → String → ℕ → String → Store → Store
unfolding new_session
insert_session_from_event id name at host st = record st {
  sessions = insert_row id name at host (lookup host st.hosts) st.sessions;
}

-- `x IS NULL OR x < t`
abbrev pub older : ℕ → Option ℕ → Bool
older t none = true
older t (some x) = ltb x t

unfoldable pub apply_session_started : String → String → String → ℕ → Store → Store
unfolding update_row
apply_session_started id host name at st = record st {
  sessions =
      update_row id (λ s. older at s.started_at)
        (λ s. record s {
          name = name;
          status = running;
          started_at = some at;
          ended_at = none;
          host_id = host;
        })
        st.sessions;
}

unfoldable pub apply_session_ended : String → String → ℕ → Store → Store
unfolding update_row
apply_session_ended id host at st = record st {
  sessions =
      update_row id (λ s. str_eq s.host_id host && older at s.ended_at)
        (λ s. record s { status = ended; ended_at = some at }) st.sessions;
}

unfoldable pub downgrade_to_unknown_if_running : String → Store → Store
unfolding update_row
downgrade_to_unknown_if_running id st = record st {
  sessions =
      update_row id (λ s. is_running s.status) (λ s. record s { status = SessionStatus.unknown })
        st.sessions;
}

-- `a || b` on JSON objects
unfoldable pub merged : Map String → Map String → Map String
merged a [] = a
merged a ((k, v) ∷ b) = insert k v (merged a b)

unfoldable pub apply_session_parameters_changed : String → LiveSession → Store → Store
unfolding update_row merged
apply_session_parameters_changed id live st = record st {
  sessions =
      update_row id (λ s. true)
        (λ s. record s {
          name = live.name;
          startup_parameters = merged s.startup_parameters live.overlap;
        })
        st.sessions;
}

unfoldable pub update_after_world_saved : String → String → Store → Store
unfolding update_row
update_after_world_saved id url st = record st {
  sessions =
      update_row id (λ s. true)
        (λ s. record s {
          startup_parameters =
              insert "loadWorldUrl" url (delete "loadWorldPresetName" s.startup_parameters);
        })
        st.sessions;
}

unfoldable pub running_of_host : String → List Session → List Session
running_of_host host [] = []
running_of_host host (s ∷ ss) =
    let rest = running_of_host host ss in
    if str_eq s.host_id host && is_running s.status then s ∷ rest else rest

-- The first value that is there.
abbrev pub coalesce : Option String → Option String → Option String
coalesce none b = b
coalesce (some a) b = some a

-- ON CONFLICT (id) DO UPDATE: the creator and the group of a row that is there stay.
abbrev pub overwrite : Session → Session → Session
overwrite s old = record s {
  created_by = coalesce old.created_by s.created_by;
  group_id = old.group_id;
}

unfoldable pub upsert_session : Session → Store → Store
unfolding update_row
upsert_session s st = record st {
  sessions =
      if session_exists s.id st.sessions
      then update_row s.id (λ old. true) (overwrite s) st.sessions
      else s ∷ st.sessions;
}

unfoldable pub update_session_status : String → SessionStatus → Store → Store
unfolding update_row
update_session_status id status st = record st {
  sessions = update_row id (λ s. true) (λ s. record s { status = status }) st.sessions;
}

unfoldable pub sessions_except : String → List Session → List Session
sessions_except id [] = []
sessions_except id (s ∷ ss) =
    let rest = sessions_except id ss in if str_eq s.id id then rest else s ∷ rest

unfoldable pub delete_session_row : String → Store → Store
unfolding sessions_except
delete_session_row id st = record st { sessions = sessions_except id st.sessions }
