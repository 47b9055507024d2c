-- ===== src/Sessions/StateSync/Reports.antt =====
-- worker/session_state_sync_handler.go: which sessions a host reports, and which were running on it.
use baru_reso_headless_contr.Prelude.{
  ◌≡◌, refl, true, false, ◌||◌, ◌&&◌, List, [], ◌∷◌, String, str_eq, eq_iff, contains, Map, keys,
  insert, delete, Unique, Bool-cases, inl, inr, arith, if◌then◌else◌, ok,
}
use baru_reso_headless_contr.Domain.{Session, LiveSession}
use baru_reso_headless_contr.Sessions.Rows.{running_of_host, find_session, is_running}
use baru_reso_headless_contr.Sessions.StateSync.{live_map}

contains-delete :
    (k j : String) (m : Map LiveSession)
    → contains (keys (delete k m)) j ≡ (if str_eq k j then false else contains (keys m) j)
unfolding delete
contains-delete k j [] = ground arith
contains-delete k j ((i, v) ∷ m) =
    ground (arith, contains-delete k j m, eq_iff i k, eq_iff i j, eq_iff k j)

contains-live_map_from :
    (reported : List (String × LiveSession)) (m : Map LiveSession) (k : String)
    → contains (keys (live_map reported m)) k ≡ (contains (keys reported) k || contains (keys m) k)
unfolding live_map insert
contains-live_map_from [] m k = refl
contains-live_map_from ((id, s) ∷ rest) m k =
    ground (arith, contains-live_map_from rest ((id, s) ∷ delete id m) k, contains-delete id k m)

-- The map has the ids of the list that the host reports.
pub contains-live_map :
    (reported : List (String × LiveSession)) (k : String)
    → contains (keys (live_map reported [])) k ≡ contains (keys reported) k
contains-live_map reported k = ground (arith, contains-live_map_from reported [] k)

abbrev pub session_ids : List Session → List String
session_ids [] = []
session_ids (s ∷ ss) = s.id ∷ session_ids ss

listed_only :
    (host k : String) (rows : List Session)
    → contains (session_ids rows) k ≡ false
    → contains (session_ids (running_of_host host rows)) k ≡ false
unfolding running_of_host
listed_only host k [] h = refl
listed_only host k (s ∷ rows) h = ground (arith, listed_only host k rows)

find-session_ids :
    (k : String) (s : Session) (rows : List Session)
    → find_session k rows ≡ ok s
    → contains (session_ids rows) s.id ≡ true
find-session_ids k s [] h = cc
find-session_ids k s (x ∷ rows) h = elim (Bool-cases (str_eq x.id k)) [
  | inl same ↦ let e : x ≡ s = ground (arith, same, h) in ground (arith, e, eq_iff s.id s.id)
  | inr apart ↦ ground (arith, find-session_ids k s rows (ground (arith, apart, h)))
]

-- With unique ids, a row is listed exactly if it is of the host and running.
pub contains-running_of_host :
    (host k : String) (s : Session) (rows : List Session)
    → Unique (session_ids rows)
    → find_session k rows ≡ ok s
    → contains (session_ids (running_of_host host rows)) s.id
      ≡ (str_eq s.host_id host && is_running s.status)
unfolding running_of_host
contains-running_of_host host k s [] unique h = cc
contains-running_of_host host k s (x ∷ rows) (fresh, unique) h = elim (Bool-cases (str_eq x.id k)) [
  | inl same ↦
      let e : x ≡ s = ground (arith, same, h) in
      let later : contains (session_ids (running_of_host host rows)) s.id ≡ false =
        listed_only host s.id rows (rw e at fresh) in
      ground (arith, e, later, eq_iff s.id s.id)
  | inr apart ↦
      let found : find_session k rows ≡ ok s = ground (arith, apart, h) in
      let here : contains (session_ids rows) s.id ≡ true = find-session_ids k s rows found in
      let other : str_eq x.id s.id ≡ false = ground (arith, here, fresh, eq_iff x.id s.id) in
      ground (arith, other, contains-running_of_host host k s rows unique found)
]
