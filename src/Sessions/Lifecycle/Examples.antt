-- ===== src/Sessions/Lifecycle/Examples.antt =====
-- Examples for worker/session_lifecycle_handler.go: a session of one host.
use baru_reso_headless_contr.Prelude.{◌≡◌, refl, some, [], ◌∷◌, false}
use baru_reso_headless_contr.Sessions.Rows.{Store, new_session}
use baru_reso_headless_contr.Sessions.Lifecycle.{
  Event, session_started, session_ended, handle_host_event,
}
use baru_reso_headless_contr.Sessions.Lifecycle.Replays.{handle_host_event_twice}
use baru_reso_headless_contr.Sessions.Lifecycle.Ownership.{Became, handle_host_event-Became}

abbrev tables : Store
tables = record {
  hosts = ("h1", "g") ∷ ("h2", "g") ∷ [];
  sessions = new_session "s1" "world" 5 "h1" "g" ∷ [];
  down = λ q. false;
}

abbrev moved : Event
moved = record { occurred_at = some 7; payload = session_started "s1" "world" }

handle_host_event_twice_example :
    handle_host_event "h2" moved (handle_host_event "h2" moved tables)
    ≡ handle_host_event "h2" moved tables
handle_host_event_twice_example = handle_host_event_twice "h2" moved tables

handle_host_event-Became_example :
    Became "s1" "h2" 7 (session_ended "s1") (new_session "s1" "world" 5 "h1" "g") (
      handle_host_event "h2" (record { occurred_at = some 7; payload = session_ended "s1" }) tables)
unfolding new_session
handle_host_event-Became_example =
    handle_host_event-Became "s1" "h2" 7 (session_ended "s1") (new_session "s1" "world" 5 "h1" "g")
      tables refl
