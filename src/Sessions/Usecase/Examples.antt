-- ===== src/Sessions/Usecase/Examples.antt =====
-- Root starts a world on a host of the group "g" and stops its session.
use baru_reso_headless_contr.Sessions.Usecase.Fixtures.{services, row, restarted}
use baru_reso_headless_contr.Prelude.{◌≡◌, Option, true, refl}
use baru_reso_headless_contr.Domain.{Session}
use baru_reso_headless_contr.Sessions.Usecase.Queries.{get_session}
use baru_reso_headless_contr.Sessions.Usecase.Queries.Healing.{Answers, Shown, get_session-Shown}
use baru_reso_headless_contr.Sessions.Usecase.Changes.{
  ParameterUpdate, update_session_parameters, update_session_extra_settings, save_session_world,
  SaveMode,
}
use baru_reso_headless_contr.Sessions.Usecase.Changes.Parameters.{
  ParametersChanged, update_session_parameters-Effect,
}
use baru_reso_headless_contr.Sessions.Usecase.Changes.Settings.{
  SettingsChanged, update_session_extra_settings-Changed,
}
use baru_reso_headless_contr.Sessions.Usecase.Changes.Saving.{Saved, save_session_world-Saved}
use baru_reso_headless_contr.Prelude.{false, some, none, [], ◌∷◌, ok}
use baru_reso_headless_contr.Prelude.Outcome.{Effect}
use baru_reso_headless_contr.Domain.{LiveSession}
use baru_reso_headless_contr.Permission.Fixtures.{tables}
use baru_reso_headless_contr.Sessions.Cache.{new_memory_cache}
use baru_reso_headless_contr.Sessions.Usecase.{World, start_session, stop_session}
use baru_reso_headless_contr.Sessions.Usecase.Starting.{Started, start_session-Effect}
use baru_reso_headless_contr.Sessions.Usecase.Stopping.{Stopped, stop_session-Effect}

abbrev pub idle : World
idle = record {
  cache = new_memory_cache;
  store = record { hosts = ("h1", "g") ∷ []; sessions = []; down = λ q. false };
  calls = [];
}

start_session-Effect_example :
    Effect
      (Started services tables (some "root") "h1" "" (some "root") [] none idle)
      idle
      (start_session services tables (some "root") "h1" "" (some "root") [] none idle).1
start_session-Effect_example =
    start_session-Effect services tables (some "root") "h1" "" (some "root") [] none idle

abbrev busy : World
busy = (start_session services tables (some "root") "h1" "" (some "root") [] none idle).1

stop_session-Effect_example :
    Effect
      (Stopped services tables (some "root") "s1" busy)
      busy
      (stop_session services tables (some "root") "s1" busy).1
stop_session-Effect_example = stop_session-Effect services tables (some "root") "s1" busy

get_session-Shown_example :
    Answers (Shown services "s1" restarted) (get_session services "s1" restarted)
get_session-Shown_example = get_session-Shown services "s1" restarted row refl

abbrev renamed : ParameterUpdate
renamed = record {
  name = some "\"hall\"";
  description = none;
  max_users = some "8";
  access_level = none;
  away_kick_minutes = none;
  idle_restart_interval_seconds = none;
  save_on_exit = some "";
  auto_save_interval_seconds = none;
  auto_sleep = none;
  hide_from_public_listing = none;
  tags = none;
}

update_session_parameters-Effect_example :
    Effect
      (ParametersChanged services tables (some "root") "s1" renamed busy)
      busy
      (update_session_parameters services tables (some "root") "s1" renamed busy).1
update_session_parameters-Effect_example =
    update_session_parameters-Effect services tables (some "root") "s1" renamed busy

update_session_extra_settings-Changed_example :
    (t : Session) × (live : Option LiveSession) × (w1 : World) × (get_session services "s1"
        restarted
      ≡ (ok (t, live), w1))
    × SettingsChanged tables
        (some "root")
        "s1"
        (some true)
        none
        t
        w1
        (update_session_extra_settings services tables
          (some "root")
          "s1"
          (some true)
          none
          restarted).1
update_session_extra_settings-Changed_example =
    update_session_extra_settings-Changed services tables (some "root") "s1" (some true) none
      restarted row refl

save_session_world-Saved_example :
    (t : Session) × (live : Option LiveSession) × (w1 : World) × (get_session services "s1"
        restarted
      ≡ (ok (t, live), w1))
    × Saved tables
        (some "root")
        "s1"
        SaveMode.overwrite
        t
        w1
        (save_session_world services tables (some "root") "s1" SaveMode.overwrite restarted).1
save_session_world-Saved_example =
    save_session_world-Saved services tables (some "root") "s1" SaveMode.overwrite restarted row
      refl
