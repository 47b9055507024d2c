-- ===== src/Sessions/Usecase/Changes.antt =====
-- usecase/session_usecase.go: the operations that change or save a session that is there.
pub mod Fields
pub mod Parameters
pub mod Settings
pub mod Saving
use baru_reso_headless_contr.Prelude.{
  Bool, true, false, Option, none, some, String, str_eq, if◌then◌else◌, Map, insert, delete, Result,
  ok, err, other,
}
use baru_reso_headless_contr.Prelude.Exec.{Exec, query, fail, resume, return, ◌>>=◌, ◌>>◌}
use baru_reso_headless_contr.Domain.{Session, LiveSession}
use baru_reso_headless_contr.Permission.Tables.{Db}
use baru_reso_headless_contr.Permission.Check.{Ctx, require_permission_for_group}
use baru_reso_headless_contr.Sessions.Cache.{get, put}
use baru_reso_headless_contr.Sessions.Rows.{upsert, upsert_session}
use baru_reso_headless_contr.Sessions.Usecase.{
  Services, World, HostCall, change_world, save_world, save_world_as, session_write, write, cached,
  call_host, load,
}
use baru_reso_headless_contr.Sessions.Usecase.Queries.{get_session}

-- The fields of an update as JSON texts, "" for a value that protojson leaves out.
pub record ParameterUpdate : Type 0 where
  pub name : Option String
  pub description : Option String
  pub max_users : Option String
  pub access_level : Option String
  pub away_kick_minutes : Option String
  pub idle_restart_interval_seconds : Option String
  pub save_on_exit : Option String
  pub auto_save_interval_seconds : Option String
  pub auto_sleep : Option String
  pub hide_from_public_listing : Option String
  pub tags : Option String

pub set_field : String → Option String → Map String → Map String
set_field key none params = params
set_field key (some text) params =
    if str_eq text "" then delete key params else insert key text params

-- `tags` is there where `UpdateTags` is set.
pub update_startup_params : ParameterUpdate → Map String → Map String
unfolding set_field
update_startup_params u params = set_field "tags" u.tags (
    set_field "hideFromPublicListing" u.hide_from_public_listing (
      set_field "autoSleep" u.auto_sleep (
        set_field "autoSaveIntervalSeconds" u.auto_save_interval_seconds (
          set_field "saveOnExit" u.save_on_exit (
            set_field "idleRestartIntervalSeconds" u.idle_restart_interval_seconds (
              set_field "awayKickMinutes" u.away_kick_minutes (
                set_field "accessLevel" u.access_level (
                  set_field "maxUsers" u.max_users
                    (set_field "description" u.description (set_field "name" u.name params))))))))))

-- The getters of a message that is not there give "".
abbrev pub name_of : Option LiveSession → String
name_of none = ""
name_of (some live) = live.name

abbrev pub set_cached : String → String → Option LiveSession → Exec World (Unit {0})
set_cached host id none w = (ok tt, w)
set_cached host id (some live) w = cached (put host id (some live)) w

pub updated : ParameterUpdate → Option LiveSession → Session → Session
unfolding update_startup_params
updated u live s = record s {
  startup_parameters = update_startup_params u s.startup_parameters;
  name = name_of live;
}

-- `UpdateSessionParameters` from the call of the container on.
change_and_keep : Services → String → ParameterUpdate → Session → Exec World (Unit {0})
unfolding updated write cached call_host
change_and_keep svc id u s = do
  call_host (change_world s.host_id id) (svc.changed_world s.host_id id)
  live ← query (λ _. svc.live_session s.host_id id)
  write upsert (upsert_session (updated u live s))
  set_cached s.host_id id live

pub update_session_parameters :
    Services → Db → Ctx → String → ParameterUpdate → Exec World (Unit {0})
unfolding change_and_keep
update_session_parameters svc db ctx id u = do
  s ← query (load id)
  query (λ _. require_permission_for_group db ctx s.group_id session_write)
  query (λ _. svc.rpc_client s.host_id)
  change_and_keep svc id u s

abbrev pub bool_or : Option Bool → Bool → Bool
bool_or none b = b
bool_or (some a) b = a

abbrev pub text_or : Option String → String → String
text_or none b = b
text_or (some a) b = a

pub with_settings : Option Bool → Option String → Session → Session
with_settings auto_upgrade memo s = record s {
  auto_upgrade = bool_or auto_upgrade s.auto_upgrade;
  memo = text_or memo s.memo;
}

pub update_session_extra_settings :
    Services → Db → Ctx → String → Option Bool → Option String → Exec World (Unit {0})
unfolding with_settings write
update_session_extra_settings svc db ctx id auto_upgrade memo = do
  found ← get_session svc id
  query (λ _. require_permission_for_group db ctx (found.0).group_id session_write)
  write upsert (upsert_session (with_settings auto_upgrade memo found.0))

-- `other_mode` is a number that is no mode.
pub data SaveMode : Type 0 where
  overwrite save_as copy other_mode : SaveMode

abbrev pub url_of : Option LiveSession → String
url_of none = ""
url_of (some live) = live.world_url

-- Older containers leave the URL out, and the cache has it.
abbrev pub saved_url : String → String → World → Result String
saved_url id url w = if str_eq url "" then ok (url_of (get id w.cache)) else ok url

save_by : Services → String → String → SaveMode → Exec World String
unfolding call_host
save_by svc host id overwrite = do
  url ← call_host (save_world host id) (svc.saved_world host id)
  query (saved_url id url)
save_by svc host id save_as =
    call_host (save_world_as host id false) (svc.saved_world_as host id false)
save_by svc host id copy = call_host (save_world_as host id true) (svc.saved_world_as host id true)
save_by svc host id other_mode = fail (other "unknown save mode")

pub save_session_world : Services → Db → Ctx → String → SaveMode → Exec World String
unfolding save_by
save_session_world svc db ctx id mode = do
  found ← get_session svc id
  query (λ _. require_permission_for_group db ctx (found.0).group_id session_write)
  query (λ _. svc.rpc_client (found.0).host_id)
  save_by svc (found.0).host_id id mode
