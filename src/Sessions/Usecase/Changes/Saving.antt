-- ===== src/Sessions/Usecase/Changes/Saving.antt =====
-- usecase/session_usecase.go: what `SaveSessionWorld` needs, and what it asks a container.
use baru_reso_headless_contr.Prelude.{
  ◌≡◌, refl, true, false, Option, none, some, ◌∷◌, String, ok, Result-cases, inl, inr,
}
use baru_reso_headless_contr.Prelude.Exec.{query, resume}
use baru_reso_headless_contr.Domain.{Session, LiveSession}
use baru_reso_headless_contr.Permission.Tables.{Db}
use baru_reso_headless_contr.Permission.Check.{Ctx, require_permission_for_group}
use baru_reso_headless_contr.Permission.Check.Grants.{
  CallerGranted, require_permission_for_group-Granted,
}
use baru_reso_headless_contr.Sessions.Usecase.{
  Services, World, HostCall, save_world, save_world_as, session_write, call_host, load,
}
use baru_reso_headless_contr.Sessions.Usecase.Queries.{get_session}
use baru_reso_headless_contr.Sessions.Usecase.Queries.Healing.{get_session-Shown}
use baru_reso_headless_contr.Sessions.Usecase.Changes.{
  SaveMode, overwrite, save_as, copy, other_mode, save_by, save_session_world,
}

-- The call that a mode stands for.
abbrev call_for : SaveMode → String → String → Option HostCall
call_for overwrite host id = some (save_world host id)
call_for save_as host id = some (save_world_as host id false)
call_for copy host id = some (save_world_as host id true)
call_for other_mode host id = none

-- The world after a save of the session that `GetSession` showed in `w1`.
pub data Saved (db : Db) (ctx : Ctx) (id : String) (mode : SaveMode) (t : Session) (w1 w' : World)
    : Type 0 where
  no_save : w' ≡ w1 → Saved db ctx id mode t w1 w'
  save_asked :
      (c : HostCall)
      → CallerGranted db ctx t.group_id session_write
      → call_for mode t.host_id id ≡ some c
      → w' ≡ record w1 { calls = c ∷ w1.calls }
      → Saved db ctx id mode t w1 w'

save_by-Saved :
    (svc : Services) (db : Db) (ctx : Ctx) (id : String) (mode : SaveMode) (t : Session)
    (w1 : World)
    → CallerGranted db ctx t.group_id session_write
    → Saved db ctx id mode t w1 (save_by svc t.host_id id mode w1).1
unfolding save_by call_host query resume
save_by-Saved svc db ctx id overwrite t w1 may =
    elim (Result-cases (svc.saved_world t.host_id id)) [
      | inl (url, saved) ↦ rw saved (save_asked (save_world t.host_id id) may refl refl)
      | inr (e, failing) ↦ rw failing (save_asked (save_world t.host_id id) may refl refl)
    ]
save_by-Saved svc db ctx id save_as t w1 may =
    save_asked (save_world_as t.host_id id false) may refl refl
save_by-Saved svc db ctx id copy t w1 may =
    save_asked (save_world_as t.host_id id true) may refl refl
save_by-Saved svc db ctx id other_mode t w1 may = no_save refl

-- Where the row can be loaded, `SaveSessionWorld` does what `GetSession` does and nothing more,
-- unless the caller is granted session:write in the session's group: then a known mode asks the
-- session's host once for the save that it stands for, and an unknown one asks nothing.
pub save_session_world-Saved :
    (svc : Services) (db : Db) (ctx : Ctx) (id : String) (mode : SaveMode) (w : World) (s : Session)
    → load id w ≡ ok s
    → (t : Session) × (live : Option LiveSession) × (w1 : World) × (get_session svc id w
        ≡ (ok (t, live), w1))
      × Saved db ctx id mode t w1 (save_session_world svc db ctx id mode w).1
unfolding save_session_world query resume
save_session_world-Saved svc db ctx id mode w s loaded =
    let ((t, live), w1, answers, shown) = get_session-Shown svc id w s loaded in
    (
      t,
      live,
      w1,
      answers,
      rw answers
          (elim (Result-cases (require_permission_for_group db ctx t.group_id session_write)) [
            | inr (e, refusing) ↦ rw refusing (no_save refl)
            | inl (u, may) ↦ elim (Result-cases (svc.rpc_client t.host_id)) [
              | inr (e, failing) ↦ rw (may, failing) (no_save refl)
              | inl (v, there) ↦
                  rw (may, there)
                    (save_by-Saved svc db ctx id mode t w1
                      (require_permission_for_group-Granted db ctx t.group_id session_write may))
            ]
          ]),
    )
