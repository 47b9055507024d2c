-- ===== src/Sessions/Usecase/Changes/Settings.antt =====
-- usecase/session_usecase.go: what `UpdateSessionExtraSettings` needs, and what it leaves.
use baru_reso_headless_contr.Prelude.{
  ◌≡◌, refl, sym, subst, Bool, Option, String, ok, Bool-cases, Result-cases, inl, inr,
}
use baru_reso_headless_contr.Prelude.Exec.{query, resume}
use baru_reso_headless_contr.Domain.{Session, LiveSession}
use baru_reso_headless_contr.Permission.Tables.{Db}
use baru_reso_headless_contr.Permission.Check.{Ctx, require_permission_for_group}
use baru_reso_headless_contr.Permission.Check.Grants.{
  CallerGranted, require_permission_for_group-Granted,
}
use baru_reso_headless_contr.Sessions.Rows.{upsert, upsert_session, find_session}
use baru_reso_headless_contr.Sessions.Usecase.{Services, World, session_write, write, load}
use baru_reso_headless_contr.Sessions.Usecase.Stopping.{find-upsert_session}
use baru_reso_headless_contr.Sessions.Usecase.Queries.{get_session}
use baru_reso_headless_contr.Sessions.Usecase.Queries.Healing.{Shown-id, get_session-Shown}
use baru_reso_headless_contr.Sessions.Usecase.Changes.{
  with_settings, update_session_extra_settings, bool_or, text_or,
}

-- The world after an update of the settings of the session that `GetSession` showed in `w1`.
pub data SettingsChanged (db : Db) (ctx : Ctx) (id : String) (auto_upgrade : Option Bool)
    (memo : Option String) (t : Session) (w1 w' : World) : Type 0 where
  only_looked : w' ≡ w1 → SettingsChanged db ctx id auto_upgrade memo t w1 w'
  settings_kept :
      CallerGranted db ctx t.group_id session_write
      → find_session id w'.store.sessions
        ≡ ok (record t {
          auto_upgrade = bool_or auto_upgrade t.auto_upgrade;
          memo = text_or memo t.memo;
        })
      → w'.cache ≡ w1.cache
      → w'.calls ≡ w1.calls
      → SettingsChanged db ctx id auto_upgrade memo t w1 w'

find-with_settings :
    (id : String) (auto_upgrade : Option Bool) (memo : Option String) (t : Session) (w1 : World)
    → t.id ≡ id
    → (old : Session) → find_session id w1.store.sessions ≡ ok old
    → old.created_by ≡ t.created_by
    → old.group_id ≡ t.group_id
    → find_session id (upsert_session (with_settings auto_upgrade memo t) w1.store).sessions
      ≡ ok (with_settings auto_upgrade memo t)
unfolding with_settings
find-with_settings id auto_upgrade memo t w1 named old found creator group =
    let new = with_settings auto_upgrade memo t in
    let there : find_session t.id w1.store.sessions ≡ ok old =
      subst (λ k. find_session k w1.store.sessions ≡ ok old) (sym named) found in
    subst (λ k. find_session k (upsert_session new w1.store).sessions ≡ ok new) named
      (find-upsert_session new old w1.store there (sym creator) (sym group))

-- Where the row can be loaded, `UpdateSessionExtraSettings` does what `GetSession` does and nothing
-- more, unless the caller is granted session:write in the session's group. Then the row is found as
-- it was shown, with the settings that were given; cache and containers are left alone. A database
-- that refuses the write leaves what `GetSession` left.
pub update_session_extra_settings-Changed :
    (svc : Services) (db : Db) (ctx : Ctx) (id : String) (auto_upgrade : Option Bool)
    (memo : Option String) (w : World) (s : Session)
    → load id w ≡ ok s
    → (t : Session) × (live : Option LiveSession) × (w1 : World) × (get_session svc id w
        ≡ (ok (t, live), w1))
      × SettingsChanged db ctx id auto_upgrade memo t w1
          (update_session_extra_settings svc db ctx id auto_upgrade memo w).1
unfolding update_session_extra_settings query resume write with_settings
update_session_extra_settings-Changed svc db ctx id auto_upgrade memo w s loaded =
    let ((t, live), w1, answers, shown) = get_session-Shown svc id w s loaded in
    (
      t,
      live,
      w1,
      answers,
      rw answers
          (elim (Result-cases (require_permission_for_group db ctx t.group_id session_write)) [
            | inr (e, refusing) ↦ rw refusing (only_looked refl)
            | inl (u, may) ↦ elim (Bool-cases (w1.store.down upsert)) [
              | inl down ↦ rw (may, down) (only_looked refl)
              | inr up ↦
                  let (old, found, creator, group) = shown.marked.owned in
                  rw (may, up)
                    (settings_kept
                      (require_permission_for_group-Granted db ctx t.group_id session_write may)
                      (find-with_settings id auto_upgrade memo t w1
                        (Shown-id svc id w w1 (t, live) shown) old found creator group)
                      refl refl)
            ]
          ]),
    )
