-- ===== src/Hosts/Launching.antt =====
-- usecase/headless_host_usecase.go: what `HeadlessHostStart` needs, and what it asks the connector.
use baru_reso_headless_contr.Prelude.{◌≡◌, refl, true, ◌||◌, some, ◌∷◌, String, str_eq, ok}
use baru_reso_headless_contr.Prelude.Outcome.{Effect, changed, Effect-query, Effect-check}
use baru_reso_headless_contr.Permission.Tables.{Db}
use baru_reso_headless_contr.Permission.Check.{Ctx}
use baru_reso_headless_contr.Permission.Check.Grants.{
  CallerGranted, require_permission_for_group-Granted,
}
use baru_reso_headless_contr.Sessions.Usecase.{World, account_use, start_container, call_host}
use baru_reso_headless_contr.Hosts.{Connector, host_write, resolve_tag_to_use, headless_host_start}

-- A container was started.
pub record Launched (con : Connector) (db : Db) (ctx : Ctx) (group account_group image_tag : String)
    (w w' : World) : Type 0 where
  pub may_write : CallerGranted db ctx group host_write
  pub may_use : CallerGranted db ctx group account_use
  pub same_group : (str_eq account_group "" || str_eq account_group group) ≡ true
  pub tag : String
  pub resolved : resolve_tag_to_use con.container_tags (some image_tag) ≡ ok tag
  pub one_call : w'.calls ≡ start_container group tag ∷ w.calls
  pub same_store : w'.store ≡ w.store
  pub same_cache : w'.cache ≡ w.cache

-- `HeadlessHostStart` either changes nothing and asks no container, or the caller is granted
-- host:write and account:use in the group, the account is of that group if it has one, and one
-- container is started in the group with the tag that the request resolves to.
pub headless_host_start-Effect :
    (con : Connector) (db : Db) (ctx : Ctx) (group account_group image_tag : String) (w : World)
    → Effect
        (Launched con db ctx group account_group image_tag w)
        w
        (headless_host_start con db ctx group account_group image_tag w).1
unfolding headless_host_start call_host
headless_host_start-Effect con db ctx group account_group image_tag w =
    Effect-query _ _ w (λ _ writes. Effect-query _ _ w (λ _ uses. Effect-check _ _ _ w (λ same.
      Effect-query _ _ w (λ tag resolved. changed (record {
        may_write = require_permission_for_group-Granted db ctx group host_write writes;
        may_use = require_permission_for_group-Granted db ctx group account_use uses;
        same_group = same;
        tag = tag;
        resolved = resolved;
        one_call = refl;
        same_store = refl;
        same_cache = refl;
      })))))
