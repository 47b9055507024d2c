-- ===== src/Hosts/Examples.antt =====
-- Root stops a host of the group "g", on which a session runs.
use baru_reso_headless_contr.Hosts.{headless_host_start}
use baru_reso_headless_contr.Hosts.Launching.{Launched, headless_host_start-Effect}
use baru_reso_headless_contr.Prelude.{refl, true, false, some, none, [], ◌∷◌, ok}
use baru_reso_headless_contr.Prelude.Outcome.{Effect}
use baru_reso_headless_contr.Domain.{running}
use baru_reso_headless_contr.Permission.Fixtures.{tables}
use baru_reso_headless_contr.Sessions.Usecase.{World}
use baru_reso_headless_contr.Sessions.Usecase.Fixtures.{restarted, row}
use baru_reso_headless_contr.Hosts.{Connector, List, Tag, latest, resolve_tag_to_use}
use baru_reso_headless_contr.Hosts.Tags.{Resolved, resolve_tag_to_use-Resolved}

abbrev occupied : World
occupied = record restarted {
  store = record {
    hosts = ("h1", "g") ∷ [];
    sessions = record row { status = running } ∷ [];
    down = λ q. false;
  };
}

abbrev tags : List Tag
tags =
    record { tag = "v1"; is_pre_release = false }
    ∷ record { tag = "v2"; is_pre_release = false }
    ∷ record { tag = "v3-beta"; is_pre_release = true }
    ∷ []

abbrev registry : Connector
registry = record {
  account_of_host = λ h. ok "a1";
  account_found = λ a. ok tt;
  container_tags = ok tags;
  started_container = λ group tag. ok "h2";
  restarted_container = λ host tag. ok tt;
}

resolve_tag_to_use-Resolved_example : Resolved (ok tags) none "v2"
unfolding resolve_tag_to_use latest
resolve_tag_to_use-Resolved_example = resolve_tag_to_use-Resolved (ok tags) none "v2" refl

headless_host_start-Effect_example :
    Effect
      (Launched registry tables (some "root") "g" "g" "latestRelease" occupied)
      occupied
      (headless_host_start registry tables (some "root") "g" "g" "latestRelease" occupied).1
headless_host_start-Effect_example =
    headless_host_start-Effect registry tables (some "root") "g" "g" "latestRelease" occupied
