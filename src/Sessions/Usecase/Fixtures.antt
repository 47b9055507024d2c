-- ===== src/Sessions/Usecase/Fixtures.antt =====
-- Test data: a host "h1" of the group "g", and a session of it.
use baru_reso_headless_contr.Prelude.{false, some, none, [], ◌∷◌, ok}
use baru_reso_headless_contr.Prelude.Int32.{pos}
use baru_reso_headless_contr.Domain.{LiveSession, Session, crashed}
use baru_reso_headless_contr.Sessions.Cache.{new_memory_cache}
use baru_reso_headless_contr.Sessions.Usecase.{Services, World, Opened}

abbrev pub live : LiveSession
live = record { name = "hall"; users_count = pos 0; world_url = "resrec:///w"; overlap = [] }

abbrev pub opened : Opened
opened = record { id = "s1"; started_at = 7; live = live }

abbrev pub services : Services
services = record {
  is_host_draining = λ h. false;
  host_group = λ h. ok "g";
  rpc_client = λ h. ok tt;
  free_port = ok 5001;
  force_port = λ p. 0;
  port_text = λ p. "5001";
  open_world = λ h p. ok opened;
  close_world = λ h s. ok tt;
  live_session = λ h s. ok (some live);
  changed_world = λ h s. ok tt;
  stopped_container = λ h. ok tt;
  killed_container = λ h. ok tt;
  saved_world = λ h s. ok "resrec:///saved";
  saved_world_as = λ h s copy. ok "resrec:///copy";
  now = 9;
}

-- A session that was taken for crashed, and whose live state is not in the cache.
abbrev pub row : Session
row = record {
  id = "s1";
  name = "hall";
  status = crashed;
  started_at = some 7;
  created_by = some "root";
  ended_at = none;
  host_id = "h1";
  startup_parameters = [];
  auto_upgrade = false;
  memo = "";
  group_id = "g";
}

abbrev pub restarted : World
restarted = record {
  cache = new_memory_cache;
  store = record { hosts = ("h1", "g") ∷ []; sessions = row ∷ []; down = λ q. false };
  calls = [];
}
