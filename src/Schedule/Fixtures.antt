-- ===== src/Schedule/Fixtures.antt =====
-- Test data: an operation that stops a session at a time.
use baru_reso_headless_contr.Prelude.{some, none, true, err, ok, other}
use baru_reso_headless_contr.Prelude.Int32.{pos}
use baru_reso_headless_contr.Domain.{running}
use baru_reso_headless_contr.Schedule.{
  Operation, OperationType, TriggerType, pending, Json, Deps, less_or_equal,
}

abbrev pub stop_later : Operation
stop_later = record {
  id = "op";
  operation_type = OperationType.stop_session;
  operation_payload = "s1";
  trigger_type = TriggerType.time;
  trigger_config = "";
  next_fire_at = 5;
  host_id = none;
  session_id = some "s1";
  status = pending;
  last_error = none;
  claimed_by = none;
  claimed_at = none;
  executed_at = none;
  created_by = some "mia";
}

-- A decoder for the texts of the examples.
abbrev pub plain_json : Json
plain_json = record {
  time_trigger = λ t. ok (record { scheduled_at = 5 });
  user_count_trigger =
      λ t. ok (record { session_id = t; comparator = less_or_equal; threshold = pos 0 });
  start_action = λ t. err (other "no start action");
  stop_action = λ t. ok (record { session_id = t });
  params_action = λ t. ok (record { session_id = t; params_json = "" });
  extra_action = λ t. ok (record { session_id = t; auto_upgrade = some true; memo = none });
  world_startup_parameters = λ t. ok t;
  update_session_parameters_request = λ t. ok t;
}

abbrev pub deps : Deps
deps = record {
  json = plain_json;
  user_checker = some (λ u. ok true);
  session_status = λ s. ok running;
  users_count = λ s. some (pos 0);
  operate = λ user c. ok tt;
}
