-- ===== src/Schedule/Cancellation/Examples.antt =====
-- Root cancels an operation that waits.
use baru_reso_headless_contr.Prelude.{some, none, [], ◌∷◌, ok, err, not_found}
use baru_reso_headless_contr.Prelude.Outcome.{Outcome}
use baru_reso_headless_contr.Permission.Fixtures.{tables}
use baru_reso_headless_contr.Schedule.Fixtures.{stop_later}
use baru_reso_headless_contr.Schedule.Rows.{Rows}
use baru_reso_headless_contr.Schedule.Cancellation.{Targets, cancel_operation}
use baru_reso_headless_contr.Schedule.Cancellation.Permitted.{Canceled, cancel_operation-Outcome}

abbrev in_g : Targets
in_g = record {
  group_of_session = λ s. ok "g";
  group_of_host = λ h. err not_found;
  get_error = none;
  cancel_error = none;
}

abbrev waiting : Rows
waiting = stop_later ∷ []

cancel_operation-Outcome_example :
    Outcome
      (Canceled in_g tables (some "root") "op" waiting waiting)
      waiting
      (cancel_operation in_g tables (some "root") "op" waiting waiting)
cancel_operation-Outcome_example =
    cancel_operation-Outcome in_g tables (some "root") "op" waiting waiting
