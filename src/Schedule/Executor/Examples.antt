-- ===== src/Schedule/Executor/Examples.antt =====
-- Examples for worker/scheduled_operation_executor.go.
use baru_reso_headless_contr.Prelude.{true, [], ◌∷◌}
use baru_reso_headless_contr.Schedule.Fixtures.{deps, stop_later}
use baru_reso_headless_contr.Schedule.Executor.{World, execute_one}
use baru_reso_headless_contr.Schedule.Executor.Authority.{Called, execute_one-Called}

abbrev before : World
before = record { rows = stop_later ∷ []; calls = [] }

execute_one-Called_example :
    Called deps 6 stop_later before (execute_one deps true 6 stop_later before)
execute_one-Called_example = execute_one-Called deps true 6 stop_later before
