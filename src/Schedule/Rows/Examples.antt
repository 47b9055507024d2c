-- ===== src/Schedule/Rows/Examples.antt =====
-- Examples for db/scheduled_session_operations.sql.go.
use baru_reso_headless_contr.Prelude.{List, ℕ}
use baru_reso_headless_contr.Prelude.Table.{Each}
use baru_reso_headless_contr.Schedule.Rows.Lifecycle.{Statement, succeed, cancel_pending, steps}
use baru_reso_headless_contr.Schedule.Rows.Effects.{Does, step-Does}
use baru_reso_headless_contr.Prelude.{
  ◌≡◌, ◌≤◌, refl, false, some, [], ◌∷◌, List, ℕ, contains, length,
}
use baru_reso_headless_contr.Schedule.{Operation, canceled}
use baru_reso_headless_contr.Schedule.Fixtures.{stop_later}
use baru_reso_headless_contr.Schedule.Rows.{
  claim_due, ids, due, by_time, insert_by_time, chosen_rows, claimed,
}
use baru_reso_headless_contr.Schedule.Rows.Lifecycle.{
  Statement, claim, succeed, sweep_stale, step, steps, steps_terminal, row_with, RowsMove,
}
use baru_reso_headless_contr.Schedule.Rows.Claims.{claim_due_exclusive}

abbrev dropped : Operation
dropped = record stop_later { status = canceled }

-- Cancelled, then claimed, reported and swept.
abbrev history : List (ℕ × Statement)
history = (6, claim "a" 16 (λ id. false)) ∷ (7, succeed "op") ∷ (900, sweep_stale 600) ∷ []

steps_terminal_example : row_with "op" (steps history (dropped ∷ [])) ≡ some dropped
steps_terminal_example = steps_terminal history "op" dropped (dropped ∷ []) (refl, tt) refl refl

step-Does_example :
    RowsMove (stop_later ∷ []) (step 6 (claim "a" 16 (λ id. false)) (stop_later ∷ []))
    × Each
        (Does 6 (claim "a" 16 (λ id. false)))
        (stop_later ∷ [])
        (step 6 (claim "a" 16 (λ id. false)) (stop_later ∷ []))
step-Does_example = step-Does 6 (claim "a" 16 (λ id. false)) (stop_later ∷ []) (refl, tt)

-- Another operation is settled while the claim is held.
abbrev meanwhile : List (ℕ × Statement)
meanwhile = (6, succeed "other") ∷ (7, cancel_pending "op") ∷ []

claim_due_exclusive_example :
    (length (claim_due "a" 16 6 (λ id. false) (stop_later ∷ [])).0 ≤ 16)
    × (contains
          (ids
            (claim_due "b" 16 7
              (λ id. false)
              (steps meanwhile (claim_due "a" 16 6 (λ id. false) (stop_later ∷ [])).1)).0)
          "op"
        ≡ false)
unfolding claim_due due by_time insert_by_time chosen_rows claimed
claim_due_exclusive_example =
    claim_due_exclusive "a" "b" "op" 16 16 6 7 (λ id. false) (λ id. false) meanwhile
      (stop_later ∷ []) refl (refl, (refl, tt))
