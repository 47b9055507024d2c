-- ===== src/Worker/Examples.antt =====
-- The passes of a stream worker that fails, runs for a while and fails again.
use baru_reso_headless_contr.Prelude.{◌≡◌, ℕ, false, List, [], ◌∷◌, arith}
use baru_reso_headless_contr.Prelude.Int32.{pos, le_int}
use baru_reso_headless_contr.Worker.{
  Pass, Returned, clean, canceled, failed, retry_with_backoff, retry, pass, after_call, after_reset,
  wait_and_double, follow, tell, twice, to_int64, min_int,
}
use baru_reso_headless_contr.Worker.Backoff.{retry_with_backoff-streaks, delays}

abbrev ran_for : ℕ → Returned → Pass
ran_for n r = record {
  done_before = false;
  ran = n;
  returned = r;
  done_after = false;
  done_waiting = false;
}

abbrev passes : List Pass
passes =
    ran_for 0 failed
    ∷ ran_for 1 failed
    ∷ ran_for 2 clean
    ∷ ran_for 1 failed
    ∷ ran_for 2 failed
    ∷ ran_for 40 failed
    ∷ ran_for 0 canceled
    ∷ ran_for 0 failed
    ∷ []

retry_with_backoff-streaks_example :
    (retry_with_backoff (delays 10 35 (pos 30)) passes).0
    ≡ (pos 10 ∷ pos 20 ∷ pos 35 ∷ pos 35 ∷ pos 10 ∷ [])
unfolding retry_with_backoff retry pass after_call after_reset wait_and_double follow tell twice
    to_int64 min_int le_int
retry_with_backoff-streaks_example =
    retry_with_backoff-streaks 10 35 (pos 30) (omega arith) (omega arith) passes
