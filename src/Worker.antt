-- ===== src/Worker.antt =====
-- worker/loop.go: `RetryWithBackoff`. Durations are int64 nanoseconds with their wrap-around.
pub mod Backoff
mod Examples
use baru_reso_headless_contr.Prelude.{
  ℕ, suc, ◌+◌, ◌-◌, Bool, true, false, List, [], ◌∷◌, Option, none, some, ltb, if◌then◌else◌,
}
use baru_reso_headless_contr.Prelude.Int32.{ℤ, pos, negsuc, le_int}
use Prim.Native.Nat.{◌%◌}

-- The int64 that stands for `x` modulo 2 ^ 64.
pub to_int64 : ℤ → ℤ
to_int64 (pos n) =
    let m = n % 18446744073709551616 in
    if ltb m 9223372036854775808 then pos m else negsuc (18446744073709551615 - m)
to_int64 (negsuc n) =
    let m = n % 18446744073709551616 in
    if ltb m 9223372036854775808 then negsuc m else pos (18446744073709551615 - m)

-- delay * 2
pub twice : ℤ → ℤ
unfolding to_int64
twice (pos n) = to_int64 (pos (n + n))
twice (negsuc n) = to_int64 (negsuc (suc (n + n)))

pub min_int : ℤ → ℤ → ℤ
min_int x y = if le_int x y then x else y

pub record Delays : Type 0 where
  pub base_delay : ℤ
  pub max_delay : ℤ
  pub reset_after : ℤ

-- What the function returned; `canceled` is an error that wraps context.Canceled.
pub data Returned : Type 0 where
  clean canceled failed : Returned

-- One pass of the loop as the outside decides it: whether the context is done at the head of the
-- loop, after the call and while the loop waits, how long the call ran and what it returned.
pub record Pass : Type 0 where
  pub done_before : Bool
  pub ran : ℕ
  pub returned : Returned
  pub done_after : Bool
  pub done_waiting : Bool

-- A pass ends the loop or goes on with a delay; a wait that it begins is told first.
pub data Verdict : Type 0 where
  leave : Option ℤ → Verdict
  again : Option ℤ → ℤ → Verdict

after_reset : Delays → ℤ → ℕ → ℤ
after_reset d delay ran = if le_int d.reset_after (pos ran) then d.base_delay else delay

wait_and_double : Delays → ℤ → Bool → Verdict
wait_and_double d delay true = leave (some delay)
wait_and_double d delay false = again (some delay) (min_int (twice delay) d.max_delay)

after_call : Delays → ℤ → Pass → Returned → Verdict
unfolding after_reset wait_and_double
after_call d delay p canceled = leave none
after_call d delay p clean = again none (after_reset d delay p.ran)
after_call d delay p failed = wait_and_double d (after_reset d delay p.ran) p.done_waiting

pub pass : Delays → ℤ → Pass → Verdict
unfolding after_call
pass d delay p =
    if p.done_before
    then leave none
    else if p.done_after
    then leave none
    else after_call d delay p p.returned

tell : Option ℤ → List ℤ → List ℤ
tell none ws = ws
tell (some w) ws = w ∷ ws

-- The rest of the loop after a verdict.
pub follow : (ℤ → List ℤ × Bool) → Verdict → List ℤ × Bool
unfolding tell
follow rest (leave w) = (tell w [], true)
follow rest (again w next) = let (ws, returned) = rest next in (tell w ws, returned)

-- The waits that the loop begins, and whether it has returned after these passes.
pub retry : Delays → ℤ → List Pass → List ℤ × Bool
retry d delay [] = ([], false)
retry d delay (p ∷ ps) = follow (λ next. retry d next ps) (pass d delay p)

pub retry_with_backoff : Delays → List Pass → List ℤ × Bool
retry_with_backoff d ps = retry d d.base_delay ps
