-- ===== src/Worker/Backoff.antt =====
-- worker/loop.go: how long `RetryWithBackoff` waits.
use baru_reso_headless_contr.Prelude.{
  subst, ◌≡◌, refl, ap, ℕ, zero, suc, ◌+◌, ◌≤◌, ◌<◌, Bool, true, false, List, [], ◌∷◌, map,
  if◌then◌else◌, arith, min, ◌||◌,
}
use baru_reso_headless_contr.Prelude.Int32.{ℤ, pos, le_int}
use baru_reso_headless_contr.Worker.{
  Delays, Pass, Returned, clean, canceled, failed, min_int, twice, to_int64, pass, after_call,
  after_reset, wait_and_double, retry, retry_with_backoff, tell, follow,
}

-- base * 2 ^ k
abbrev pub doubled : ℕ → ℕ → ℕ
doubled base zero = base
doubled base (suc k) = doubled base k + doubled base k

-- The wait after k failures in a row.
abbrev pub backoff : ℕ → ℕ → ℕ → ℤ
backoff base cap k = pos (min (doubled base k) cap)

abbrev pub is_stable : Delays → Pass → Bool
is_stable d p = le_int d.reset_after (pos p.ran)

abbrev pub streak : Delays → ℕ → Pass → ℕ
streak d k p = if is_stable d p then 0 else k

-- For each wait the number of failures in a row before it, starting from `k`; a stable run starts
-- the count anew.
abbrev pub streaks_after : ℕ → Pass → List ℕ → List ℕ → Returned → List ℕ
streaks_after s p same next canceled = []
streaks_after s p same next clean = same
streaks_after s p same next failed = s ∷ (if p.done_waiting then [] else next)

abbrev pub streaks : Delays → ℕ → List Pass → List ℕ
streaks d k [] = []
streaks d k (p ∷ ps) =
    let s = streak d k p in
    let same = streaks d s ps in
    let next = streaks d (suc s) ps in
    if p.done_before || p.done_after then [] else streaks_after s p same next p.returned

twice_small : (n : ℕ) → n < 4611686018427387904 → twice (pos n) ≡ pos (n + n)
unfolding twice to_int64
twice_small n small = ground arith

min_int_lem : (a b : ℕ) → min_int (pos a) (pos b) ≡ pos (min a b)
unfolding min_int le_int
min_int_lem a b = ground (arith, ap pos)

min_twice : (x cap : ℕ) → min (min x cap + min x cap) cap ≡ min (x + x) cap
min_twice x cap = omega arith

twice-backoff :
    (base cap k : ℕ)
    → cap < 4611686018427387904
    → min_int (twice (backoff base cap k)) (pos cap) ≡ backoff base cap (suc k)
twice-backoff base cap k small =
    let x = doubled base k in
    let fits : min x cap < 4611686018427387904 = omega arith in
    rw (twice_small (min x cap) fits, min_int_lem (min x cap + min x cap) cap, min_twice x cap) refl

module _ (base cap : ℕ) (reset_after : ℤ) where
  abbrev pub delays : Delays
  delays = record { base_delay = pos base; max_delay = pos cap; reset_after = reset_after }

  after_reset-backoff :
      base ≤ cap
      → (k : ℕ) (p : Pass)
      → after_reset delays (backoff base cap k) p.ran ≡ backoff base cap (streak delays k p)
  unfolding after_reset
  after_reset-backoff le k p = let same : base ≡ min base cap = omega arith in ground (arith, same)

  module _ (le : base ≤ cap) (small : cap < 4611686018427387904) where
    follow_wait :
        (k : ℕ) (rest : ℤ → List ℤ × Bool) (next : List ℕ)
        → (rest (backoff base cap (suc k))).0 ≡ map (backoff base cap) next
        → (w : Bool)
        → (follow rest (wait_and_double delays (backoff base cap k) w)).0
          ≡ backoff base cap k ∷ map (backoff base cap) (if w then [] else next)
    unfolding follow wait_and_double tell
    follow_wait k rest next off true = refl
    follow_wait k rest next off false =
        rw (twice-backoff base cap k small) (ap (λ ws. backoff base cap k ∷ ws) off)

    follow_call :
        (k : ℕ) (p : Pass) (rest : ℤ → List ℤ × Bool) (same next : List ℕ)
        → (rest (backoff base cap (streak delays k p))).0 ≡ map (backoff base cap) same
        → (rest (backoff base cap (suc (streak delays k p)))).0 ≡ map (backoff base cap) next
        → (r : Returned)
        → (follow rest (after_call delays (backoff base cap k) p r)).0
          ≡ map (backoff base cap) (streaks_after (streak delays k p) p same next r)
    unfolding follow after_call tell
    follow_call k p rest same next on off canceled = refl
    follow_call k p rest same next on off clean = rw (after_reset-backoff le k p) on
    follow_call k p rest same next on off failed =
        rw (after_reset-backoff le k p)
          (follow_wait (streak delays k p) rest next off p.done_waiting)

    -- From `k` failures in a row on.
    retry_lem :
        (k : ℕ) (ps : List Pass)
        → (retry delays (backoff base cap k) ps).0 ≡ map (backoff base cap) (streaks delays k ps)
    unfolding retry pass follow
    retry_lem k [] = refl
    retry_lem k (p ∷ ps) =
        let s = streak delays k p in
        let call =
          follow_call k p (λ next. retry delays next ps) (streaks delays s ps)
            (streaks delays (suc s) ps) (retry_lem s ps) (retry_lem (suc s) ps) p.returned in
        ground (arith, call)

-- If the base delay is at most the cap and doubling the cap stays in int64, the waits of the
-- loop are base * 2 ^ k cut at the cap, where k counts the failures in a row before the wait,
-- started anew by each run that was stable. A clean return waits for nothing and keeps the
-- count, and no wait follows a canceled call or a context that is done.
pub retry_with_backoff-streaks :
    (base cap : ℕ) (reset_after : ℤ)
    → base ≤ cap
    → cap < 4611686018427387904
    → (ps : List Pass)
    → (retry_with_backoff (delays base cap reset_after) ps).0
      ≡ map (backoff base cap) (streaks (delays base cap reset_after) 0 ps)
unfolding retry_with_backoff
retry_with_backoff-streaks base cap reset_after le small ps =
    let same : min base cap ≡ base = omega arith in
    subst
      (λ b.
        (retry (delays base cap reset_after) (pos b) ps).0
        ≡ map (backoff base cap) (streaks (delays base cap reset_after) 0 ps))
      same (retry_lem base cap reset_after le small 0 ps)
