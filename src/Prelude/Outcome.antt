-- ===== src/Prelude/Outcome.antt =====
-- Methods that either refuse and change nothing, or are done with a known effect.
use mathlib.Core.Path.{◌≡◌, refl}
use mathlib.Core.Bool.{Bool, true, false}
use baru_reso_headless_contr.Prelude.Results.{Error, Result, ok, err}
use baru_reso_headless_contr.Prelude.Exec.{Exec, resume, query, check}

pub data Outcome {S A : Type 0} (P : A → S → Type 0) (s : S) (out : Result A × S) : Type 0 where
  refused : (e : Error) → out ≡ (err e, s) → Outcome P s out
  done : (a : A) (s' : S) → out ≡ (ok a, s') → P a s' → Outcome P s out

module _ {S A B : Type 0} {P : B → S → Type 0} where
  -- A step that leaves the state as it is.
  pub Outcome-query :
      (f : S → Result A) (k : A → Exec S B) (s : S)
      → ((a : A) → f s ≡ ok a → Outcome P s (k a s))
      → Outcome P s (resume (query f s).0 k (query f s).1)
  unfolding query resume
  Outcome-query f k s h = go (f s) refl
    where
      go : (r : Result A) → f s ≡ r → Outcome P s (resume r k s)
      go (ok a) e = h a e
      go (err x) e = refused x refl

module _ {S B : Type 0} {P : B → S → Type 0} where
  pub Outcome-check :
      (b : Bool) (e : Error) (k : Unit {0} → Exec S B) (s : S)
      → (b ≡ true → Outcome P s (k tt s))
      → Outcome P s (resume (check b e s).0 k (check b e s).1)
  unfolding check resume
  Outcome-check true e k s h = h refl
  Outcome-check false e k s h = refused e refl

pub Outcome-map :
    {S A : Type 0} (P Q : A → S → Type 0) {s : S} (out : Result A × S)
    → Outcome P s out
    → ((a : A) (s' : S) → P a s' → Q a s')
    → Outcome Q s out
Outcome-map P Q out (refused e h) f = refused e h
Outcome-map P Q out (done a s' h p) f = done a s' h (f a s' p)

-- A predicate of the state through the steps of a block.
module _ {S A B : Type 0} (I : S → Type 0) where
  pub keep-query :
      (f : S → Result A) (k : A → Exec S B) (s : S)
      → I s
      → ((a : A) → f s ≡ ok a → I (k a s).1)
      → I (resume (query f s).0 k (query f s).1).1
  unfolding query resume
  keep-query f k s i h = go (f s) refl
    where
      go : (r : Result A) → f s ≡ r → I (resume r k s).1
      go (ok a) e = h a e
      go (err x) e = i

  pub keep-step :
      (m : Exec S A) (k : A → Exec S B) (s : S)
      → I (m s).1
      → ((a : A) → (m s).0 ≡ ok a → I (k a (m s).1).1)
      → I (resume (m s).0 k (m s).1).1
  unfolding resume
  keep-step m k s i h = go (m s).0 refl
    where
      go : (r : Result A) → (m s).0 ≡ r → I (resume r k (m s).1).1
      go (ok a) e = h a e
      go (err x) e = i

  -- The rest of a block is followed from any state that the step can leave.
  pub keep-then :
      (m : Exec S A) (k : A → Exec S B) (s : S)
      → ((t : S) → I t → I (m t).1)
      → I s
      → ((a : A) (t : S) → I t → I (k a t).1)
      → I (resume (m s).0 k (m s).1).1
  keep-then m k s keeps i h = keep-step m k s (keeps s i) (λ a _. h a (m s).1 (keeps s i))

module _ {S B : Type 0} (I : S → Type 0) where
  pub keep-check :
      (b : Bool) (e : Error) (k : Unit {0} → Exec S B) (s : S)
      → I s
      → (b ≡ true → I (k tt s).1)
      → I (resume (check b e s).0 k (check b e s).1).1
  unfolding check resume
  keep-check true e k s i h = h refl
  keep-check false e k s i h = i

  pub keep-read : (f : S → Result B) (s : S) → I s → I (query f s).1
  unfolding query
  keep-read f s i = i

-- The state after a block: as it was, or changed in a known way.
pub data Effect {S : Type 0} (P : S → Type 0) (s s' : S) : Type 0 where
  untouched : s' ≡ s → Effect P s s'
  changed : P s' → Effect P s s'

module _ {S A B : Type 0} {P : S → Type 0} where
  pub Effect-query :
      (f : S → Result A) (k : A → Exec S B) (s : S)
      → ((a : A) → f s ≡ ok a → Effect P s (k a s).1)
      → Effect P s (resume (query f s).0 k (query f s).1).1
  unfolding query resume
  Effect-query f k s h = go (f s) refl
    where
      go : (r : Result A) → f s ≡ r → Effect P s (resume r k s).1
      go (ok a) e = h a e
      go (err x) e = untouched refl

  -- A step that may read or refuse, but not write.
  pub Effect-guard :
      (m : Exec S A) (k : A → Exec S B) (s : S)
      → (m s).1 ≡ s
      → ((a : A) → (m s).0 ≡ ok a → Effect P s (k a s).1)
      → Effect P s (resume (m s).0 k (m s).1).1
  unfolding resume
  Effect-guard m k s same h = rw same (go (m s).0 refl)
    where
      go : (r : Result A) → (m s).0 ≡ r → Effect P s (resume r k s).1
      go (ok a) e = h a e
      go (err x) e = untouched refl

  -- A write, with only reads after it.
  pub Effect-write :
      (m : Exec S A) (k : A → Exec S B) (s : S)
      → Effect P s (m s).1
      → ((a : A) (t : S) → (k a t).1 ≡ t)
      → Effect P s (resume (m s).0 k (m s).1).1
  unfolding resume
  Effect-write m k s e reads = go (m s).0
    where
      go : (r : Result A) → Effect P s (resume r k (m s).1).1
      go (ok a) = rw (reads a (m s).1) e
      go (err x) = e

module _ {S B : Type 0} {P : S → Type 0} where
  pub Effect-check :
      (b : Bool) (e : Error) (k : Unit {0} → Exec S B) (s : S)
      → (b ≡ true → Effect P s (k tt s).1)
      → Effect P s (resume (check b e s).0 k (check b e s).1).1
  unfolding check resume
  Effect-check true e k s h = h refl
  Effect-check false e k s h = untouched refl
