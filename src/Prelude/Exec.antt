-- ===== src/Prelude/Exec.antt =====
-- Methods that change an object and may return an error: what was written before the error stays
-- written, so the object comes back on both paths.
use mathlib.Core.Bool.{Bool, true, false}
use baru_reso_headless_contr.Prelude.Results.{Error, Result, ok, err}

abbrev pub Exec : Type 0 → Type 0 → Type 0
Exec S A = S → Result A × S

module _ {S : Type 0} where
  abbrev pub return : {A : Type 0} → A → Exec S A
  return a s = (ok a, s)

  abbrev pub fail : {A : Type 0} → Error → Exec S A
  fail e s = (err e, s)

  -- A call that reads the object and leaves it as it is.
  unfoldable pub query : {A : Type 0} → (S → Result A) → Exec S A
  query f s = (f s, s)

  -- A call that only writes.
  abbrev pub update : (S → S) → Exec S (Unit {0})
  update f s = (ok tt, f s)

  -- Kept shut, so that proofs can follow a block step by step.
  unfoldable pub resume : {A B : Type 0} → Result A → (A → Exec S B) → Exec S B
  resume (ok a) f s = f a s
  resume (err e) f s = (err e, s)

  infixl 5 ◌>>=◌ ◌>>◌
  abbrev pub ◌>>=◌ : {A B : Type 0} → Exec S A → (A → Exec S B) → Exec S B
  ◌>>=◌ m f s = let (r, s') = m s in resume r f s'

  abbrev pub ◌>>◌ : {A B : Type 0} → Exec S A → Exec S B → Exec S B
  m >> n = m >>= λ _. n

  unfoldable pub check : Bool → Error → Exec S (Unit {0})
  check true e s = (ok tt, s)
  check false e s = (err e, s)
