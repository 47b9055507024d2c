-- ===== src/Prelude/Results.antt =====
-- Go's `(value, error)` results. The errors are those that the code tells apart
-- (domain/errors.go and the sentinel errors of package usecase); any other error is `other`
-- with its message, and an error of the database driver is `db_error`.
use Prim.Native.String.{String}
use mathlib.Core.Path.{◌≡◌, refl}
use mathlib.Core.Logic.{◌⊎◌, inl, inr}
use mathlib.Core.Bool.{Bool, true, false}

pub data Error : Type 0 where
  not_found unauthenticated permission_denied : Error
  group_operation_forbidden builtin_role invalid_permission_key not_cancelable : Error
  canceled deadline_exceeded db_error : Error
  other : String → Error

pub data Result {ℓ} (V : Type ℓ) : Type ℓ where
  err : Error → Result V
  ok : V → Result V

-- To split on a computed result and keep the equation.
pub Result-cases {ℓ} :
    {V : Type ℓ} (r : Result V) → ((v : V) × (r ≡ ok v)) ⊎ ((e : Error) × (r ≡ err e))
Result-cases (err e) = inr (e, refl)
Result-cases (ok v) = inl (v, refl)

-- `if !passed { return failure }`
abbrev pub guard : Bool → Error → Result (Unit {0})
guard false failure = err failure
guard true failure = ok tt

module _ {ℓ κ} {V : Type ℓ} {W : Type κ} where
  infixl 5 ◌>>=◌ ◌>>◌
  abbrev pub ◌>>=◌ : Result V → (V → Result W) → Result W
  err e >>= next = err e
  ok v >>= next = next v

  abbrev pub ◌>>◌ : Result V → Result W → Result W
  first >> second = first >>= λ _. second
