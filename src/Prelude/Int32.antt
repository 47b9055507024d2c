-- ===== src/Prelude/Int32.antt =====
-- Go's int32, as an integer with wrap-around written out, for the protobuf fields of that type.
use Prim.Native.Nat.{ℕ, ◌-◌, ◌%◌, suc, ◌<◌}
use mathlib.Core.Bool.{Bool, true, false}
use native.Mathlib.Omega.{arith}
use baru_reso_headless_contr.Prelude.Tests.{ltb, leb, if◌then◌else◌}

-- `negsuc n` is -(n + 1).
pub data ℤ : Type 0 where
  pos : ℕ → ℤ
  negsuc : ℕ → ℤ

-- The int32 that stands for `x` modulo 2 ^ 32.
unfoldable pub to_int32 : ℤ → ℤ
to_int32 (pos n) =
    let m = n % 4294967296 in if ltb m 2147483648 then pos m else negsuc (4294967295 - m)
to_int32 (negsuc n) =
    let m = n % 4294967296 in if ltb m 2147483648 then negsuc m else pos (4294967295 - m)

-- x + 1 and x - 1 before wrapping.
unfoldable pub up : ℤ → ℤ
up (pos n) = pos (suc n)
up (negsuc ℕ.zero) = pos 0
up (negsuc (suc n)) = negsuc n

unfoldable pub down : ℤ → ℤ
down (negsuc n) = negsuc (suc n)
down (pos ℕ.zero) = negsuc 0
down (pos (suc n)) = pos n

-- The sign of an event's `delta`: a user joined or left.
pub data Delta : Type 0 where
  plus_one minus_one : Delta

unfoldable pub add_delta : ℤ → Delta → ℤ
unfolding to_int32 up down
add_delta x plus_one = to_int32 (up x)
add_delta x minus_one = to_int32 (down x)

-- max(x, 0)
unfoldable pub max_zero : ℤ → ℤ
max_zero (pos n) = pos n
max_zero (negsuc n) = pos 0

-- x > 0
unfoldable pub is_positive : ℤ → Bool
is_positive (pos n) = ltb 0 n
is_positive (negsuc n) = false

abbrev pub IsNonneg : ℤ → Type 0
IsNonneg (pos n) = Unit
IsNonneg (negsuc n) = ⊥

abbrev pub IsInt32 : ℤ → Type 0
IsInt32 (pos n) = n < 2147483648
IsInt32 (negsuc n) = n < 2147483648

-- x <= y
unfoldable pub le_int : ℤ → ℤ → Bool
le_int (pos a) (pos b) = leb a b
le_int (pos a) (negsuc b) = false
le_int (negsuc a) (pos b) = true
le_int (negsuc a) (negsuc b) = leb b a

pub max_zero-IsNonneg : (x : ℤ) → IsNonneg (max_zero x)
unfolding max_zero
max_zero-IsNonneg (pos n) = tt
max_zero-IsNonneg (negsuc n) = tt

pub to_int32-IsInt32 : (x : ℤ) → IsInt32 (to_int32 x)
unfolding to_int32
to_int32-IsInt32 (pos n) = ground arith
to_int32-IsInt32 (negsuc n) = ground arith
