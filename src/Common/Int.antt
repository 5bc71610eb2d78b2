-- ===== src/Common/Int.antt =====
-- Signed integers, as `i32` parameters use them.
use Prim.Native.Nat.{ℕ, ◌+◌, ◌-◌, ◌%◌, ◌^◌}
use mathlib.Core.Bool.{Bool, true, false}
use replica_t.Common.Tests.{ltb, leb, if◌then◌else◌}

-- `negsuc n` is -(n + 1).
pub data ℤ : Type 0 where
  pos : ℕ → ℤ
  negsuc : ℕ → ℤ

-- `n as usize` on a 64-bit target: a negative number is sign-extended.
unfoldable pub as_usize : ℤ → ℕ
as_usize (pos n) = n
as_usize (negsuc n) = 2 ^ 64 - (n + 1)

-- `a.min(b)` at `i32`.
unfoldable pub min_int : ℤ → ℤ → ℤ
min_int (pos a) (pos b) = if leb a b then pos a else pos b
min_int (pos a) (negsuc b) = negsuc b
min_int (negsuc a) (pos b) = negsuc a
min_int (negsuc a) (negsuc b) = if leb b a then negsuc a else negsuc b

-- `a < b`.
unfoldable pub lt_int : ℤ → ℤ → Bool
lt_int (pos a) (pos b) = ltb a b
lt_int (pos a) (negsuc b) = false
lt_int (negsuc a) (pos b) = true
lt_int (negsuc a) (negsuc b) = ltb b a

-- The absolute value.
abbrev pub magnitude : ℤ → ℕ
magnitude (pos n) = n
magnitude (negsuc n) = n + 1

-- `n as i32`: the low 32 bits, as a signed number.
unfoldable pub as_i32 : ℕ → ℤ
as_i32 n = if ltb (n % 2 ^ 32) (2 ^ 31) then pos (n % 2 ^ 32) else negsuc (2 ^ 32 - 1 - n % 2 ^ 32)
