-- ===== src/Base/Word.antt =====
-- Machine words as native numbers. `u8`, `u16` and `u32` are the casts of C to the fixed widths;
-- an `int32` is its 32-bit pattern, read as a signed number only where the code compares.
use Prim.Native.Nat.{ℕ, ◌+◌, ◌-◌, ◌%◌, ◌/◌, ◌^◌, ◌<◌}
use mathlib.Core.Path.{◌≡◌}
use mathlib.Core.Bool.{Bool, ◌&&◌, not}
use native.Mathlib.Omega.{arith}
use ka9q_unix.Base.Tests.{ltb, ◌==◌, if◌then◌else◌}

abbrev pub u8 : ℕ → ℕ
u8 n = n % 2 ^ 8

abbrev pub u16 : ℕ → ℕ
u16 n = n % 2 ^ 16

abbrev pub u32 : ℕ → ℕ
u32 n = n % 2 ^ 32

abbrev pub IsByte : ℕ → Type 0
IsByte n = n < 2 ^ 8

abbrev pub IsU16 : ℕ → Type 0
IsU16 n = n < 2 ^ 16

abbrev pub IsU32 : ℕ → Type 0
IsU32 n = n < 2 ^ 32

-- Subtraction of 32-bit patterns; the modulus is added first, since `-` stops at 0.
abbrev pub sub32 : ℕ → ℕ → ℕ
sub32 a b = (a + 2 ^ 32 - b) % 2 ^ 32

abbrev pub add32 : ℕ → ℕ → ℕ
add32 a b = (a + b) % 2 ^ 32

-- `(int32) a < 0`
abbrev pub is_negative : ℕ → Bool
is_negative a = not (ltb a (2 ^ 31))

-- `(int32) a > 0`
abbrev pub is_positive : ℕ → Bool
is_positive a = ltb a (2 ^ 31) && not (a == 0)

-- The order of two int32 patterns as signed numbers: both are moved up by 2 ^ 31.
abbrev pub biased : ℕ → ℕ
biased a = (a + 2 ^ 31) % 2 ^ 32

-- The absolute value of an int32.
abbrev pub magnitude : ℕ → ℕ
magnitude a = if is_negative a then sub32 0 a else a

-- Division of an int32 by a positive number, which rounds towards 0.
abbrev pub quot32 : ℕ → ℕ → ℕ
quot32 a n = if is_negative a then sub32 0 (sub32 0 a / n) else a / n

pub sub32-add32 : (a b : ℕ) → IsU32 a → IsU32 b → sub32 (add32 a b) b ≡ a
sub32-add32 a b ha hb = omega arith
