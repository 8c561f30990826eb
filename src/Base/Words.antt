-- ===== src/Base/Words.antt =====
-- C's fixed-width integers as bit patterns on the native numbers, for a little-endian machine with
-- a 32-bit int: a pattern of w bits is a number below 2 ^ w.
use cn_lab.Base.Tests.{ltb, if◌then◌else◌}
use cn_lab.Base.Int.{ℤ, pos, negsuc, abs}
use Prim.Native.Nat.{ℕ, ◌+◌, ◌-◌, ◌*◌, ◌/◌, ◌%◌, ◌<◌, ◌≤◌}
use mathlib.Core.Path.{◌≡◌}
use native.Mathlib.Omega.{arith}

abbrev pub u8 : ℕ → ℕ
u8 n = n % 256

abbrev pub u16 : ℕ → ℕ
u16 n = n % 65536

abbrev pub u32 : ℕ → ℕ
u32 n = n % 4294967296

-- The int that a pattern stands for, and the pattern of an int.
abbrev pub signed32 : ℕ → ℤ
signed32 w = if ltb w 2147483648 then pos w else negsuc (4294967295 - w)

abbrev pub pattern32 : ℤ → ℕ
pattern32 (pos n) = u32 n
pattern32 (negsuc n) = 4294967295 - u32 n

-- A result of int arithmetic in the kernel, which is built with wrap-around (-fno-strict-overflow).
unfoldable pub int32 : ℤ → ℤ
int32 z = signed32 (pattern32 z)

pub int32_small : (z : ℤ) → abs z ≤ 2147483647 → int32 z ≡ z
unfolding int32
int32_small (pos n) h = ground arith
int32_small (negsuc n) h = ground arith

-- The C library's htons, and ntohs, which is the same exchange of two bytes: the argument is
-- converted to uint16_t.
unfoldable pub htons : ℕ → ℕ
htons n = n % 256 * 256 + n / 256 % 256

abbrev pub ntohs : ℕ → ℕ
ntohs = htons

pub ntohs-htons : (n : ℕ) → ntohs (htons n) ≡ u16 n
unfolding htons
ntohs-htons n = omega arith

pub htons-lt : (n : ℕ) → htons n < 65536
unfolding htons
htons-lt n = omega arith
