-- ===== src/Common/Words.antt =====
-- The integer types of builder/vmlinux.h as native numbers: a value of a w-bit type, signed or not,
-- is its bit pattern, below 2 ^ w.
use bumblebee.Common.Tests.{ltb, if◌then◌else◌}
use Prim.Native.Nat.{ℕ, ◌+◌, ◌-◌, ◌/◌, ◌%◌, ◌^◌}

-- The conversions `(__u32) x` and `(__u64) x`, and the shift `x >> 32` of a `__u64`.
abbrev pub to_u32 : ℕ → ℕ
to_u32 x = x % 2 ^ 32

abbrev pub to_u64 : ℕ → ℕ
to_u64 x = x % 2 ^ 64

abbrev pub high_u32 : ℕ → ℕ
high_u32 x = x / 2 ^ 32 % 2 ^ 32

-- The conversion of an `int` to a 64-bit type: the sign bit is extended.
abbrev pub int_to_u64 : ℕ → ℕ
int_to_u64 x = if ltb x (2 ^ 31) then x else x + (2 ^ 64 - 2 ^ 32)

-- `a + b` and `a - b` at `__u64`.
abbrev pub add_u64 : ℕ → ℕ → ℕ
add_u64 a b = (a + b) % 2 ^ 64

abbrev pub sub_u64 : ℕ → ℕ → ℕ
sub_u64 a b = (a + 2 ^ 64 - b) % 2 ^ 64

-- The `int` constant -1.
abbrev pub minus_one : ℕ
minus_one = 2 ^ 32 - 1
