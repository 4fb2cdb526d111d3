-- ===== src/Base/Words.antt =====
-- The unsigned widths of C++, and the shifts and bit operations on them.
use Prim.Native.Nat.{ℕ, ◌-◌, ◌/◌, ◌%◌, ◌^◌, bit_and, bit_or, bit_xor}
use mathlib.Core.Bool.{Bool, false}
use otsdaq_mu2e.Base.Tests.{◌==◌}
pub use Prim.Native.Nat.{bit_and, bit_or, bit_xor}

abbrev pub u8 : ℕ → ℕ
u8 n = n % 2 ^ 8

abbrev pub u16 : ℕ → ℕ
u16 n = n % 2 ^ 16

abbrev pub u32 : ℕ → ℕ
u32 n = n % 2 ^ 32

abbrev pub u64 : ℕ → ℕ
u64 n = n % 2 ^ 64

abbrev pub shr : ℕ → ℕ → ℕ
shr x k = x / 2 ^ k

-- `~x` of a `uint32_t`
abbrev pub not32 : ℕ → ℕ
not32 x = 0xffff_ffff - x

-- `x & 0x8000` as a test, of a `uint16_t`
abbrev pub bit15 : ℕ → Bool
bit15 x = x / 0x8000 % 2 == 1

-- A signed `int`; `negsuc n` is -(n + 1).
pub data ℤ : Type 0 where
  pos negsuc : ℕ → ℤ

-- The value of a positive one, or 0.
abbrev pub pos_part : ℤ → ℕ
pos_part (pos n) = n
pos_part (negsuc n) = 0

-- `n == z`
abbrev pub equals_int : ℕ → ℤ → Bool
equals_int n (pos m) = n == m
equals_int n (negsuc m) = false
