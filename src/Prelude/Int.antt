-- ===== src/Prelude/Int.antt =====
-- Signed machine integers: an integer, its two's complement image, and the way back.
use Prim.Native.Nat.{ℕ, ◌-◌, ◌%◌, ◌^◌, ◌<◌}
use mathlib.Core.Path.{◌≡◌}
use mathlib.Core.Bool.{Bool, false}
use native.Mathlib.Omega.{arith}
use zigbee_remote.Prelude.Tests.{ltb, ◌==◌, if◌then◌else◌}

-- `negsuc n` is -(n + 1).
pub data ℤ : Type 0 where
  pos : ℕ → ℤ
  negsuc : ℕ → ℤ

abbrev pub is_zero : ℤ → Bool
is_zero (pos n) = n == 0
is_zero (negsuc n) = false

-- The values of an `int16_t` and of an `int32_t`.
abbrev pub IsS16 : ℤ → Type 0
IsS16 (pos n) = n < 2 ^ 15
IsS16 (negsuc n) = n < 2 ^ 15

abbrev pub IsS32 : ℤ → Type 0
IsS32 (pos n) = n < 2 ^ 31
IsS32 (negsuc n) = n < 2 ^ 31

-- `static_cast<uint16_t>` and `static_cast<uint32_t>` of a signed value.
abbrev pub to_u16 : ℤ → ℕ
to_u16 (pos n) = n % 2 ^ 16
to_u16 (negsuc n) = 2 ^ 16 - 1 - n % 2 ^ 16

abbrev pub to_u32 : ℤ → ℕ
to_u32 (pos n) = n % 2 ^ 32
to_u32 (negsuc n) = 2 ^ 32 - 1 - n % 2 ^ 32

-- `static_cast<int16_t>` and `static_cast<int32_t>` of an unsigned value.
abbrev pub to_s16 : ℕ → ℤ
to_s16 w = if ltb w (2 ^ 15) then pos w else negsuc (2 ^ 16 - 1 - w)

abbrev pub to_s32 : ℕ → ℤ
to_s32 w = if ltb w (2 ^ 31) then pos w else negsuc (2 ^ 32 - 1 - w)

pub to_s16-to_u16 : (z : ℤ) → IsS16 z → to_s16 (to_u16 z) ≡ z
to_s16-to_u16 (pos n) h = ground arith
to_s16-to_u16 (negsuc n) h = ground arith

pub to_s32-to_u32 : (z : ℤ) → IsS32 z → to_s32 (to_u32 z) ≡ z
to_s32-to_u32 (pos n) h = ground arith
to_s32-to_u32 (negsuc n) h = ground arith

pub to_u16-lt : (z : ℤ) → to_u16 z < 2 ^ 16
to_u16-lt (pos n) = omega arith
to_u16-lt (negsuc n) = omega arith

pub to_u32-lt : (z : ℤ) → to_u32 z < 2 ^ 32
to_u32-lt (pos n) = omega arith
to_u32-lt (negsuc n) = omega arith
