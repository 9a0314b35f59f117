-- ===== src/Protocol/Endian.antt =====
-- `le16`, `le32` and the conversions of zb_rpc_shared/include/zb_rpc/protocol.hpp.
use Prim.Native.Nat.{bit_or}
use zigbee_remote.Prelude.{ℕ, ◌+◌, ◌*◌, ◌/◌, ◌%◌, ◌^◌, ◌<◌, ◌≡◌, ◌∙◌, ap, arith}
use zigbee_remote.Prelude.Bits.{bit_or_shifted}
use zigbee_remote.Prelude.Int.{
  ℤ, IsS16, IsS32, to_u16, to_u32, to_s16, to_s32, to_s16-to_u16, to_s32-to_u32, to_u16-lt,
  to_u32-lt,
}

pub record Le16 : Type 0 where
  pub byte0 : ℕ
  pub byte1 : ℕ

pub record Le32 : Type 0 where
  pub byte0 : ℕ
  pub byte1 : ℕ
  pub byte2 : ℕ
  pub byte3 : ℕ

-- `static_cast<uint8_t>(value >> k)`
abbrev byte_at : ℕ → ℕ → ℕ
byte_at value k = value / 2 ^ k % 256

unfoldable pub to_le16 : ℕ → Le16
to_le16 value = record { byte0 = byte_at value 0; byte1 = byte_at value 8 }

unfoldable pub from_le16 : Le16 → ℕ
from_le16 value = bit_or value.byte0 (value.byte1 * 2 ^ 8)

unfoldable pub to_le16_s : ℤ → Le16
unfolding to_le16
to_le16_s value = to_le16 (to_u16 value)

unfoldable pub from_le16_s : Le16 → ℤ
unfolding from_le16
from_le16_s value = to_s16 (from_le16 value)

unfoldable pub to_le32 : ℕ → Le32
to_le32 value = record {
  byte0 = byte_at value 0;
  byte1 = byte_at value 8;
  byte2 = byte_at value 16;
  byte3 = byte_at value 24;
}

unfoldable pub from_le32 : Le32 → ℕ
from_le32 value =
    bit_or (bit_or (bit_or value.byte0 (value.byte1 * 2 ^ 8)) (value.byte2 * 2 ^ 16))
      (value.byte3 * 2 ^ 24)

unfoldable pub to_le32_s : ℤ → Le32
unfolding to_le32
to_le32_s value = to_le32 (to_u32 value)

unfoldable pub from_le32_s : Le32 → ℤ
unfolding from_le32
from_le32_s value = to_s32 (from_le32 value)

-- A value of 16 bits is what its two little-endian bytes read back as.
pub from_le16-to_le16 : (v : ℕ) → v < 2 ^ 16 → from_le16 (to_le16 v) ≡ v
unfolding from_le16 to_le16
from_le16-to_le16 v h = ground (arith, bit_or_shifted 8 (byte_at v 0) (byte_at v 8))

-- A value of 32 bits is what its four little-endian bytes read back as.
pub from_le32-to_le32 : (v : ℕ) → v < 2 ^ 32 → from_le32 (to_le32 v) ≡ v
unfolding from_le32 to_le32
from_le32-to_le32 v h = ground (
  arith,
  bit_or_shifted 8 (byte_at v 0) (byte_at v 8),
  bit_or_shifted 16 (byte_at v 0 + byte_at v 8 * 2 ^ 8) (byte_at v 16),
  bit_or_shifted 24 (byte_at v 0 + byte_at v 8 * 2 ^ 8 + byte_at v 16 * 2 ^ 16) (byte_at v 24),
)

-- A signed value of 16 bits, negative ones included, is what its bytes read back as.
pub from_le16_s-to_le16_s : (z : ℤ) → IsS16 z → from_le16_s (to_le16_s z) ≡ z
unfolding from_le16_s to_le16_s
from_le16_s-to_le16_s z h =
    ap to_s16 (from_le16-to_le16 (to_u16 z) (to_u16-lt z)) ∙ to_s16-to_u16 z h

-- A signed 32-bit value is what `from_le32_s` reads back from `to_le32_s`.
pub from_le32_s-to_le32_s : (z : ℤ) → IsS32 z → from_le32_s (to_le32_s z) ≡ z
unfolding from_le32_s to_le32_s
from_le32_s-to_le32_s z h =
    ap to_s32 (from_le32-to_le32 (to_u32 z) (to_u32-lt z)) ∙ to_s32-to_u32 z h
