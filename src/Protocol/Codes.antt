-- ===== src/Protocol/Codes.antt =====
-- The protocol's constants and `enum class error_code`.
use zigbee_remote.Prelude.{ℕ}

abbrev pub k_magic : ℕ
k_magic = 0x32435052

abbrev pub k_max_payload : ℕ
k_max_payload = 64

abbrev pub k_default_port : ℕ
k_default_port = 3333

pub data ErrorCode : Type 0 where
  none bad_magic oversized_payload unknown_api payload_mismatch : ErrorCode

-- `static_cast<uint32_t>(code)`
abbrev pub code_value : ErrorCode → ℕ
code_value ErrorCode.none = 0
code_value bad_magic = 1
code_value oversized_payload = 2
code_value unknown_api = 3
code_value payload_mismatch = 4
