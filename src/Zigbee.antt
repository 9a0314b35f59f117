-- ===== src/Zigbee.antt =====
-- zb_rpc_server/main/zigbee_api.h: the firmware's Zigbee API. The same surface is implemented by
-- the stack on the chip (zb_rpc_server/main/zigbee_stack.c) and, over RPC, by the Linux client
-- (zb_rpc_client/include/zigbee_api.h). `W` is the state that the implementation changes.
use zigbee_remote.Prelude.{ℕ, List}
use zigbee_remote.Prelude.Int.{ℤ}

pub record ZigbeeAddr : Type 0 where
  pub err : ℤ
  pub short_addr : ℕ
  pub ep : ℕ

-- `manufacturer` and `model` are `char[16]`.
pub record ZigbeeBasic : Type 0 where
  pub err : ℤ
  pub manufacturer : List ℕ
  pub model : List ℕ

pub record ZigbeeTemp : Type 0 where
  pub err : ℤ
  pub measured : ℤ
  pub min_measured : ℤ
  pub max_measured : ℤ
  pub tolerance : ℤ

-- The functions of the header, in its order of arguments, the state last.
pub record ZigbeeApi (W : Type 0) : Type 0 where
  pub get_short_addr : W → ℕ × W
  pub get_panid : W → ℕ × W
  pub get_channel : W → ℕ × W
  pub get_sensor_addr : W → ℕ × W
  pub open_network : ℕ → W → ℤ × W
  pub wait_annce : ℕ → W → ℕ × W
  pub find_sensor : ℕ → ℕ → W → ZigbeeAddr × W
  pub read_basic : ℕ → ℕ → ℕ → W → ZigbeeBasic × W
  pub bind_sensor : ℕ → ℕ → ℕ → W → ℤ × W
  pub subscribe_sensor : ℕ → ℕ → ℕ → W → ℤ × W
  pub config_report : ℕ → ℕ → ℕ → W → ℤ × W
  pub read_temp : ℕ → ℕ → ℕ → W → ZigbeeTemp × W
  pub get_last_temp : W → ℤ × W
