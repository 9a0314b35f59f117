-- ===== src/Client.antt =====
-- zb_rpc_client/include/zigbee_api.h: the firmware's Zigbee API over RPC, on the Linux client.
pub mod Returns
pub mod Remote
pub mod Queries
pub mod Sensors
pub mod Commands
pub mod Failures
pub mod Detached
use zigbee_remote.Prelude.{ℕ, Bool, true, false, Option, none, some, replicate, if◌then◌else◌}
use zigbee_remote.Prelude.Int.{ℤ, pos, negsuc}
use zigbee_remote.Fd.{Fd}
use zigbee_remote.Protocol.Endian.{to_le16, from_le16, from_le16_s, to_le32_s, from_le32_s}
use zigbee_remote.Protocol.Codes.{ErrorCode}
use zigbee_remote.Protocol.Payloads.{EmptyReq, ZbAddr}
use zigbee_remote.Protocol.Desc
use zigbee_remote.Protocol.Desc.{RpcDesc}
use zigbee_remote.Engine.{Engine}
use zigbee_remote.Engine.Rpc.{call, call_empty}
use zigbee_remote.Zigbee.{ZigbeeAddr, ZigbeeBasic, ZigbeeTemp, ZigbeeApi}

-- `g_fd`, and what the kernel holds for that descriptor.
pub record Client : Type 0 where
  pub g_fd : ℤ
  pub fd : Fd

abbrev pub k_invalid_short_addr : ℕ
k_invalid_short_addr = 0xFFFF

abbrev pub is_nonneg : ℤ → Bool
is_nonneg (pos n) = true
is_nonneg (negsuc n) = false

unfoldable pub attach : ℤ → Fd → Client → Bool × Client
attach n fd c = (is_nonneg n, record { g_fd = n; fd = fd })

unfoldable pub detach : Client → Client
detach c = record c { g_fd = negsuc 0 }

unfoldable pub attached : Client → Bool
attached c = is_nonneg c.g_fd

-- `zb_rpc::Engine(g_fd)`: a new engine for each call.
abbrev pub engine : Client → Engine
engine c = record { fd = c.fd; last_error = ErrorCode.none }

unfoldable pub to_wire : ℕ → ℕ → ZbAddr
to_wire short_addr ep = record { err = to_le32_s (pos 0); short_addr = to_le16 short_addr; ep = ep }

-- The part that all the functions share: the check that a descriptor is attached, and the call.
-- `none` where the function returns its default, in both cases the same.
unfoldable pub rpc_empty : {Resp : Type 0} → RpcDesc EmptyReq Resp → Client → Option Resp × Client
unfolding attached
rpc_empty desc c =
    if attached c
    then (let (response, e) = call_empty desc (engine c) in (response, record c { fd = e.fd }))
    else (none, c)

unfoldable pub rpc : {Req Resp : Type 0} → RpcDesc Req Resp → Req → Client → Option Resp × Client
unfolding attached
rpc desc request c =
    if attached c
    then (let (response, e) = call desc request (engine c) in (response, record c { fd = e.fd }))
    else (none, c)

module _ {A B : Type 0} where
  -- The value that a response stands for, or the default.
  abbrev pub reply_or : A → (B → A) → Option B × Client → A × Client
  reply_or default value (response, c) = (elim response [ none ↦ default | some r ↦ value r ], c)

unfoldable pub zigbee_get_short_addr : Client → ℕ × Client
zigbee_get_short_addr c = reply_or 0 (λ r. from_le16 r.value) (rpc_empty Desc.get_short_addr c)

unfoldable pub zigbee_get_panid : Client → ℕ × Client
zigbee_get_panid c = reply_or 0 (λ r. from_le16 r.value) (rpc_empty Desc.get_panid c)

unfoldable pub zigbee_get_channel : Client → ℕ × Client
zigbee_get_channel c = reply_or 0 (λ r. r.value) (rpc_empty Desc.get_channel c)

unfoldable pub zigbee_get_sensor_addr : Client → ℕ × Client
zigbee_get_sensor_addr c =
    reply_or k_invalid_short_addr (λ r. from_le16 r.value) (rpc_empty Desc.get_sensor_addr c)

unfoldable pub zigbee_open_network : ℕ → Client → ℤ × Client
zigbee_open_network duration c =
    reply_or (negsuc 0) (λ r. from_le32_s r.value)
      (rpc Desc.open_network (record { duration = duration }) c)

-- The timeout is not sent.
unfoldable pub zigbee_wait_annce : ℕ → Client → ℕ × Client
zigbee_wait_annce timeout_ms c = reply_or 0 (λ r. from_le16 r.value) (rpc_empty Desc.wait_annce c)

abbrev pub no_addr : ZigbeeAddr
no_addr = record { err = negsuc 0; short_addr = 0; ep = 0 }

abbrev pub no_basic : ZigbeeBasic
no_basic = record { err = negsuc 0; manufacturer = replicate 16 0; model = replicate 16 0 }

abbrev pub no_temp : ZigbeeTemp
no_temp = record {
  err = negsuc 0;
  measured = pos 0;
  min_measured = pos 0;
  max_measured = pos 0;
  tolerance = pos 0;
}

unfoldable pub zigbee_find_sensor : ℕ → ℕ → Client → ZigbeeAddr × Client
zigbee_find_sensor short_addr timeout_ms c =
    reply_or no_addr
      (λ r. record { err = from_le32_s r.err; short_addr = from_le16 r.short_addr; ep = r.ep })
      (rpc Desc.find_sensor (record { short_addr = to_le16 short_addr }) c)

unfoldable pub zigbee_read_basic : ℕ → ℕ → ℕ → Client → ZigbeeBasic × Client
unfolding to_wire
zigbee_read_basic short_addr ep timeout_ms c =
    reply_or no_basic
      (λ r. record { err = from_le32_s r.err; manufacturer = r.manufacturer; model = r.model })
      (rpc Desc.read_basic (to_wire short_addr ep) c)

unfoldable pub zigbee_bind_sensor : ℕ → ℕ → ℕ → Client → ℤ × Client
unfolding to_wire
zigbee_bind_sensor short_addr ep timeout_ms c =
    reply_or (negsuc 0) (λ r. from_le32_s r.value) (rpc Desc.bind_sensor (to_wire short_addr ep) c)

unfoldable pub zigbee_subscribe_sensor : ℕ → ℕ → ℕ → Client → ℤ × Client
unfolding to_wire
zigbee_subscribe_sensor short_addr ep timeout_ms c =
    reply_or (negsuc 0) (λ r. from_le32_s r.value)
      (rpc Desc.subscribe_sensor (to_wire short_addr ep) c)

unfoldable pub zigbee_config_report : ℕ → ℕ → ℕ → Client → ℤ × Client
unfolding to_wire
zigbee_config_report short_addr ep timeout_ms c =
    reply_or (negsuc 0) (λ r. from_le32_s r.value)
      (rpc Desc.config_report (to_wire short_addr ep) c)

unfoldable pub zigbee_read_temp : ℕ → ℕ → ℕ → Client → ZigbeeTemp × Client
unfolding to_wire
zigbee_read_temp short_addr ep timeout_ms c =
    reply_or no_temp
      (λ r. record {
        err = from_le32_s r.err;
        measured = from_le16_s r.measured;
        min_measured = from_le16_s r.min_measured;
        max_measured = from_le16_s r.max_measured;
        tolerance = from_le16_s r.tolerance;
      })
      (rpc Desc.read_temp (to_wire short_addr ep) c)

unfoldable pub zigbee_get_last_temp : Client → ℤ × Client
zigbee_get_last_temp c =
    reply_or (pos 0) (λ r. from_le16_s r.value) (rpc_empty Desc.get_last_temp c)

-- The header's functions as an implementation of the API.
abbrev pub rpc_api : ZigbeeApi Client
rpc_api = record {
  get_short_addr = zigbee_get_short_addr;
  get_panid = zigbee_get_panid;
  get_channel = zigbee_get_channel;
  get_sensor_addr = zigbee_get_sensor_addr;
  open_network = zigbee_open_network;
  wait_annce = zigbee_wait_annce;
  find_sensor = zigbee_find_sensor;
  read_basic = zigbee_read_basic;
  bind_sensor = zigbee_bind_sensor;
  subscribe_sensor = zigbee_subscribe_sensor;
  config_report = zigbee_config_report;
  read_temp = zigbee_read_temp;
  get_last_temp = zigbee_get_last_temp;
}
