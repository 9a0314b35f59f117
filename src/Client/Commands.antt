-- ===== src/Client/Commands.antt =====
-- The functions of zb_rpc_client/include/zigbee_api.h against those of the firmware: one served
-- call gives the client what the same call of the firmware gives on the server.
use zigbee_remote.Prelude.{ℕ, ◌^◌, ◌<◌, refl, List}
use zigbee_remote.Prelude.Int.{IsS32, negsuc}
use zigbee_remote.Protocol.Endian.{from_le16-to_le16, from_le32_s-to_le32_s}
use zigbee_remote.Protocol.Desc
use zigbee_remote.Protocol.Desc.{
  RpcDesc, get_short_addr-IsDesc, get_panid-IsDesc, get_channel-IsDesc, get_sensor_addr-IsDesc,
  open_network-IsDesc, find_sensor-IsDesc, read_basic-IsDesc, bind_sensor-IsDesc,
  subscribe_sensor-IsDesc, config_report-IsDesc, read_temp-IsDesc, get_last_temp-IsDesc,
  wait_annce-IsDesc,
}
use zigbee_remote.Engine.{Engine}
use zigbee_remote.Server.Handlers.{
  Firmware, Server, firmware_call, k_rpc_timeout_ms, handle_bind_sensor, handle_subscribe_sensor,
  handle_config_report,
}
use zigbee_remote.Server.Routes.{Route-bind_sensor, Route-subscribe_sensor, Route-config_report}
use zigbee_remote.Client.{
  Client, to_wire, zigbee_bind_sensor, zigbee_subscribe_sensor, zigbee_config_report,
}
use zigbee_remote.Client.Remote.{OnWire, Calls, remote}

module _ {W : Type 0} (fw : Firmware W) where
  -- While the server serves this request of an attached client, on a connection whose writes
  -- succeed, the client's `zigbee_bind_sensor` returns the status that the firmware's returns on
  -- the server for the same sensor, provided that it fits 32 bits; the server is left in the
  -- firmware's state.
  pub bind_sensor_remote :
      (short_addr : ℕ) (ep : ℕ) (timeout_ms : ℕ) (c : Client) (e : Engine) (s : Server W)
      (rest more : List ℕ)
      → short_addr < 2 ^ 16
      → IsS32 (firmware_call (fw.zigbee.bind_sensor short_addr ep k_rpc_timeout_ms) s).0
      → OnWire fw Desc.bind_sensor (handle_bind_sensor fw) (to_wire short_addr ep) c e s rest more
      → Calls fw Desc.bind_sensor
          (handle_bind_sensor fw)
          (to_wire short_addr ep)
          (zigbee_bind_sensor short_addr ep timeout_ms)
          (firmware_call (fw.zigbee.bind_sensor short_addr ep k_rpc_timeout_ms))
          c
          e
          s
          rest
          more
  unfolding zigbee_bind_sensor handle_bind_sensor to_wire
  bind_sensor_remote short_addr ep timeout_ms c e s rest more small fits linked =
      remote fw Desc.bind_sensor bind_sensor-IsDesc (handle_bind_sensor fw) (Route-bind_sensor fw)
        (negsuc 0) _ (firmware_call (fw.zigbee.bind_sensor short_addr ep k_rpc_timeout_ms))
        (to_wire short_addr ep) c e s rest more refl refl
        (rw (from_le16-to_le16 short_addr small, from_le32_s-to_le32_s _ fits))
        (rw (from_le16-to_le16 short_addr small)) linked

  -- While the server serves this request of an attached client, on a connection whose writes
  -- succeed, the client's `zigbee_subscribe_sensor` returns the status that the firmware's returns
  -- on the server for the same sensor, provided that it fits 32 bits; the server is left in the
  -- firmware's state.
  pub subscribe_sensor_remote :
      (short_addr : ℕ) (ep : ℕ) (timeout_ms : ℕ) (c : Client) (e : Engine) (s : Server W)
      (rest more : List ℕ)
      → short_addr < 2 ^ 16
      → IsS32 (firmware_call (fw.zigbee.subscribe_sensor short_addr ep k_rpc_timeout_ms) s).0
      → OnWire fw Desc.subscribe_sensor
          (handle_subscribe_sensor fw)
          (to_wire short_addr ep)
          c
          e
          s
          rest
          more
      → Calls fw Desc.subscribe_sensor
          (handle_subscribe_sensor fw)
          (to_wire short_addr ep)
          (zigbee_subscribe_sensor short_addr ep timeout_ms)
          (firmware_call (fw.zigbee.subscribe_sensor short_addr ep k_rpc_timeout_ms))
          c
          e
          s
          rest
          more
  unfolding zigbee_subscribe_sensor handle_subscribe_sensor to_wire
  subscribe_sensor_remote short_addr ep timeout_ms c e s rest more small fits linked =
      remote fw Desc.subscribe_sensor subscribe_sensor-IsDesc (handle_subscribe_sensor fw)
        (Route-subscribe_sensor fw) (negsuc 0) _
        (firmware_call (fw.zigbee.subscribe_sensor short_addr ep k_rpc_timeout_ms))
        (to_wire short_addr ep) c e s rest more refl refl
        (rw (from_le16-to_le16 short_addr small, from_le32_s-to_le32_s _ fits))
        (rw (from_le16-to_le16 short_addr small)) linked

  -- While the server serves this request of an attached client, on a connection whose writes
  -- succeed, the client's `zigbee_config_report` returns the status that the firmware's returns on
  -- the server for the same sensor, provided that it fits 32 bits; the server is left in the
  -- firmware's state.
  pub config_report_remote :
      (short_addr : ℕ) (ep : ℕ) (timeout_ms : ℕ) (c : Client) (e : Engine) (s : Server W)
      (rest more : List ℕ)
      → short_addr < 2 ^ 16
      → IsS32 (firmware_call (fw.zigbee.config_report short_addr ep k_rpc_timeout_ms) s).0
      → OnWire fw Desc.config_report
          (handle_config_report fw)
          (to_wire short_addr ep)
          c
          e
          s
          rest
          more
      → Calls fw Desc.config_report
          (handle_config_report fw)
          (to_wire short_addr ep)
          (zigbee_config_report short_addr ep timeout_ms)
          (firmware_call (fw.zigbee.config_report short_addr ep k_rpc_timeout_ms))
          c
          e
          s
          rest
          more
  unfolding zigbee_config_report handle_config_report to_wire
  config_report_remote short_addr ep timeout_ms c e s rest more small fits linked =
      remote fw Desc.config_report config_report-IsDesc (handle_config_report fw)
        (Route-config_report fw) (negsuc 0) _
        (firmware_call (fw.zigbee.config_report short_addr ep k_rpc_timeout_ms))
        (to_wire short_addr ep) c e s rest more refl refl
        (rw (from_le16-to_le16 short_addr small, from_le32_s-to_le32_s _ fits))
        (rw (from_le16-to_le16 short_addr small)) linked
