-- ===== src/Client/Sensors.antt =====
-- The functions of zb_rpc_client/include/zigbee_api.h against those of the firmware: one served
-- call gives the client what the same call of the firmware gives on the server.
use zigbee_remote.Prelude.{ℕ, ◌^◌, ◌<◌, ◌≡◌, refl, List, length}
use zigbee_remote.Prelude.Int.{IsS16, IsS32}
use zigbee_remote.Protocol.Endian.{
  to_le16, from_le16-to_le16, from_le16_s-to_le16_s, from_le32_s-to_le32_s,
}
use zigbee_remote.Protocol.Desc
use zigbee_remote.Protocol.Desc.{
  RpcDesc, get_short_addr-IsDesc, get_panid-IsDesc, get_channel-IsDesc, get_sensor_addr-IsDesc,
  open_network-IsDesc, find_sensor-IsDesc, read_basic-IsDesc, bind_sensor-IsDesc,
  subscribe_sensor-IsDesc, config_report-IsDesc, read_temp-IsDesc, get_last_temp-IsDesc,
  wait_annce-IsDesc,
}
use zigbee_remote.Engine.{Engine}
use zigbee_remote.Zigbee.{ZigbeeAddr, ZigbeeBasic, ZigbeeTemp}
use zigbee_remote.Server.Handlers.{
  Firmware, Server, firmware_call, k_rpc_timeout_ms, handle_find_sensor, handle_read_basic,
  handle_read_temp,
}
use zigbee_remote.Server.Routes.{Route-find_sensor, Route-read_basic, Route-read_temp}
use zigbee_remote.Client.{
  Client, no_addr, no_basic, no_temp, to_wire, zigbee_find_sensor, zigbee_read_basic,
  zigbee_read_temp,
}
use zigbee_remote.Client.Remote.{OnWire, Calls, remote}

-- The values that the C types of the API hold.
abbrev pub AddrInRange : ZigbeeAddr → Type 0
AddrInRange a = IsS32 a.err × (a.short_addr < 2 ^ 16)

abbrev pub BasicInRange : ZigbeeBasic → Type 0
BasicInRange b = IsS32 b.err × (length b.manufacturer ≡ 16) × (length b.model ≡ 16)

abbrev pub TempInRange : ZigbeeTemp → Type 0
TempInRange t =
    IsS32 t.err × IsS16 t.measured × IsS16 t.min_measured × IsS16 t.max_measured × IsS16 t.tolerance

module _ {W : Type 0} (fw : Firmware W) where
  -- While the server serves the request of an attached client, with writes that succeed and values
  -- in the range of their types, the client's `zigbee_find_sensor` returns the sensor of the
  -- firmware's `zigbee_find_sensor` on the server for the same address, and the server is left in
  -- the firmware's state.
  pub find_sensor_remote :
      (short_addr : ℕ) (timeout_ms : ℕ) (c : Client) (e : Engine) (s : Server W)
      (rest more : List ℕ)
      → short_addr < 2 ^ 16
      → AddrInRange (firmware_call (fw.zigbee.find_sensor short_addr k_rpc_timeout_ms) s).0
      → OnWire fw Desc.find_sensor
          (handle_find_sensor fw)
          (record { short_addr = to_le16 short_addr })
          c
          e
          s
          rest
          more
      → Calls fw Desc.find_sensor
          (handle_find_sensor fw)
          (record { short_addr = to_le16 short_addr })
          (zigbee_find_sensor short_addr timeout_ms)
          (firmware_call (fw.zigbee.find_sensor short_addr k_rpc_timeout_ms))
          c
          e
          s
          rest
          more
  unfolding zigbee_find_sensor handle_find_sensor
  find_sensor_remote short_addr timeout_ms c e s rest more small (err_fits, addr_fits) linked =
      remote fw Desc.find_sensor find_sensor-IsDesc (handle_find_sensor fw) (Route-find_sensor fw)
        no_addr _ (firmware_call (fw.zigbee.find_sensor short_addr k_rpc_timeout_ms))
        (record { short_addr = to_le16 short_addr }) c e s rest more refl refl
        (rw (
          from_le16-to_le16 short_addr small,
          from_le32_s-to_le32_s _ err_fits,
          from_le16-to_le16 _ addr_fits,
        ))
        (rw (from_le16-to_le16 short_addr small)) linked

  -- While the server serves the request of an attached client, with writes that succeed and values
  -- in the range of their types, the client's `zigbee_read_basic` returns the status and both
  -- names of the firmware's `zigbee_read_basic` on the server for the same sensor, and the server
  -- is left in the firmware's state.
  pub read_basic_remote :
      (short_addr : ℕ) (ep : ℕ) (timeout_ms : ℕ) (c : Client) (e : Engine) (s : Server W)
      (rest more : List ℕ)
      → short_addr < 2 ^ 16
      → BasicInRange (firmware_call (fw.zigbee.read_basic short_addr ep k_rpc_timeout_ms) s).0
      → OnWire fw Desc.read_basic (handle_read_basic fw) (to_wire short_addr ep) c e s rest more
      → Calls fw Desc.read_basic
          (handle_read_basic fw)
          (to_wire short_addr ep)
          (zigbee_read_basic short_addr ep timeout_ms)
          (firmware_call (fw.zigbee.read_basic short_addr ep k_rpc_timeout_ms))
          c
          e
          s
          rest
          more
  unfolding zigbee_read_basic handle_read_basic to_wire
  read_basic_remote short_addr ep timeout_ms c e s rest more small (err_fits, first, second)
        linked =
      remote fw Desc.read_basic read_basic-IsDesc (handle_read_basic fw) (Route-read_basic fw)
        no_basic _ (firmware_call (fw.zigbee.read_basic short_addr ep k_rpc_timeout_ms))
        (to_wire short_addr ep) c e s rest more refl
        (rw (from_le16-to_le16 short_addr small, first, second))
        (rw (from_le16-to_le16 short_addr small, from_le32_s-to_le32_s _ err_fits))
        (rw (from_le16-to_le16 short_addr small)) linked

  -- While the server serves the request of an attached client, with writes that succeed and values
  -- in the range of their types, the client's `zigbee_read_temp` returns the status and the four
  -- signed temperatures of the firmware's `zigbee_read_temp` on the server for the same sensor,
  -- and the server is left in the firmware's state.
  pub read_temp_remote :
      (short_addr : ℕ) (ep : ℕ) (timeout_ms : ℕ) (c : Client) (e : Engine) (s : Server W)
      (rest more : List ℕ)
      → short_addr < 2 ^ 16
      → TempInRange (firmware_call (fw.zigbee.read_temp short_addr ep k_rpc_timeout_ms) s).0
      → OnWire fw Desc.read_temp (handle_read_temp fw) (to_wire short_addr ep) c e s rest more
      → Calls fw Desc.read_temp
          (handle_read_temp fw)
          (to_wire short_addr ep)
          (zigbee_read_temp short_addr ep timeout_ms)
          (firmware_call (fw.zigbee.read_temp short_addr ep k_rpc_timeout_ms))
          c
          e
          s
          rest
          more
  unfolding zigbee_read_temp handle_read_temp to_wire
  read_temp_remote short_addr ep timeout_ms c e s rest more small (err_fits, now, low, high, slack)
        linked =
      remote fw Desc.read_temp read_temp-IsDesc (handle_read_temp fw) (Route-read_temp fw) no_temp _
        (firmware_call (fw.zigbee.read_temp short_addr ep k_rpc_timeout_ms)) (to_wire short_addr ep)
        c e s rest more refl refl
        (rw (
          from_le16-to_le16 short_addr small,
          from_le32_s-to_le32_s _ err_fits,
          from_le16_s-to_le16_s _ now,
          from_le16_s-to_le16_s _ low,
          from_le16_s-to_le16_s _ high,
          from_le16_s-to_le16_s _ slack,
        ))
        (rw (from_le16-to_le16 short_addr small)) linked
