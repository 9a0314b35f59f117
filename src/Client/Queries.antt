-- ===== src/Client/Queries.antt =====
-- The functions of zb_rpc_client/include/zigbee_api.h against those of the firmware: one served
-- call gives the client what the same call of the firmware gives on the server.
use zigbee_remote.Prelude.{ℕ, ◌^◌, ◌<◌, refl, List}
use zigbee_remote.Prelude.Int.{IsS16, IsS32, pos, negsuc}
use zigbee_remote.Prelude.WellFounded.{lt_wf}
use zigbee_remote.Protocol.Endian.{from_le16-to_le16, from_le16_s-to_le16_s, from_le32_s-to_le32_s}
use zigbee_remote.Protocol.Desc
use zigbee_remote.Protocol.Desc.{
  RpcDesc, get_short_addr-IsDesc, get_panid-IsDesc, get_channel-IsDesc, get_sensor_addr-IsDesc,
  open_network-IsDesc, find_sensor-IsDesc, read_basic-IsDesc, bind_sensor-IsDesc,
  subscribe_sensor-IsDesc, config_report-IsDesc, read_temp-IsDesc, get_last_temp-IsDesc,
  wait_annce-IsDesc,
}
use zigbee_remote.Engine.{Engine}
use zigbee_remote.Server.Handlers.{
  Firmware, Server, firmware_call, handle_get_short_addr, handle_get_panid, handle_get_channel,
  handle_get_sensor_addr, handle_open_network, handle_get_last_temp, handle_wait_annce, annce_loop,
  k_annce_timeout_ms,
}
use zigbee_remote.Server.Routes.{
  Route-get_short_addr, Route-get_panid, Route-get_channel, Route-get_sensor_addr,
  Route-open_network, Route-get_last_temp, Route-wait_annce,
}
use zigbee_remote.Client.{
  Client, k_invalid_short_addr, zigbee_get_short_addr, zigbee_get_panid, zigbee_get_channel,
  zigbee_get_sensor_addr, zigbee_open_network, zigbee_get_last_temp, zigbee_wait_annce,
}
use zigbee_remote.Client.Remote.{OnWire, Calls, remote, remote_empty}

module _ {W : Type 0} (fw : Firmware W) where
  -- `get_short_addr`: the network address that the firmware has.
  pub get_short_addr_remote :
      (c : Client) (e : Engine) (s : Server W) (rest more : List ℕ)
      → (firmware_call fw.zigbee.get_short_addr s).0 < 2 ^ 16
      → OnWire fw Desc.get_short_addr (handle_get_short_addr fw) (record {}) c e s rest more
      → Calls fw Desc.get_short_addr
          (handle_get_short_addr fw)
          (record {})
          zigbee_get_short_addr
          (firmware_call fw.zigbee.get_short_addr)
          c
          e
          s
          rest
          more
  unfolding zigbee_get_short_addr handle_get_short_addr
  get_short_addr_remote c e s rest more small linked =
      remote_empty fw Desc.get_short_addr get_short_addr-IsDesc (handle_get_short_addr fw)
        (Route-get_short_addr fw) 0 _ (firmware_call fw.zigbee.get_short_addr) c e s rest more refl
        refl refl (rw (from_le16-to_le16 _ small)) refl linked

  -- `get_panid`: the PAN identifier that the firmware has.
  pub get_panid_remote :
      (c : Client) (e : Engine) (s : Server W) (rest more : List ℕ)
      → (firmware_call fw.zigbee.get_panid s).0 < 2 ^ 16
      → OnWire fw Desc.get_panid (handle_get_panid fw) (record {}) c e s rest more
      → Calls fw Desc.get_panid
          (handle_get_panid fw)
          (record {})
          zigbee_get_panid
          (firmware_call fw.zigbee.get_panid)
          c
          e
          s
          rest
          more
  unfolding zigbee_get_panid handle_get_panid
  get_panid_remote c e s rest more small linked =
      remote_empty fw Desc.get_panid get_panid-IsDesc (handle_get_panid fw) (Route-get_panid fw) 0 _
        (firmware_call fw.zigbee.get_panid) c e s rest more refl refl refl
        (rw (from_le16-to_le16 _ small)) refl linked

  -- While the server serves the request of an attached client, with writes that succeed and values
  -- in the range of their types, the client's `zigbee_get_sensor_addr` returns the address of the
  -- firmware's `zigbee_get_sensor_addr` on the server, and the server is left in the firmware's
  -- state.
  pub get_sensor_addr_remote :
      (c : Client) (e : Engine) (s : Server W) (rest more : List ℕ)
      → (firmware_call fw.zigbee.get_sensor_addr s).0 < 2 ^ 16
      → OnWire fw Desc.get_sensor_addr (handle_get_sensor_addr fw) (record {}) c e s rest more
      → Calls fw Desc.get_sensor_addr
          (handle_get_sensor_addr fw)
          (record {})
          zigbee_get_sensor_addr
          (firmware_call fw.zigbee.get_sensor_addr)
          c
          e
          s
          rest
          more
  unfolding zigbee_get_sensor_addr handle_get_sensor_addr
  get_sensor_addr_remote c e s rest more small linked =
      remote_empty fw Desc.get_sensor_addr get_sensor_addr-IsDesc (handle_get_sensor_addr fw)
        (Route-get_sensor_addr fw) k_invalid_short_addr _ (firmware_call fw.zigbee.get_sensor_addr)
        c e s rest more refl refl refl (rw (from_le16-to_le16 _ small)) refl linked

  -- `get_channel`: the channel that the firmware is on.
  pub get_channel_remote :
      (c : Client) (e : Engine) (s : Server W) (rest more : List ℕ)
      → OnWire fw Desc.get_channel (handle_get_channel fw) (record {}) c e s rest more
      → Calls fw Desc.get_channel
          (handle_get_channel fw)
          (record {})
          zigbee_get_channel
          (firmware_call fw.zigbee.get_channel)
          c
          e
          s
          rest
          more
  unfolding zigbee_get_channel handle_get_channel
  get_channel_remote c e s rest more linked =
      remote_empty fw Desc.get_channel get_channel-IsDesc (handle_get_channel fw)
        (Route-get_channel fw) 0 _ (firmware_call fw.zigbee.get_channel) c e s rest more refl refl
        refl refl refl linked

  -- While the server serves the request of an attached client, with writes that succeed and values
  -- in the range of their types, the client's `zigbee_get_last_temp` returns the signed
  -- temperature of the firmware's `zigbee_get_last_temp` on the server, and the server is left in
  -- the firmware's state.
  pub get_last_temp_remote :
      (c : Client) (e : Engine) (s : Server W) (rest more : List ℕ)
      → IsS16 (firmware_call fw.zigbee.get_last_temp s).0
      → OnWire fw Desc.get_last_temp (handle_get_last_temp fw) (record {}) c e s rest more
      → Calls fw Desc.get_last_temp
          (handle_get_last_temp fw)
          (record {})
          zigbee_get_last_temp
          (firmware_call fw.zigbee.get_last_temp)
          c
          e
          s
          rest
          more
  unfolding zigbee_get_last_temp handle_get_last_temp
  get_last_temp_remote c e s rest more fits linked =
      remote_empty fw Desc.get_last_temp get_last_temp-IsDesc (handle_get_last_temp fw)
        (Route-get_last_temp fw) (pos 0) _ (firmware_call fw.zigbee.get_last_temp) c e s rest more
        refl refl refl (rw (from_le16_s-to_le16_s _ fits)) refl linked

  -- While the server serves this request of an attached client, on a connection whose writes
  -- succeed, the client's `zigbee_wait_annce` returns the outcome of the server's own three-minute
  -- wait in slices, provided that it fits 16 bits and whatever timeout the client was given; each
  -- end is left at its next message.
  pub wait_annce_remote :
      (timeout_ms : ℕ) (c : Client) (e : Engine) (s : Server W) (rest more : List ℕ)
      → (annce_loop fw k_annce_timeout_ms (lt_wf.apply k_annce_timeout_ms) s).0 < 2 ^ 16
      → OnWire fw Desc.wait_annce (handle_wait_annce fw) (record {}) c e s rest more
      → Calls fw Desc.wait_annce
          (handle_wait_annce fw)
          (record {})
          (zigbee_wait_annce timeout_ms)
          (annce_loop fw k_annce_timeout_ms (lt_wf.apply k_annce_timeout_ms))
          c
          e
          s
          rest
          more
  unfolding zigbee_wait_annce handle_wait_annce
  wait_annce_remote timeout_ms c e s rest more small linked =
      remote_empty fw Desc.wait_annce wait_annce-IsDesc (handle_wait_annce fw) (Route-wait_annce fw)
        0 _ (annce_loop fw k_annce_timeout_ms (lt_wf.apply k_annce_timeout_ms)) c e s rest more refl
        refl refl (rw (from_le16-to_le16 _ small)) refl linked

  -- `open_network`: the status of the firmware's call, whatever its sign.
  pub open_network_remote :
      (duration : ℕ) (c : Client) (e : Engine) (s : Server W) (rest more : List ℕ)
      → IsS32 (firmware_call (fw.zigbee.open_network duration) s).0
      → OnWire fw Desc.open_network
          (handle_open_network fw)
          (record { duration = duration })
          c
          e
          s
          rest
          more
      → Calls fw Desc.open_network
          (handle_open_network fw)
          (record { duration = duration })
          (zigbee_open_network duration)
          (firmware_call (fw.zigbee.open_network duration))
          c
          e
          s
          rest
          more
  unfolding zigbee_open_network handle_open_network
  open_network_remote duration c e s rest more fits linked =
      remote fw Desc.open_network open_network-IsDesc (handle_open_network fw)
        (Route-open_network fw) (negsuc 0) _ (firmware_call (fw.zigbee.open_network duration))
        (record { duration = duration }) c e s rest more refl refl
        (rw (from_le32_s-to_le32_s _ fits)) refl linked
