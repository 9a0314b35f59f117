-- ===== src/Server/Dispatch.antt =====
-- `dispatch` of zb_rpc_server/main/rpc_server.cpp.
use zigbee_remote.Prelude.{Bool, true, false}
use zigbee_remote.Protocol.Codes.{unknown_api}
use zigbee_remote.Protocol.Desc
use zigbee_remote.Engine.{Engine, FrameHeader, discard_payload, send_error}
use zigbee_remote.Engine.Rpc.{no_match, handled, failed, Outcome, invoke_one, or_else}
use zigbee_remote.Server.Handlers.{
  Firmware, Server, handle_get_short_addr, handle_get_panid, handle_get_channel,
  handle_open_network, handle_wait_annce, handle_find_sensor, handle_read_basic, handle_bind_sensor,
  handle_subscribe_sensor, handle_config_report, handle_read_temp, handle_get_last_temp,
  handle_get_sensor_addr,
}

infixl 20 ◌or◌
abbrev ◌or◌ : {W : Type 0} → Outcome W → (Engine → W → Outcome W) → Outcome W
result or next = or_else result next

module _ {W : Type 0} (fw : Firmware W) where
  -- The chain of `if (result == invoke_result::no_match)`.
  unfoldable pub first_match : FrameHeader → Engine → Server W → Outcome (Server W)
  unfolding or_else
  first_match h e s =
      invoke_one Desc.get_short_addr (handle_get_short_addr fw) h e s
      or invoke_one Desc.get_panid (handle_get_panid fw) h
      or invoke_one Desc.get_channel (handle_get_channel fw) h
      or invoke_one Desc.open_network (handle_open_network fw) h
      or invoke_one Desc.wait_annce (handle_wait_annce fw) h
      or invoke_one Desc.find_sensor (handle_find_sensor fw) h
      or invoke_one Desc.read_basic (handle_read_basic fw) h
      or invoke_one Desc.bind_sensor (handle_bind_sensor fw) h
      or invoke_one Desc.subscribe_sensor (handle_subscribe_sensor fw) h
      or invoke_one Desc.config_report (handle_config_report fw) h
      or invoke_one Desc.read_temp (handle_read_temp fw) h
      or invoke_one Desc.get_last_temp (handle_get_last_temp fw) h
      or invoke_one Desc.get_sensor_addr (handle_get_sensor_addr fw) h

  -- What follows the chain; `true` keeps the connection.
  unfoldable pub finish_dispatch : FrameHeader → Outcome (Server W) → Bool × Engine × Server W
  finish_dispatch h (no_match, e, s) =
      let (done, e') = discard_payload h.size e in
      elim done [ false ↦ (false, e', s) | true ↦ (false, (send_error unknown_api e').1, s) ]
  finish_dispatch h (handled, e, s) = (true, e, s)
  finish_dispatch h (failed, e, s) = (false, e, s)

  unfoldable pub dispatch : FrameHeader → Engine → Server W → Bool × Engine × Server W
  unfolding first_match finish_dispatch
  dispatch h e s = finish_dispatch h (first_match h e s)
