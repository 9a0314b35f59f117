-- ===== src/Tests/Calling.antt =====
-- The client's functions on concrete connections.
use zigbee_remote.Prelude.{ℕ, refl, [], ◌∷◌, arith}
use zigbee_remote.Fd.Stream.{stream}
use zigbee_remote.Protocol.Endian.{to_le16, to_le32, to_le32_s}
use zigbee_remote.Protocol.Payloads.{ZbAddr, FindSensorReq}
use zigbee_remote.Protocol.Desc
use zigbee_remote.Protocol.Desc.{RpcDesc}
use zigbee_remote.Engine.{Engine}
use zigbee_remote.Engine.Send.{message}
use zigbee_remote.Server.Handlers.{Server, firmware_call, k_rpc_timeout_ms, handle_read_temp}
use zigbee_remote.Client.{Client, attached, to_wire, zigbee_read_temp}
use zigbee_remote.Client.Remote.{Calls}
use zigbee_remote.Client.Sensors.{read_temp_remote}
use zigbee_remote.Client.Failures.{Defaults, api_no_response}
use zigbee_remote.Tests.Fixture.{toy, at_start, engine_of, client_of}

-- Both ends of a connection on which a request and its response are on their way.
module _ {Req Resp : Type 0} (desc : RpcDesc Req Resp) (handler : Req → Server ℕ → Resp × Server ℕ)
    (r : Req) where
  abbrev asking : Client
  asking = client_of (message desc.resp desc.id (handler r at_start).0)

  abbrev answering : Engine
  answering = engine_of (message desc.req desc.id r)

abbrev wanted : FindSensorReq
wanted = record { short_addr = to_le16 0x4F2A }

abbrev sensor : ZbAddr
sensor = record { err = to_le32 0; short_addr = to_le16 0x4F2A; ep = 1 }

read_temp_remote_example :
    Calls toy Desc.read_temp
      (handle_read_temp toy)
      sensor
      (zigbee_read_temp 0x4F2A 1 0)
      (firmware_call (toy.zigbee.read_temp 0x4F2A 1 k_rpc_timeout_ms))
      (asking Desc.read_temp (handle_read_temp toy) sensor)
      (answering Desc.read_temp (handle_read_temp toy) sensor)
      at_start
      []
      []
unfolding stream to_le32 to_le32_s to_le16 attached handle_read_temp to_wire
read_temp_remote_example =
    read_temp_remote toy 0x4F2A 1 0 (asking Desc.read_temp (handle_read_temp toy) sensor)
      (answering Desc.read_temp (handle_read_temp toy) sensor) at_start [] [] (omega arith)
      (omega arith, omega arith, omega arith, omega arith, omega arith)
      (record { is_attached = refl; client_open = tt; server_open = tt; up = refl; down = refl })

api_no_response_example : Defaults (client_of (1 ∷ 2 ∷ [])) 180 0x4F2A 1 15000
unfolding stream
api_no_response_example = api_no_response (client_of (1 ∷ 2 ∷ [])) 180 0x4F2A 1 15000 (omega arith)
