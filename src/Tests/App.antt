-- ===== src/Tests/App.antt =====
-- The commissioning sequence and the program on concrete servers.
use zigbee_remote.Main.Options.{
  Selected, port, verbose, IsSensible, defaults, last_port, parse_options, parse_loop,
  parse_options-accepted,
}
use zigbee_remote.Protocol.Codes.{k_default_port}
use zigbee_remote.Prelude.{◌∷◌, ℕ, ◌≡◌, refl, true, false, none, some, List, [], ◌++◌}
use zigbee_remote.Prelude.Int.{pos, negsuc}
use zigbee_remote.Fd.{Fd, read_all, read_loop, write_all, write_loop}
use zigbee_remote.Protocol.Endian.{
  to_le16, to_le32, to_le16_s, to_le32_s, from_le16, from_le32, from_le16_s, from_le32_s,
}
use zigbee_remote.Protocol.Payloads.{u16_resp, u8_resp, zb_addr}
use zigbee_remote.Protocol.ApiId
use zigbee_remote.Protocol.Desc
use zigbee_remote.Engine.{receive_header, check_header, receive_payload, send, send_empty}
use zigbee_remote.Engine.Rpc.{call, call_empty, receive_response, receive_reply}
use zigbee_remote.Engine.Send.{message}
use zigbee_remote.Zigbee.{ZigbeeApi}
use zigbee_remote.Server.Handlers.{handle_read_temp}
use zigbee_remote.Client.{
  Client, attach, detach, attached, rpc, rpc_empty, to_wire, zigbee_get_panid, zigbee_get_channel,
  zigbee_get_sensor_addr, zigbee_find_sensor, zigbee_read_temp,
}
use zigbee_remote.Thermostat.{
  probe_sensor, try_known, after_probe, read_attrs, run, k_invalid_short_addr,
}
use zigbee_remote.Thermostat.Steps.{IsRead}
use zigbee_remote.Thermostat.Outcome.{run_success}
use zigbee_remote.Main.{Connection, attempts, session, attached_to}
use zigbee_remote.Main.Ends.{HasRead, session_success}
use zigbee_remote.Tests.Fixture.{toy_api, toy, at_start, fd_of}

run_success_example : IsRead toy_api 0 (run toy_api true 0)
unfolding run
run_success_example = run_success toy_api true 0 refl

-- A server without the call for the cached sensor.
abbrev older_api : ZigbeeApi ℕ
older_api = record toy_api { get_sensor_addr = λ w. (k_invalid_short_addr, w) }

abbrev no_client : Client
no_client = record { g_fd = negsuc 0; fd = fd_of [] }

-- The responses of a server whose sensor is cached.
abbrev responses : List ℕ
responses =
    message u16_resp ApiId.get_panid (record { value = to_le16 0x1A62 })
    ++ (message u8_resp ApiId.get_channel (record { value = 15 })
        ++ (message u16_resp ApiId.get_sensor_addr (record { value = to_le16 0x4F2A })
            ++ (message zb_addr ApiId.find_sensor
                  (record { err = to_le32 0; short_addr = to_le16 0x4F2A; ep = 1 })
                ++ message Desc.read_temp.resp ApiId.read_temp
                    (handle_read_temp toy
                      (record { err = to_le32 0; short_addr = to_le16 0x4F2A; ep = 1 })
                      at_start).0)))

abbrev connection : Connection
connection = some (5, fd_of responses)

-- The whole program over that one connection: five calls and their responses.
session_reads : (session false false connection none no_client).0 ≡ true
unfolding session attempts run probe_sensor try_known after_probe read_attrs attach detach attached
    rpc rpc_empty to_wire zigbee_get_panid zigbee_get_channel zigbee_get_sensor_addr
    zigbee_find_sensor zigbee_read_temp call call_empty receive_response receive_reply
    receive_header check_header receive_payload send send_empty read_all read_loop write_all
    write_loop from_le16 from_le32 from_le16_s from_le32_s to_le16 to_le32 to_le16_s to_le32_s
    handle_read_temp
session_reads = refl

session_success_example :
    (socket_fd : ℕ) × (fd : Fd) × (connection ≡ some (socket_fd, fd))
    × HasRead none (attached_to socket_fd fd no_client)
session_success_example = session_success false false connection none no_client session_reads

-- A port that is too large, behind another one.
abbrev port_twice : List Selected
port_twice = port (pos 5000) ∷ verbose ∷ port (pos 65616) ∷ []

parse_options-accepted_example :
    IsSensible (record (defaults [] []) { port = 80; verbose = true })
    × (80 ≡ last_port port_twice k_default_port)
unfolding parse_options parse_loop
parse_options-accepted_example =
    parse_options-accepted [] [] port_twice (record (defaults [] []) { port = 80; verbose = true })
      refl
