-- ===== src/Tests/Serving.antt =====
-- The server on concrete connections.
use mathlib.Core.WellFounded.{Acc}
use zigbee_remote.Prelude.{
  ℕ, zero, suc, ◌-◌, ◌+◌, ◌<◌, ◌≤◌, ◌≡◌, refl, true, false, some, List, [], ◌∷◌, ◌++◌, arith, inr,
}
use zigbee_remote.Prelude.Int.{pos, negsuc}
use zigbee_remote.Prelude.WellFounded.{lt_wf}
use zigbee_remote.Fd.Stream.{stream, incoming}
use zigbee_remote.Protocol.ApiId
use zigbee_remote.Protocol.Codes.{bad_magic, payload_mismatch, unknown_api}
use zigbee_remote.Protocol.Endian.{to_le16, to_le32, from_le32}
use zigbee_remote.Protocol.Payloads.{FindSensorReq, u8_resp, find_sensor_req}
use zigbee_remote.Protocol.Desc
use zigbee_remote.Protocol.Desc.{find_sensor-IsDesc, get_channel-IsDesc, read_temp-IsDesc}
use zigbee_remote.Engine.{Engine, WireHeader, header_bytes, frame_header}
use zigbee_remote.Engine.Send.{message, error_message}
use zigbee_remote.Engine.Rpc.{call}
use zigbee_remote.Engine.Exchange.{Exchanged}
use zigbee_remote.Server.Handlers.{
  Firmware, Server, Peek, still_there, client_connected, annce_loop, k_annce_timeout_ms, slice_of,
  slice_shrinks, handle_find_sensor, handle_get_channel, handle_wait_annce,
}
use zigbee_remote.Server.Dispatch.{dispatch}
use zigbee_remote.Server.Serve.{serve_frame, serve_client}
use zigbee_remote.Server.Routes.{Route-find_sensor, Route-get_channel}
use zigbee_remote.Server.Catalog.{Catalog, dispatch-Catalog}
use zigbee_remote.Server.Unknown.{dispatch_unknown}
use zigbee_remote.Server.Rounds.{polled, attached}
use zigbee_remote.Server.Remote.{call-serve_frame}
use zigbee_remote.Server.Errors.{wrong_magic, serve_frame-Malformed, serve_frame_mismatch}
use zigbee_remote.Server.Termination.{serve_client_ends}
use zigbee_remote.Server.Task.{
  Accepted, accepted, ListenAnswers, Stands, server_task, server_task-Stands,
}
use zigbee_remote.Server.Session.{Session, served, ended, serve_client-Session}
use zigbee_remote.Server.Annce.{
  IsTimely, IsPatient, handle_wait_annce_bound, handle_wait_annce_window, annce_next, annce_done,
}
use zigbee_remote.Tests.Fixture.{toy, at_start, fd_of, engine_of}

abbrev wanted : FindSensorReq
wanted = record { short_addr = to_le16 0x4F2A }

abbrev request : List ℕ
request = message find_sensor_req ApiId.find_sensor wanted

abbrev response : List ℕ
response =
    message Desc.find_sensor.resp ApiId.find_sensor (handle_find_sensor toy wanted at_start).0

call-serve_frame_example :
    (client' e' : Engine) × (call Desc.find_sensor wanted (engine_of (response ++ []))
      ≡ (some (handle_find_sensor toy wanted at_start).0, client'))
    × (serve_frame toy (engine_of (request ++ [])) at_start
        ≡ (true, e', (handle_find_sensor toy wanted at_start).1))
    × Exchanged (engine_of (response ++ [])) client' [] request
    × Exchanged (engine_of (request ++ [])) e' [] response
unfolding stream to_le32
call-serve_frame_example =
    call-serve_frame toy Desc.find_sensor find_sensor-IsDesc (handle_find_sensor toy)
      (Route-find_sensor toy) wanted (engine_of (response ++ [])) (engine_of (request ++ []))
      at_start [] [] refl refl tt tt refl refl

-- Two requests on one connection.
abbrev both : List ℕ
both = message Desc.get_channel.req ApiId.get_channel (record {}) ++ (request ++ [])

abbrev channel : List ℕ
channel = message u8_resp ApiId.get_channel (record { value = 15 })

abbrev found_state : Server ℕ
found_state = record { s_client_fd = pos 4; world = 103 }

Session-of_two :
    Session toy (attached toy 4 at_start) both (channel ++ (response ++ [])) found_state
unfolding handle_get_channel handle_find_sensor
Session-of_two =
    served Desc.get_channel (handle_get_channel toy) (record {}) get_channel-IsDesc
      (Route-get_channel toy) refl refl refl
      (served Desc.find_sensor (handle_find_sensor toy) wanted find_sensor-IsDesc
        (Route-find_sensor toy) refl refl refl ended)

serve_client-Session_example :
    (e' : Engine) × (serve_client toy 4 (fd_of both) at_start
      ≡ some (e', record (polled toy found_state) { s_client_fd = negsuc 0 }))
    × (e'.fd.sent ≡ [] ++ (channel ++ (response ++ [])))
unfolding stream to_le32 to_le16
serve_client-Session_example =
    serve_client-Session toy 4 (fd_of both) at_start found_state both (channel ++ (response ++ []))
      Session-of_two refl tt

serve_client_ends_example :
    (r : Engine × Server ℕ) × (serve_client toy 4 (fd_of both) at_start ≡ some r)
    × (r.1.s_client_fd ≡ negsuc 0)
serve_client_ends_example = serve_client_ends toy 4 (fd_of both) at_start

dispatch-Catalog_example : Catalog toy 7 (engine_of both) at_start
dispatch-Catalog_example = dispatch-Catalog toy 7 (engine_of both) at_start

abbrev payload : List ℕ
payload = 1 ∷ 2 ∷ 3 ∷ []

dispatch_unknown_example :
    (e' : Engine) × (dispatch toy
        (record { id = 14; size = 3 })
        (engine_of (payload ++ request))
        at_start
      ≡ (false, e', at_start))
    × (incoming e'.fd ≡ request)
    × (e'.fd.sent ≡ [] ++ error_message unknown_api)
unfolding stream to_le32 to_le16
dispatch_unknown_example =
    dispatch_unknown toy (record { id = 14; size = 3 }) (engine_of (payload ++ request)) at_start
      payload request (inr (omega arith)) refl refl tt

abbrev bad_header : WireHeader
bad_header = record { magic = to_le32 1; id = to_le32 3; size = to_le32 0 }

serve_frame-Malformed_example :
    (e' : Engine) × (serve_frame toy (engine_of (header_bytes bad_header ++ request)) at_start
      ≡ (false, e', at_start))
    × (incoming e'.fd ≡ request)
    × (e'.fd.sent ≡ [] ++ error_message bad_magic)
unfolding stream to_le32 to_le16 from_le32
serve_frame-Malformed_example =
    serve_frame-Malformed toy bad_header bad_magic (engine_of (header_bytes bad_header ++ request))
      at_start request (wrong_magic (λ e. absurd (omega arith))) refl tt

serve_frame_mismatch_example :
    (e' : Engine) × (serve_frame toy
        (engine_of (frame_header ApiId.find_sensor 3 ++ payload))
        at_start
      ≡ (false, e', at_start))
    × (incoming e'.fd ≡ payload)
    × (e'.fd.sent ≡ [] ++ error_message payload_mismatch)
unfolding stream to_le32
serve_frame_mismatch_example =
    serve_frame_mismatch toy Desc.find_sensor find_sensor-IsDesc (handle_find_sensor toy)
      (Route-find_sensor toy) 3 (engine_of (frame_header ApiId.find_sensor 3 ++ payload)) at_start
      payload (omega arith) (λ e. absurd (omega arith)) refl tt

-- The same firmware over a client that has closed.
abbrev deserted : Firmware ℕ
deserted = record {
  zigbee = toy.zigbee;
  ppp_uart_is_connected = λ w. (true, w);
  peek = λ w. (Peek.shut, w);
}

abbrev toy_clock : ℕ → ℕ
toy_clock w = w

toy-IsTimely : IsTimely toy toy_clock
toy-IsTimely = record { wait = λ t w. omega arith; link = λ w. refl; peek = λ w. refl }

handle_wait_annce_bound_example :
    toy_clock (handle_wait_annce toy (record {}) found_state).1.world ≤ 103 + k_annce_timeout_ms
handle_wait_annce_bound_example = handle_wait_annce_bound toy toy_clock toy-IsTimely found_state

toy-IsPatient : IsPatient toy toy_clock toy-IsTimely
toy-IsPatient = record { up = λ w. refl; stays = λ w. refl; whole = λ t w e. refl }

-- Nobody announces itself to this firmware.
annce_none :
    (remaining : ℕ) (w : Acc ◌<◌ remaining) (n : ℕ) (clock : ℕ)
    → (annce_loop toy remaining w (record { s_client_fd = pos n; world = clock })).0 ≡ 0
unfolding still_there client_connected
annce_none zero (Acc.intro _ smaller) n clock = rw (annce_done toy smaller _) refl
annce_none (suc k) (Acc.intro _ smaller) n clock =
    let s : Server ℕ = record { s_client_fd = pos n; world = clock } in
    let more : 0 < suc k = omega arith in
    rw (annce_next toy (suc k) smaller s more refl refl) (
      annce_none (suc k - slice_of (suc k)) (smaller _ (slice_shrinks (suc k) more)) n
        (clock + slice_of (suc k)))

handle_wait_annce_window_example :
    toy_clock (handle_wait_annce toy (record {}) found_state).1.world ≡ 103 + k_annce_timeout_ms
handle_wait_annce_window_example =
    handle_wait_annce_window toy toy_clock toy-IsTimely toy-IsPatient found_state refl
      (annce_none k_annce_timeout_ms (lt_wf.apply k_annce_timeout_ms) 4 103)

-- The first round cannot bind; the second serves a client that asks for a sensor, and then times out.
abbrev rounds : List (ListenAnswers × List Accepted)
rounds =
    (record { made = some 3; bound = false; listening = true }, [])
    ∷ (
      record { made = some 3; bound = true; listening = true },
      accepted 4 (fd_of (request ++ [])) ∷ Accepted.again ∷ [],
    )
    ∷ []

server_task-Stands_example : Stands toy (server_task toy rounds (7 ∷ []) at_start) (7 ∷ [])
server_task-Stands_example = server_task-Stands toy rounds (7 ∷ []) at_start refl
