-- ===== src/Simulator/Serve.antt =====
-- The dispatch over a namespace of handlers (zb_rpc/include/zb_rpc/auto_rpc.hpp) and the server's
-- commands (zb_rpc/src/server.cpp). The namespace that reflection lists is a list of members.
use zigbee_remote.Prelude.{Bool, true, false, none, some, List, [], ◌∷◌, ◌==◌, if◌then◌else◌}
use zigbee_remote.Protocol.ApiId
use zigbee_remote.Protocol.Codes.{unknown_api}
use zigbee_remote.Protocol.Desc
use zigbee_remote.Protocol.Desc.{RpcDesc}
use zigbee_remote.Engine.{
  Engine, FrameHeader, receive_header, receive_payload, send_error, discard_payload,
}
use zigbee_remote.Engine.Rpc.{no_match, handled, failed, Outcome, answer, report_error}
use zigbee_remote.Simulator.{
  Sim, get_short_addr, get_panid, get_channel, open_network, wait_annce, find_sensor, read_basic,
  bind_sensor, subscribe_sensor, config_report, read_temp, get_last_temp,
}

-- A handler of a namespace: `fn_desc` gives its call.
pub data Member (W : Type 0) : Type 1 where
  member : {Req Resp : Type 0} → RpcDesc Req Resp → (Req → W → Resp × W) → Member W

module _ {W : Type 0} where
  -- The first member whose call the frame names.
  unfoldable pub dispatch_ns : List (Member W) → FrameHeader → Engine → W → Outcome W
  dispatch_ns [] header e w = (no_match, e, w)
  dispatch_ns (member desc function ∷ rest) header e w =
      let next = dispatch_ns rest header e w in
      if header.id == desc.id
      then (let (request, e') = receive_payload desc.req header e in
          elim request [
            | none ↦ (failed, report_error e', w)
            | some r ↦ answer desc function r e' w
          ])
      else next

  -- `handle_commands` behind the header, over any namespace; `false` ends the connection.
  unfoldable pub handle_command : List (Member W) → FrameHeader → Engine → W → Bool × Engine × W
  unfolding dispatch_ns
  handle_command members header e w =
      if header.id == ApiId.error
      then (false, e, w)
      else let (result, e', w') = dispatch_ns members header e w in
        elim result [
          | no_match ↦
              let (done, e2) = discard_payload header.size e' in
              elim done [
                | false ↦ (false, e2, w')
                | true ↦ (false, (send_error unknown_api e2).1, w')
              ]
          | handled ↦ (true, e', w')
          | failed ↦ (false, e', w')
        ]

  unfoldable pub handle_commands : List (Member W) → Engine → W → Bool × Engine × W
  unfolding handle_command
  handle_commands members e w =
      let (header, e') = receive_header e in
      elim header [ none ↦ (false, report_error e', w) | some h ↦ handle_command members h e' w ]

-- `namespace sim`, in the order of its declarations.
abbrev pub sim : List (Member Sim)
sim =
    member Desc.get_short_addr get_short_addr
    ∷ member Desc.get_panid get_panid
    ∷ member Desc.get_channel get_channel
    ∷ member Desc.open_network open_network
    ∷ member Desc.wait_annce wait_annce
    ∷ member Desc.find_sensor find_sensor
    ∷ member Desc.read_basic read_basic
    ∷ member Desc.bind_sensor bind_sensor
    ∷ member Desc.subscribe_sensor subscribe_sensor
    ∷ member Desc.config_report config_report
    ∷ member Desc.read_temp read_temp
    ∷ member Desc.get_last_temp get_last_temp
    ∷ []
