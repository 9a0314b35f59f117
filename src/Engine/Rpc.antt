-- ===== src/Engine/Rpc.antt =====
-- `call`, `invoke_one` and `invoke_result` of zb_rpc_shared/include/zb_rpc/engine.hpp, and the
-- fold-based `dispatch` of zb_rpc/include/zb_rpc/dispatch.hpp.
use zigbee_remote.Prelude.{
  Bool, true, false, Option, none, some, List, [], ◌∷◌, ◌==◌, if◌then◌else◌,
}
use zigbee_remote.Protocol.ApiId
use zigbee_remote.Protocol.Codes.{
  ErrorCode, bad_magic, oversized_payload, unknown_api, payload_mismatch,
}
use zigbee_remote.Protocol.Payloads.{error_resp}
use zigbee_remote.Protocol.Desc.{RpcDesc}
use zigbee_remote.Engine.{
  Engine, FrameHeader, receive_header, receive_payload, send, send_empty, send_error,
  discard_payload,
}

module _ {Req Resp : Type 0} (desc : RpcDesc Req Resp) where
  -- What `call` does with a header that it received.
  unfoldable pub receive_reply : FrameHeader → Engine → Option Resp × Engine
  receive_reply header e =
      if header.id == ApiId.error
      then (none, (receive_payload error_resp header e).1)
      else if header.id == desc.id
      then receive_payload desc.resp header e
      else (none, (discard_payload header.size e).1)

  unfoldable pub receive_response : Engine → Option Resp × Engine
  unfolding receive_reply
  receive_response e =
      let (header, e') = receive_header e in
      elim header [ none ↦ (none, e') | some h ↦ receive_reply h e' ]

  -- The two overloads of `call`: without and with a request. `none` where the source returns false.
  unfoldable pub call_empty : Engine → Option Resp × Engine
  unfolding receive_response
  call_empty e =
      let (done, e') = send_empty desc.id e in if done then receive_response e' else (none, e')

  unfoldable pub call : Req → Engine → Option Resp × Engine
  unfolding receive_response
  call request e =
      let (done, e') = send desc.req desc.id request e in
      if done then receive_response e' else (none, e')

pub data InvokeResult : Type 0 where
  no_match handled failed : InvokeResult

abbrev pub is_no_error : ErrorCode → Bool
is_no_error ErrorCode.none = true
is_no_error bad_magic = false
is_no_error oversized_payload = false
is_no_error unknown_api = false
is_no_error payload_mismatch = false

-- `if (engine.last_error() != error_code::none) engine.send_error(engine.last_error());`
unfoldable pub report_error : Engine → Engine
report_error e = if is_no_error e.last_error then e else (send_error e.last_error e).1

-- `W` is what the handlers change.
abbrev pub Outcome : Type 0 → Type 0
Outcome W = InvokeResult × Engine × W

-- One handler, offered a frame whose header was read.
abbrev pub Invoke : Type 0 → Type 0
Invoke W = Engine → W → Outcome W

module _ {W : Type 0} where
  module _ {Req Resp : Type 0} (desc : RpcDesc Req Resp) (function : Req → W → Resp × W) where
    -- The handler is run and its response sent.
    unfoldable pub answer : Req → Engine → W → Outcome W
    answer request e w =
        let (response, w') = function request w in
        let (done, e') = send desc.resp desc.id response e in
        (if done then handled else failed, e', w')

    unfoldable pub invoke_one : FrameHeader → Engine → W → Outcome W
    unfolding answer report_error
    invoke_one header e w =
        if header.id == desc.id
        then (let (request, e') = receive_payload desc.req header e in
            elim request [ none ↦ (failed, report_error e', w) | some r ↦ answer r e' w ])
        else (no_match, e, w)

  -- `if (result == invoke_result::no_match) result = next`
  unfoldable pub or_else : Outcome W → Invoke W → Outcome W
  or_else (no_match, e, w) next = next e w
  or_else (handled, e, w) next = (handled, e, w)
  or_else (failed, e, w) next = (failed, e, w)

  -- The fold of dispatch.hpp over its handlers, in their order.
  unfoldable pub dispatch_from : Outcome W → List (Invoke W) → Outcome W
  unfolding or_else
  dispatch_from result [] = result
  dispatch_from result (h ∷ hs) = dispatch_from (or_else result h) hs

  unfoldable pub dispatch : List (Invoke W) → Engine → W → Outcome W
  unfolding dispatch_from
  dispatch handlers e w = dispatch_from (no_match, e, w) handlers
