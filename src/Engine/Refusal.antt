-- ===== src/Engine/Refusal.antt =====
-- `call` of zb_rpc_shared/include/zb_rpc/engine.hpp on what is no response to its request.
use zigbee_remote.Prelude.{
  ℕ, ◌^◌, ◌≤◌, ◌<◌, ◌≡◌, ◌≢◌, refl, sym, ap, ◌∙◌, true, none, List, ◌++◌, arith, length,
  length-append, drop, drop-append_at,
}
use zigbee_remote.Fd.Stream.{stream, incoming}
use zigbee_remote.Fd.Output.{IsOpen}
use zigbee_remote.Protocol.Endian.{to_le32}
use zigbee_remote.Protocol.ApiId
use zigbee_remote.Protocol.Codes.{ErrorCode, code_value}
use zigbee_remote.Protocol.Payloads.{error_resp}
use zigbee_remote.Protocol.WireSafe.{error_resp-IsWireSafe}
use zigbee_remote.Protocol.Desc.{RpcDesc, IsDesc}
use zigbee_remote.Engine.{
  Engine, FrameHeader, frame_header, receive_header, receive_payload, discard_payload, send,
}
use zigbee_remote.Engine.Discard.{discard_payload-Skipped}
use zigbee_remote.Engine.Receive.{receive_header_frame, receive_payload_frame}
use zigbee_remote.Engine.Send.{error_message, send_open}
use zigbee_remote.Engine.Rpc.{receive_reply, call}
use zigbee_remote.Engine.Exchange.{call_sent, receive_response-some}

module _ {Req Resp : Type 0} (desc : RpcDesc Req Resp) where
  receive_reply-error :
      (size : ℕ) (e : Engine)
      → receive_reply desc (record { id = ApiId.error; size = size }) e
        ≡ (none, (receive_payload error_resp (record { id = ApiId.error; size = size }) e).1)
  unfolding receive_reply
  receive_reply-error size e = refl

  receive_reply_other :
      (h : FrameHeader) (e : Engine)
      → h.id ≢ ApiId.error
      → h.id ≢ desc.id
      → receive_reply desc h e ≡ (none, (discard_payload h.size e).1)
  unfolding receive_reply
  receive_reply_other h e no_error other = ground arith

  -- Where an error frame comes in place of the response of a valid call, and no write fails,
  -- `call` returns nothing and leaves the input behind the error frame.
  pub call_error :
      (r : Req) (code : ErrorCode) (e : Engine) (more : List ℕ)
      → IsDesc desc
      → desc.req.fits r ≡ true
      → IsOpen e.fd.grants
      → incoming e.fd ≡ error_message code ++ more
      → ((call desc r e).0 ≡ none) × (incoming (call desc r e).1.fd ≡ more)
  call_error r code e more valid fit writable h =
      let (done, wrote) = send_open desc.req valid.req_safe desc.id r e fit writable in
      let e1 = (send desc.req desc.id r e).1 in
      let (header, took) =
        receive_header_frame e1 ApiId.error 4
          (error_resp.encode (record { code = to_le32 (code_value code) }) ++ more)
          (ap stream wrote.arrivals ∙ h) (omega arith) (omega arith) in
      let e2 = (receive_header e1).1 in
      let (_, took') =
        receive_payload_frame error_resp error_resp-IsWireSafe e2 ApiId.error
          (record { code = to_le32 (code_value code) }) more refl took.no_error took.left in
      rw
        (call_sent desc r e done
          ∙ receive_response-some desc e1 (record { id = ApiId.error; size = 4 }) header
          ∙ receive_reply-error 4 e2)
        (refl, took'.left)

  -- Where a frame of another call, with a size of 64 at most and its whole payload, comes in place
  -- of the response of a valid call, and no write fails, `call` returns nothing and skips exactly
  -- that frame.
  pub call_other :
      (r : Req) (h : FrameHeader) (e : Engine) (payload more : List ℕ)
      → IsDesc desc
      → desc.req.fits r ≡ true
      → IsOpen e.fd.grants
      → h.id < 2 ^ 32
      → h.id ≢ ApiId.error
      → h.id ≢ desc.id
      → h.size ≤ 64
      → length payload ≡ h.size
      → incoming e.fd ≡ frame_header h.id h.size ++ (payload ++ more)
      → ((call desc r e).0 ≡ none) × (incoming (call desc r e).1.fd ≡ more)
  call_other r h e payload more valid fit writable id_fits no_error other small size here =
      let (done, wrote) = send_open desc.req valid.req_safe desc.id r e fit writable in
      let e1 = (send desc.req desc.id r e).1 in
      let (header, took) =
        receive_header_frame e1 h.id h.size (payload ++ more) (ap stream wrote.arrivals ∙ here)
          id_fits small in
      let e2 = (receive_header e1).1 in
      let ((_, _, enough, _), _) = discard_payload-Skipped h.size e2 in
      let there = ap length took.left ∙ length-append payload more in
      let (_, left) = enough (omega (arith, there)) in
      rw
        (call_sent desc r e done
          ∙ receive_response-some desc e1 h header
          ∙ receive_reply_other h e2 no_error other)
        (refl, left ∙ ap (drop h.size) took.left ∙ drop-append_at h.size payload more (sym size))
