-- ===== src/Engine/Exchange.antt =====
-- The two halves of one remote call: what `invoke_one` does with a request, and what `call` makes
-- of the response.
use mathlib.Core.Path.{subst}
use zigbee_remote.Prelude.{
  ℕ, ◌≡◌, sym, ap, ◌∙◌, true, false, some, List, ◌++◌, append_assoc, arith, ◌==◌,
}
use zigbee_remote.Fd.Stream.{stream, incoming}
use zigbee_remote.Fd.Output.{IsOpen}
use zigbee_remote.Protocol.ApiId
use zigbee_remote.Protocol.Codes.{ErrorCode}
use zigbee_remote.Protocol.Desc.{RpcDesc, IsDesc}
use zigbee_remote.Engine.{Engine, FrameHeader, frame_header, receive_header, receive_payload, send}
use zigbee_remote.Engine.Receive.{receive_header_frame, receive_payload_frame}
use zigbee_remote.Engine.Send.{message, send_open}
use zigbee_remote.Engine.Rpc.{
  no_match, handled, receive_reply, receive_response, call, answer, invoke_one,
}

pair_eq : {A B : Type 0} (p : A × B) (a : A) → p.0 ≡ a → p ≡ (a, p.1)
pair_eq p a e = λ i. (e i, p.1)

module _ {Req Resp : Type 0} (desc : RpcDesc Req Resp) where
  -- The headers that announce a request and a response.
  abbrev pub request_header : FrameHeader
  request_header = record { id = desc.id; size = desc.req.size }

  abbrev pub response_header : FrameHeader
  response_header = record { id = desc.id; size = desc.resp.size }

  invoke_one_read :
      {W : Type 0} (function : Req → W → Resp × W) (r : Req) (e : Engine) (w : W)
      → (receive_payload desc.req request_header e).0 ≡ some r
      → invoke_one desc function request_header e w
        ≡ answer desc function r (receive_payload desc.req request_header e).1 w
  unfolding invoke_one
  invoke_one_read function r e w h = ground arith

  pub invoke_one_other :
      {W : Type 0} (function : Req → W → Resp × W) (h : FrameHeader) (e : Engine) (w : W)
      → (h.id == desc.id) ≡ false
      → invoke_one desc function h e w ≡ (no_match, e, w)
  unfolding invoke_one
  invoke_one_other function h e w other = ground arith

  answer_sent :
      {W : Type 0} (function : Req → W → Resp × W) (r : Req) (e : Engine) (w : W)
      → (send desc.resp desc.id (function r w).0 e).0 ≡ true
      → answer desc function r e w
        ≡ (handled, (send desc.resp desc.id (function r w).0 e).1, (function r w).1)
  unfolding answer
  answer_sent function r e w h = ground arith

  receive_reply_match :
      (e : Engine)
      → (desc.id == ApiId.error) ≡ false
      → receive_reply desc response_header e ≡ receive_payload desc.resp response_header e
  unfolding receive_reply
  receive_reply_match e h = ground arith

  pub receive_response-some :
      (e : Engine) (h : FrameHeader)
      → (receive_header e).0 ≡ some h
      → receive_response desc e ≡ receive_reply desc h (receive_header e).1
  unfolding receive_response
  receive_response-some e h eq = ground arith

  pub call_sent :
      (r : Req) (e : Engine)
      → (send desc.req desc.id r e).0 ≡ true
      → call desc r e ≡ receive_response desc (send desc.req desc.id r e).1
  unfolding call
  call_sent r e h = ground arith

-- `e'` is `e` after one message taken from the input and one put into the output.
pub record Exchanged (e e' : Engine) (rest bytes : List ℕ) : Type 0 where
  pub left : incoming e'.fd ≡ rest
  pub sent : e'.fd.sent ≡ e.fd.sent ++ bytes
  pub still_open : IsOpen e'.fd.grants
  pub no_error : e'.last_error ≡ ErrorCode.none

module _ {Req Resp : Type 0} (desc : RpcDesc Req Resp) (valid : IsDesc desc) where
  -- Where the request of a valid call is next in the input, no error is recorded and no write
  -- fails, `invoke_one` runs its handler once on that request, appends its response to the output
  -- and leaves the input behind the request.
  pub invoke_one_answers :
      {W : Type 0} (function : Req → W → Resp × W) (r : Req) (e : Engine) (w : W) (rest : List ℕ)
      → desc.req.fits r ≡ true
      → desc.resp.fits (function r w).0 ≡ true
      → e.last_error ≡ ErrorCode.none
      → IsOpen e.fd.grants
      → incoming e.fd ≡ desc.req.encode r ++ rest
      → (e' : Engine) × (invoke_one desc function (request_header desc) e w
          ≡ (handled, e', (function r w).1))
        × Exchanged e e' rest (message desc.resp desc.id (function r w).0)
  invoke_one_answers function r e w rest fit_req fit_resp clean writable h =
      let (got, took) =
        receive_payload_frame desc.req valid.req_safe e desc.id r rest fit_req clean h in
      let e1 = (receive_payload desc.req (request_header desc) e).1 in
      let x = (function r w).0 in
      let still = subst IsOpen (sym took.grants) writable in
      let (done, wrote) = send_open desc.resp valid.resp_safe desc.id x e1 fit_resp still in
      (
        (send desc.resp desc.id x e1).1,
        invoke_one_read desc function r e w got ∙ answer_sent desc function r e1 w done,
        record {
          left = ap stream wrote.arrivals ∙ took.left;
          sent = wrote.sent ∙ ap (λ (l : List ℕ). l ++ message desc.resp desc.id x) took.sent;
          still_open = wrote.still_open;
          no_error = wrote.last_error ∙ took.no_error;
        },
      )

  -- Where the response of a valid call is next in the input and no write fails, `call` returns
  -- that response, having appended exactly the request to the output, and leaves the input behind
  -- the response.
  pub call_returns :
      (r : Req) (x : Resp) (e : Engine) (rest : List ℕ)
      → desc.req.fits r ≡ true
      → desc.resp.fits x ≡ true
      → IsOpen e.fd.grants
      → incoming e.fd ≡ message desc.resp desc.id x ++ rest
      → (e' : Engine) × (call desc r e ≡ (some x, e'))
        × Exchanged e e' rest (message desc.req desc.id r)
  call_returns r x e rest fit_req fit_resp writable h =
      let (done, wrote) = send_open desc.req valid.req_safe desc.id r e fit_req writable in
      let e1 = (send desc.req desc.id r e).1 in
      let h1 =
        ap stream wrote.arrivals ∙ h ∙ append_assoc (frame_header desc.id desc.resp.size) _ rest in
      let (header, took) =
        receive_header_frame e1 desc.id desc.resp.size (desc.resp.encode x ++ rest) h1 valid.id_fits
          valid.resp_safe.size_limit in
      let e2 = (receive_header e1).1 in
      let (got, took') =
        receive_payload_frame desc.resp valid.resp_safe e2 desc.id x rest fit_resp took.no_error
          took.left in
      let e3 = (receive_payload desc.resp (response_header desc) e2).1 in
      (
        e3,
        call_sent desc r e done
            ∙ receive_response-some desc e1 (response_header desc) header
            ∙ receive_reply_match desc e2 valid.not_error
            ∙ pair_eq _ (some x) got,
        record {
          left = took'.left;
          sent = took'.sent ∙ took.sent ∙ wrote.sent;
          still_open = subst IsOpen (sym (took'.grants ∙ took.grants)) wrote.still_open;
          no_error = took'.no_error;
        },
      )
