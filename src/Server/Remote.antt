-- ===== src/Server/Remote.antt =====
-- One remote call, both ends together.
use zigbee_remote.Prelude.{ℕ, ◌≡◌, sym, ap, ◌∙◌, true, some, List, ◌++◌, append_assoc}
use zigbee_remote.Fd.Stream.{incoming}
use zigbee_remote.Fd.Output.{IsOpen}
use zigbee_remote.Protocol.Desc.{RpcDesc, IsDesc}
use zigbee_remote.Engine.{Engine, FrameHeader, frame_header, receive_header}
use zigbee_remote.Engine.Receive.{receive_header_frame}
use zigbee_remote.Engine.Send.{message}
use zigbee_remote.Engine.Rpc.{call}
use zigbee_remote.Engine.Exchange.{request_header, Exchanged, invoke_one_answers, call_returns}
use zigbee_remote.Server.Handlers.{Firmware, Server}
use zigbee_remote.Server.Dispatch.{dispatch}
use zigbee_remote.Server.Routes.{settled, Route}
use zigbee_remote.Server.Serve.{serve_frame}
use mathlib.Core.Path.{subst}

module _ {W : Type 0} (fw : Firmware W) where
  pub serve_frame_header :
      (e : Engine) (s : Server W) (h : FrameHeader)
      → (receive_header e).0 ≡ some h
      → serve_frame fw e s ≡ dispatch fw h (receive_header e).1 s
  unfolding serve_frame
  serve_frame_header e s h eq = rw (eq, serve_frame)

  module _ {Req Resp : Type 0} (desc : RpcDesc Req Resp) (valid : IsDesc desc)
      (function : Req → Server W → Resp × Server W) (route : Route fw desc function) where
    -- A served request: the handler runs once, on the request that was sent; the response is its
    -- result; the input is left at the next frame, and the connection is kept.
    pub serve_frame_answers :
        (r : Req) (e : Engine) (s : Server W) (rest : List ℕ)
        → desc.req.fits r ≡ true
        → desc.resp.fits (function r s).0 ≡ true
        → IsOpen e.fd.grants
        → incoming e.fd ≡ message desc.req desc.id r ++ rest
        → (e' : Engine) × (serve_frame fw e s ≡ (true, e', (function r s).1))
          × Exchanged e e' rest (message desc.resp desc.id (function r s).0)
    serve_frame_answers r e s rest fit_req fit_resp writable h =
        let (header, took) =
          receive_header_frame e desc.id desc.req.size (desc.req.encode r ++ rest)
            (h ∙ append_assoc (frame_header desc.id desc.req.size) _ rest) valid.id_fits
            valid.req_safe.size_limit in
        let e1 = (receive_header e).1 in
        let (e', answered, swapped) =
          invoke_one_answers desc valid function r e1 s rest fit_req fit_resp took.no_error
            (subst IsOpen (sym took.grants) writable) took.left in
        (
          e',
          serve_frame_header e s (request_header desc) header
              ∙ route desc.req.size e1 s
              ∙ ap settled answered,
          record {
            left = swapped.left;
            sent =
                swapped.sent
                ∙ ap (λ (l : List ℕ). l ++ message desc.resp desc.id (function r s).0) took.sent;
            still_open = swapped.still_open;
            no_error = swapped.no_error;
          },
        )

    -- For a valid call whose frames reach a handler, `call` on the client returns exactly what the
    -- handler returns for the client's request in the server's state, and the server goes on in
    -- the handler's state, keeping the connection; each end has written one message and is left at
    -- the start of the next one. The request and the response must be next in the two inputs, in
    -- whatever pieces they arrive, and no write may fail.
    pub call-serve_frame :
        (r : Req) (client e : Engine) (s : Server W) (rest more : List ℕ)
        → desc.req.fits r ≡ true
        → desc.resp.fits (function r s).0 ≡ true
        → IsOpen client.fd.grants
        → IsOpen e.fd.grants
        → incoming e.fd ≡ message desc.req desc.id r ++ rest
        → incoming client.fd ≡ message desc.resp desc.id (function r s).0 ++ more
        → (client' e' : Engine) × (call desc r client ≡ (some (function r s).0, client'))
          × (serve_frame fw e s ≡ (true, e', (function r s).1))
          × Exchanged client client' more (message desc.req desc.id r)
          × Exchanged e e' rest (message desc.resp desc.id (function r s).0)
    call-serve_frame r client e s rest more fit_req fit_resp client_open server_open up down =
        let (client', called, swapped) =
          call_returns desc valid r (function r s).0 client more fit_req fit_resp client_open
            down in
        let (e', served, swapped') =
          serve_frame_answers r e s rest fit_req fit_resp server_open up in
        (client', e', called, served, swapped, swapped')
