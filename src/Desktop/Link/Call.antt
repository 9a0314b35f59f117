-- ===== src/Desktop/Link/Call.antt =====
-- One call of zb_rpc/src/client.cpp over the link, against the handler that answers it.
use mathlib.Core.Path.{subst}
use zigbee_remote.Prelude.{
  ℕ, ◌≡◌, refl, sym, ap, ◌∙◌, true, false, Option, some, List, [], ◌++◌, append_assoc, drop-append,
  ◌==◌, arith,
}
use zigbee_remote.Fd.Stream.{incoming}
use zigbee_remote.Fd.Output.{IsOpen}
use zigbee_remote.Protocol.ApiId
use zigbee_remote.Protocol.Desc.{RpcDesc, IsDesc}
use zigbee_remote.Engine.{Engine, FrameHeader, frame_header, receive_header}
use zigbee_remote.Engine.Receive.{receive_header_frame}
use zigbee_remote.Engine.Send.{message}
use zigbee_remote.Engine.Rpc.{handled, call, call_empty, invoke_one}
use zigbee_remote.Protocol.Payloads.{EmptyReq}
use zigbee_remote.Client.Returns.{call_empty-call}
use zigbee_remote.Engine.Exchange.{request_header, Exchanged, invoke_one_answers, call_returns}
use zigbee_remote.Pipe.{to_server}
use zigbee_remote.Pipe.Call.{call_unanswered, arriving_all}
use zigbee_remote.Simulator.{Sim}
use zigbee_remote.Simulator.Serve.{sim, dispatch_ns, handle_command, handle_commands}
use zigbee_remote.Desktop.Link.{Link, request_of, over_link}
use zigbee_remote.Desktop.Same.{Same}

-- Between two calls: all that was sent is read, and both ends can write.
pub record IsLinked (k : Link) : Type 0 where
  pub client_open : IsOpen k.client.fd.grants
  pub server_open : IsOpen k.engine.fd.grants
  pub client_read : incoming k.client.fd ≡ []
  pub server_read : incoming k.engine.fd ≡ []

-- Linked ends, and the coordinator's state.
abbrev pub Follows : Link → Sim → Type 0
Follows k s = IsLinked k × (k.world ≡ s)

module _ {Req Resp : Type 0} (desc : RpcDesc Req Resp) (function : Req → Sim → Resp × Sim) where
  -- A request of `desc` reaches its handler.
  abbrev pub Routed : Type 0
  Routed =
      (e : Engine) (s : Sim)
      → dispatch_ns sim (request_header desc) e s
        ≡ invoke_one desc function (request_header desc) e s

  handle_command_answers :
      (e e' : Engine) (s s' : Sim)
      → (desc.id == ApiId.error) ≡ false
      → dispatch_ns sim (request_header desc) e s ≡ (handled, e', s')
      → handle_command sim (request_header desc) e s ≡ (true, e', s')
  unfolding handle_command
  handle_command_answers e e' s s' other h = ground arith

  handle_commands_header :
      (e : Engine) (s : Sim) (h : FrameHeader)
      → (receive_header e).0 ≡ some h
      → handle_commands sim e s ≡ handle_command sim h (receive_header e).1 s
  unfolding handle_commands
  handle_commands_header e s h eq = rw (eq, handle_commands)

  module _ (valid : IsDesc desc) (routed : Routed) where
    handle_commands_answers :
        (r : Req) (e : Engine) (s : Sim) (rest : List ℕ)
        → desc.req.fits r ≡ true
        → desc.resp.fits (function r s).0 ≡ true
        → IsOpen e.fd.grants
        → incoming e.fd ≡ message desc.req desc.id r ++ rest
        → (e' : Engine) × (handle_commands sim e s ≡ (true, e', (function r s).1))
          × Exchanged e e' rest (message desc.resp desc.id (function r s).0)
    handle_commands_answers r e s rest fit_req fit_resp writable h =
        let (header, took) =
          receive_header_frame e desc.id desc.req.size (desc.req.encode r ++ rest)
            (h ∙ append_assoc (frame_header desc.id desc.req.size) _ rest) valid.id_fits
            valid.req_safe.size_limit in
        let e1 = (receive_header e).1 in
        let (e', answered, swapped) =
          invoke_one_answers desc valid function r e1 s rest fit_req fit_resp took.no_error
            (subst IsOpen (sym took.grants) writable) took.left in
        (
          e',
          handle_commands_header e s (request_header desc) header
              ∙ handle_command_answers e1 e' s (function r s).1 valid.not_error
                  (routed e1 s ∙ answered),
          record {
            left = swapped.left;
            sent =
                swapped.sent
                ∙ ap (λ (l : List ℕ). l ++ message desc.resp desc.id (function r s).0) took.sent;
            still_open = swapped.still_open;
            no_error = swapped.no_error;
          },
        )

    request_of-call :
        (r : Req) (e : Engine)
        → desc.req.fits r ≡ true
        → IsOpen e.fd.grants
        → request_of (call desc r) e ≡ message desc.req desc.id r
    unfolding request_of
    request_of-call r e fits writable =
        rw
          (call_unanswered desc valid r (record e { fd = record e.fd { arrivals = [] } }) fits
            writable refl)
          (drop-append e.fd.sent (message desc.req desc.id r))

    over_link_step :
        (r : Req) (k : Link) (request response : List ℕ) (e : Engine) (s : Sim) (x : Resp)
        (c : Engine)
        → request_of (call desc r) k.client ≡ request
        → handle_commands sim (to_server request k.engine) k.world ≡ (true, e, s)
        → e.fd.sent ≡ k.engine.fd.sent ++ response
        → call desc r (to_server response k.client) ≡ (some x, c)
        → over_link (call desc r) k ≡ (some x, record { client = c; engine = e; world = s })
    unfolding over_link
    over_link_step r k request response e s x c asked served sent returned =
        rw (asked, served, sent, drop-append k.engine.fd.sent response, returned) refl

    over_link_answers :
        (r : Req) (k : Link)
        → desc.req.fits r ≡ true
        → desc.resp.fits (function r k.world).0 ≡ true
        → IsLinked k
        → Same Follows
            (over_link (call desc r) k)
            (some (function r k.world).0, (function r k.world).1)
    over_link_answers r k fit_req fit_resp linked =
        let x = (function r k.world).0 in
        let request = message desc.req desc.id r in
        let response = message desc.resp desc.id x in
        let c1 : Engine = to_server response k.client in
        let e1 : Engine = to_server request k.engine in
        let (e, served, swapped) =
          handle_commands_answers r e1 k.world [] fit_req fit_resp linked.server_open
            (arriving_all request k.engine.fd linked.server_read) in
        let (c, called, talked) =
          call_returns desc valid r x c1 [] fit_req fit_resp linked.client_open
            (arriving_all response k.client.fd linked.client_read) in
        let done =
          over_link_step r k request response e (function r k.world).1 x c
            (request_of-call r k.client fit_req linked.client_open) served swapped.sent called in
        let there : IsLinked (record { client = c; engine = e; world = (function r k.world).1 }) =
          record {
            client_open = talked.still_open;
            server_open = swapped.still_open;
            client_read = talked.left;
            server_read = swapped.left;
          } in
        rw done (refl, (there, refl))

    -- A call over the link returns what its handler returns in the coordinator's state.
    pub over_link-Same :
        (r : Req) (k : Link) (s : Sim)
        → desc.req.fits r ≡ true
        → ((t : Sim) → desc.resp.fits (function r t).0 ≡ true)
        → Follows k s
        → Same Follows (over_link (call desc r) k) (some (function r s).0, (function r s).1)
    over_link-Same r k s fit_req fit_resp (linked, same) =
        subst
          (λ (t : Sim).
            Same Follows (over_link (call desc r) k) (some (function r t).0, (function r t).1))
          same (over_link_answers r k fit_req (fit_resp k.world) linked)

module _ {Resp : Type 0} (desc : RpcDesc EmptyReq Resp) (function : EmptyReq → Sim → Resp × Sim)
    (valid : IsDesc desc) (routed : Routed desc function) where
  -- The same for the overload without a request.
  pub over_link_empty-Same :
      (k : Link) (s : Sim)
      → desc.req.is_empty ≡ true
      → desc.req.fits (record {}) ≡ true
      → ((t : Sim) → desc.resp.fits (function (record {}) t).0 ≡ true)
      → Follows k s
      → Same Follows
          (over_link (call_empty desc) k)
          (some (function (record {}) s).0, (function (record {}) s).1)
  over_link_empty-Same k s empty fit_req fit_resp follows =
      subst
        (λ (g : Engine → Option Resp × Engine).
          Same Follows (over_link g k)
            (some (function (record {}) s).0, (function (record {}) s).1))
        (λ i. λ e. sym (call_empty-call desc e empty) i)
        (over_link-Same desc function valid routed (record {}) k s fit_req fit_resp follows)
