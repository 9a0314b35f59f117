-- ===== src/Pipe/Call.antt =====
-- One call over the pipe.
use zigbee_remote.Prelude.{
  ℕ, ◌≡◌, refl, sym, ap, ◌∙◌, true, Option, List, [], ◌∷◌, ◌++◌, append-nil, length, drop,
  drop-append,
}
use zigbee_remote.Fd.{Fd, segment, read_all, read_loop}
use zigbee_remote.Fd.Stream.{stream, incoming}
use zigbee_remote.Fd.Output.{IsOpen}
use zigbee_remote.Protocol.Payloads.{EmptyReq}
use zigbee_remote.Protocol.Desc.{RpcDesc, IsDesc}
use zigbee_remote.Engine.{Engine, receive_header}
use zigbee_remote.Engine.Send.{message, send_open}
use zigbee_remote.Engine.Rpc.{call, receive_response}
use zigbee_remote.Server.Handlers.{Firmware, Server}
use zigbee_remote.Server.Serve.{serve_frame}
use zigbee_remote.Client.{is_nonneg, Client, attached, engine, reply_or, rpc, rpc_empty}
use zigbee_remote.Client.Returns.{rpc_empty-rpc}
use zigbee_remote.Client.Remote.{OnWire, Calls}
use zigbee_remote.Pipe.{Pipe, arriving, to_client, to_server, unanswered, request_of, over_pipe}

stream_segment : (bs : List ℕ) → stream (segment bs ∷ []) ≡ bs
unfolding stream
stream_segment [] = refl
stream_segment (b ∷ bs) = append-nil (b ∷ bs)

-- Nothing is written behind the request while no response comes.
receive_response_silent :
    {Req Resp : Type 0} (desc : RpcDesc Req Resp) (e : Engine)
    → e.fd.arrivals ≡ []
    → (receive_response desc e).1.fd.sent ≡ e.fd.sent
unfolding receive_response receive_header read_all read_loop
receive_response_silent desc e h = rw h refl

module _ {Req Resp : Type 0} (desc : RpcDesc Req Resp) (valid : IsDesc desc) where
  pub call_unanswered :
      (r : Req) (e : Engine)
      → desc.req.fits r ≡ true
      → IsOpen e.fd.grants
      → e.fd.arrivals ≡ []
      → (call desc r e).1.fd.sent ≡ e.fd.sent ++ message desc.req desc.id r
  unfolding call
  call_unanswered r e fits writable h =
      let (done, appended) = send_open desc.req valid.req_safe desc.id r e fits writable in
      rw done (receive_response_silent desc _ (appended.arrivals ∙ h) ∙ appended.sent)

  -- What a call of the API writes.
  pub request_of-rpc :
      {A : Type 0} (default : A) (value : Resp → A) (r : Req) (c : Client)
      → desc.req.fits r ≡ true
      → attached c ≡ true
      → IsOpen c.fd.grants
      → request_of (λ k. reply_or default value (rpc desc r k)) c ≡ message desc.req desc.id r
  unfolding request_of rpc attached
  request_of-rpc default value r c fits att writable =
      let wrote = call_unanswered r (engine (unanswered c)) fits writable refl in
      rw (att, wrote) (drop-append c.fd.sent (message desc.req desc.id r))

-- Between two calls: all that was sent is read, and both ends can write.
pub record IsSynced {W : Type 0} (k : Pipe W) : Type 0 where
  pub is_attached : attached k.client ≡ true
  pub client_open : IsOpen k.client.fd.grants
  pub server_open : IsOpen k.engine.fd.grants
  pub client_read : incoming k.client.fd ≡ []
  pub server_read : incoming k.engine.fd ≡ []

pub arriving_all :
    (bytes : List ℕ) (fd : Fd) → incoming fd ≡ [] → incoming (arriving bytes fd) ≡ bytes ++ []
arriving_all bytes fd h =
    stream_segment (incoming fd ++ bytes)
    ∙ ap (λ (l : List ℕ). l ++ bytes) h
    ∙ sym (append-nil bytes)

over_pipe_step :
    {W A : Type 0} (fw : Firmware W) (function : Client → A × Client) (k : Pipe W)
    (request response : List ℕ) (e : Engine) (s : Server W) (a : A) (c : Client)
    → request_of function k.client ≡ request
    → serve_frame fw (to_server request k.engine) k.server ≡ (true, e, s)
    → e.fd.sent ≡ k.engine.fd.sent ++ response
    → function (to_client response k.client) ≡ (a, c)
    → over_pipe fw function k ≡ (a, record { client = c; engine = e; server = s })
unfolding over_pipe
over_pipe_step fw function k request response e s a c asked served sent returned =
    rw (asked, served, sent, drop-append k.engine.fd.sent response, returned) refl

attached_still : (c c' : Client) → c'.g_fd ≡ c.g_fd → attached c ≡ true → attached c' ≡ true
unfolding attached
attached_still c c' same h = ap is_nonneg same ∙ h

module _ {W : Type 0} (fw : Firmware W) {Req Resp A : Type 0} (desc : RpcDesc Req Resp)
    (handler : Req → Server W → Resp × Server W) (r : Req) (function : Client → A × Client)
    (local : Server W → A × Server W) where
  -- The call gives what `local` gives in the server's state, and leaves the pipe synchronised.
  pub record Answered (k : Pipe W) : Type 0 where
    pub after : Pipe W
    pub returned : over_pipe fw function k ≡ ((local k.server).0, after)
    pub synced : IsSynced after
    pub server_is : after.server ≡ (local k.server).1

  pub over_pipe-Answered :
      (k : Pipe W)
      → IsSynced k
      → request_of function k.client ≡ message desc.req desc.id r
      → ((c : Client) (e : Engine)
          → OnWire fw desc handler r c e k.server [] []
          → Calls fw desc handler r function local c e k.server [] [])
      → Answered k
  unfolding over_pipe attached
  over_pipe-Answered k synced asked calls =
      let request = message desc.req desc.id r in
      let response = message desc.resp desc.id (handler r k.server).0 in
      let c1 : Client = to_client response k.client in
      let e1 : Engine = to_server request k.engine in
      let linked : OnWire fw desc handler r c1 e1 k.server [] [] = record {
        is_attached = synced.is_attached;
        client_open = synced.client_open;
        server_open = synced.server_open;
        up = arriving_all request k.engine.fd synced.server_read;
        down = arriving_all response k.client.fd synced.client_read;
      } in
      let made = calls c1 e1 linked in
      record {
        after = record { client = made.client; engine = made.engine; server = (local k.server).1 };
        returned =
            over_pipe_step fw function k request response made.engine (local k.server).1
              (local k.server).0 made.client asked made.served made.exchanged.sent made.returned;
        synced = record {
          is_attached = attached_still k.client made.client made.talked.g_fd synced.is_attached;
          client_open = made.talked.still_open;
          server_open = made.exchanged.still_open;
          client_read = made.talked.left;
          server_read = made.exchanged.left;
        };
        server_is = refl;
      }

module _ {Resp : Type 0} (desc : RpcDesc EmptyReq Resp) (valid : IsDesc desc) where
  pub request_of-rpc_empty :
      {A : Type 0} (default : A) (value : Resp → A) (c : Client)
      → desc.req.is_empty ≡ true
      → desc.req.fits (record {}) ≡ true
      → attached c ≡ true
      → IsOpen c.fd.grants
      → request_of (λ k. reply_or default value (rpc_empty desc k)) c
        ≡ message desc.req desc.id (record {})
  unfolding request_of
  request_of-rpc_empty default value c empty fits att writable =
      ap (λ (x : Option Resp × Client). drop (length c.fd.sent) x.1.fd.sent)
        (rpc_empty-rpc desc (unanswered c) empty)
      ∙ request_of-rpc desc valid default value (record {}) c fits att writable
