-- ===== src/Client/Remote.antt =====
-- One function of zb_rpc_client/include/zigbee_api.h, called while rpc_server.cpp serves its
-- request.
use zigbee_remote.Prelude.{ℕ, ◌≡◌, ap, ◌∙◌, true, List, ◌++◌}
use zigbee_remote.Fd.Stream.{incoming}
use zigbee_remote.Fd.Output.{IsOpen}
use zigbee_remote.Protocol.Payloads.{EmptyReq}
use zigbee_remote.Protocol.Desc.{RpcDesc, IsDesc}
use zigbee_remote.Engine.{Engine}
use zigbee_remote.Engine.Send.{message}
use zigbee_remote.Engine.Exchange.{Exchanged}
use zigbee_remote.Server.Handlers.{Firmware, Server}
use zigbee_remote.Server.Routes.{Route}
use zigbee_remote.Server.Serve.{serve_frame}
use zigbee_remote.Server.Remote.{serve_frame_answers}
use zigbee_remote.Client.{Client, attached, reply_or, rpc, rpc_empty}
use zigbee_remote.Client.Returns.{Talked, rpc_empty-rpc, rpc-Gives}

-- The two ends of one connection with a request on its way: the server has `request` in front of
-- what comes in, the client `response`.
pub record Linked (c : Client) (e : Engine) (request response rest more : List ℕ) : Type 0 where
  pub is_attached : attached c ≡ true
  pub client_open : IsOpen c.fd.grants
  pub server_open : IsOpen e.fd.grants
  pub up : incoming e.fd ≡ request ++ rest
  pub down : incoming c.fd ≡ response ++ more

module _ {W : Type 0} (fw : Firmware W) where
  -- The client's function returns what `local` returns on the server, the server is left in the
  -- state that `local` leaves, and each end has written its message and taken the other's.
  pub record Remote {A : Type 0} (function : Client → A × Client) (local : Server W → A × Server W)
      (c : Client) (e : Engine) (s : Server W) (request response rest more : List ℕ) : Type 0 where
    pub client : Client
    pub engine : Engine
    pub returned : function c ≡ ((local s).0, client)
    pub served : serve_frame fw e s ≡ (true, engine, (local s).1)
    pub talked : Talked c client more request
    pub exchanged : Exchanged e engine rest response

  module _ {Req Resp : Type 0} (desc : RpcDesc Req Resp)
      (handler : Req → Server W → Resp × Server W) (r : Req) where
    -- The request `r` of `desc` is on its way to the server in state `s`, and the handler's
    -- response on its way back.
    abbrev pub OnWire : (c : Client) (e : Engine) (s : Server W) (rest more : List ℕ) → Type 0
    OnWire c e s rest more =
        Linked c e (message desc.req desc.id r) (message desc.resp desc.id (handler r s).0) rest
          more

    abbrev pub Calls :
        {A : Type 0} (function : Client → A × Client) (local : Server W → A × Server W) (c : Client)
        (e : Engine) (s : Server W) (rest more : List ℕ)
        → Type 0
    Calls function local c e s rest more =
        Remote function local c e s (message desc.req desc.id r)
          (message desc.resp desc.id (handler r s).0) rest more

  module _ {Req Resp A : Type 0} (desc : RpcDesc Req Resp) (valid : IsDesc desc)
      (handler : Req → Server W → Resp × Server W) (route : Route fw desc handler) (default : A)
      (value : Resp → A) (local : Server W → A × Server W) where
    pub remote :
        (r : Req) (c : Client) (e : Engine) (s : Server W) (rest more : List ℕ)
        → desc.req.fits r ≡ true
        → desc.resp.fits (handler r s).0 ≡ true
        → value (handler r s).0 ≡ (local s).0
        → (handler r s).1 ≡ (local s).1
        → OnWire desc handler r c e s rest more
        → Calls desc handler r (λ k. reply_or default value (rpc desc r k)) local c e s rest more
    remote r c e s rest more fit_req fit_resp same_value same_state linked =
        let given =
          rpc-Gives desc valid r (handler r s).0 c more fit_req fit_resp linked.is_attached
            linked.client_open linked.down in
        let (e', served, swapped) =
          serve_frame_answers fw desc valid handler route r e s rest fit_req fit_resp
            linked.server_open linked.up in
        record {
          client = given.after;
          engine = e';
          returned =
              ap (reply_or default value) given.returned ∙ (λ i. (same_value i, given.after));
          served = served ∙ (λ i. (true, e', same_state i));
          talked = given.talked;
          exchanged = swapped;
        }

  -- The same for a call without a request.
  module _ {Resp A : Type 0} (desc : RpcDesc EmptyReq Resp) (valid : IsDesc desc)
      (handler : EmptyReq → Server W → Resp × Server W) (route : Route fw desc handler)
      (default : A) (value : Resp → A) (local : Server W → A × Server W) where
    pub remote_empty :
        (c : Client) (e : Engine) (s : Server W) (rest more : List ℕ)
        → desc.req.is_empty ≡ true
        → desc.req.fits (record {}) ≡ true
        → desc.resp.fits (handler (record {}) s).0 ≡ true
        → value (handler (record {}) s).0 ≡ (local s).0
        → (handler (record {}) s).1 ≡ (local s).1
        → OnWire desc handler (record {}) c e s rest more
        → Calls desc handler
            (record {})
            (λ k. reply_or default value (rpc_empty desc k))
            local
            c
            e
            s
            rest
            more
    remote_empty c e s rest more empty fit_req fit_resp same_value same_state linked =
        let made =
          remote desc valid handler route default value local (record {}) c e s rest more fit_req
            fit_resp same_value same_state linked in
        record {
          client = made.client;
          engine = made.engine;
          returned = ap (reply_or default value) (rpc_empty-rpc desc c empty) ∙ made.returned;
          served = made.served;
          talked = made.talked;
          exchanged = made.exchanged;
        }
