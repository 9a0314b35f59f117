-- ===== src/Client/Returns.antt =====
-- What the calls of zb_rpc_client/include/zigbee_api.h make of a response.
use zigbee_remote.Prelude.{ℕ, ◌≡◌, refl, true, some, List, ◌++◌}
use zigbee_remote.Fd.Stream.{incoming}
use zigbee_remote.Fd.Output.{IsOpen}
use zigbee_remote.Protocol.Payloads.{EmptyReq}
use zigbee_remote.Protocol.Desc.{RpcDesc, IsDesc}
use zigbee_remote.Engine.{Engine, send}
use zigbee_remote.Engine.Send.{message}
use zigbee_remote.Engine.Exchange.{call_returns}
use zigbee_remote.Engine.Rpc.{call, call_empty}
use zigbee_remote.Client.{Client, attached, engine, rpc, rpc_empty}

-- The client after one exchange: the descriptor is still attached.
pub record Talked (c c' : Client) (rest bytes : List ℕ) : Type 0 where
  pub g_fd : c'.g_fd ≡ c.g_fd
  pub left : incoming c'.fd ≡ rest
  pub sent : c'.fd.sent ≡ c.fd.sent ++ bytes
  pub still_open : IsOpen c'.fd.grants

-- A function of the API that is given its response `x`: its value, and what it leaves.
pub record Gives {A : Type 0} (function : Client → A × Client) (value : A) (c : Client)
    (rest bytes : List ℕ) : Type 0 where
  pub after : Client
  pub returned : function c ≡ (value, after)
  pub talked : Talked c after rest bytes

module _ {Resp : Type 0} (desc : RpcDesc EmptyReq Resp) where
  -- The overload without a request sends what the other sends for an empty one.
  pub call_empty-call :
      (e : Engine) → desc.req.is_empty ≡ true → call_empty desc e ≡ call desc (record {}) e
  unfolding call call_empty send
  call_empty-call e empty = rw empty

  pub rpc_empty-rpc :
      (c : Client) → desc.req.is_empty ≡ true → rpc_empty desc c ≡ rpc desc (record {}) c
  unfolding rpc_empty rpc
  rpc_empty-rpc c empty = rw (call_empty-call (engine c) empty)

module _ {Req Resp : Type 0} (desc : RpcDesc Req Resp) (valid : IsDesc desc) where
  rpc_called :
      (r : Req) (x : Resp) (c : Client) (e : Engine)
      → attached c ≡ true
      → call desc r (engine c) ≡ (some x, e)
      → rpc desc r c ≡ (some x, record c { fd = e.fd })
  unfolding rpc
  rpc_called r x c e att called = rw (att, called)

  pub rpc-Gives :
      (r : Req) (x : Resp) (c : Client) (more : List ℕ)
      → desc.req.fits r ≡ true
      → desc.resp.fits x ≡ true
      → attached c ≡ true
      → IsOpen c.fd.grants
      → incoming c.fd ≡ message desc.resp desc.id x ++ more
      → Gives (rpc desc r) (some x) c more (message desc.req desc.id r)
  rpc-Gives r x c more fit_req fit_resp att writable down =
      let (e', called, swapped) =
        call_returns desc valid r x (engine c) more fit_req fit_resp writable down in
      record {
        after = record c { fd = e'.fd };
        returned = rpc_called r x c e' att called;
        talked = record {
          g_fd = refl;
          left = swapped.left;
          sent = swapped.sent;
          still_open = swapped.still_open;
        };
      }
