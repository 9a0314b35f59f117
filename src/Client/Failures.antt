-- ===== src/Client/Failures.antt =====
-- The functions of zb_rpc_client/include/zigbee_api.h when no response comes: the connection is
-- closed or broken before a whole header has arrived.
use zigbee_remote.Prelude.{
  ℕ, arith, ◌<◌, ◌≡◌, refl, ap, ◌∙◌, Bool-cases, inl, inr, none, Option, List, true, length,
}
use zigbee_remote.Prelude.Int.{pos, negsuc}
use zigbee_remote.Fd.{Arrival}
use zigbee_remote.Fd.Stream.{incoming, stream}
use zigbee_remote.Protocol.Payloads.{EmptyReq}
use zigbee_remote.Protocol.Desc.{RpcDesc, IsDesc}
use zigbee_remote.Protocol.Desc
use zigbee_remote.Engine.{Engine, send}
use zigbee_remote.Engine.Receive.{receive_header_short}
use zigbee_remote.Engine.Progress.{send-arrivals}
use zigbee_remote.Engine.Rpc.{call, receive_response}
use zigbee_remote.Client.{
  Client, attached, engine, no_addr, no_basic, no_temp, k_invalid_short_addr, rpc, rpc_empty,
  zigbee_get_short_addr, zigbee_get_panid, zigbee_get_channel, zigbee_get_sensor_addr,
  zigbee_open_network, zigbee_wait_annce, zigbee_find_sensor, zigbee_read_basic, zigbee_bind_sensor,
  zigbee_subscribe_sensor, zigbee_config_report, zigbee_read_temp, zigbee_get_last_temp,
}
use zigbee_remote.Client.Returns.{rpc_empty-rpc}

module _ {Req Resp : Type 0} (desc : RpcDesc Req Resp) where
  receive_response_short :
      (e : Engine) → length (incoming e.fd) < 12 → (receive_response desc e).0 ≡ none
  unfolding receive_response
  receive_response_short e h = rw (receive_header_short e h, receive_response)

  -- A call whose response does not come returns nothing, whether or not its request went out.
  pub call_short : (r : Req) (e : Engine) → length (incoming e.fd) < 12 → (call desc r e).0 ≡ none
  unfolding call
  call_short r e h =
      let after = (send desc.req desc.id r e).1 in
      let same =
        ap (λ (l : List Arrival). length (stream l)) (send-arrivals desc.req desc.id r e) in
      let ends = receive_response_short after (omega (arith, same, h)) in
      elim (Bool-cases (send desc.req desc.id r e).0) [
        | inl sent ↦ rw (sent, ends)
        | inr unsent ↦ rw unsent
      ]

  rpc_short : (r : Req) (c : Client) → length (incoming c.fd) < 12 → (rpc desc r c).0 ≡ none
  unfolding rpc
  rpc_short r c h = elim (Bool-cases (attached c)) [
    | inl on ↦ rw (on, call_short r (engine c) h)
    | inr off ↦ rw off
  ]

rpc_empty_short :
    {Resp : Type 0} (desc : RpcDesc EmptyReq Resp) (c : Client)
    → desc.req.is_empty ≡ true
    → length (incoming c.fd) < 12
    → (rpc_empty desc c).0 ≡ none
rpc_empty_short desc c empty h =
    ap (λ (p : Option _ × Client). p.0) (rpc_empty-rpc desc c empty)
    ∙ rpc_short desc (record {}) c h

-- Each function returns its default.
pub record Defaults (c : Client) (duration short_addr ep timeout_ms : ℕ) : Type 0 where
  pub get_short_addr : (zigbee_get_short_addr c).0 ≡ 0
  pub get_panid : (zigbee_get_panid c).0 ≡ 0
  pub get_channel : (zigbee_get_channel c).0 ≡ 0
  pub get_sensor_addr : (zigbee_get_sensor_addr c).0 ≡ k_invalid_short_addr
  pub open_network : (zigbee_open_network duration c).0 ≡ negsuc 0
  pub wait_annce : (zigbee_wait_annce timeout_ms c).0 ≡ 0
  pub find_sensor : (zigbee_find_sensor short_addr timeout_ms c).0 ≡ no_addr
  pub read_basic : (zigbee_read_basic short_addr ep timeout_ms c).0 ≡ no_basic
  pub bind_sensor : (zigbee_bind_sensor short_addr ep timeout_ms c).0 ≡ negsuc 0
  pub subscribe_sensor : (zigbee_subscribe_sensor short_addr ep timeout_ms c).0 ≡ negsuc 0
  pub config_report : (zigbee_config_report short_addr ep timeout_ms c).0 ≡ negsuc 0
  pub read_temp : (zigbee_read_temp short_addr ep timeout_ms c).0 ≡ no_temp
  pub get_last_temp : (zigbee_get_last_temp c).0 ≡ pos 0

-- Where fewer bytes than a header arrive, each function of the client's API returns its default,
-- attached or not, whatever became of the request: -1 for a status, 0xFFFF for the known sensor's
-- address and zero for the rest.
pub api_no_response :
    (c : Client) (duration short_addr ep timeout_ms : ℕ)
    → length (incoming c.fd) < 12
    → Defaults c duration short_addr ep timeout_ms
unfolding zigbee_get_short_addr zigbee_get_panid zigbee_get_channel zigbee_get_sensor_addr
    zigbee_open_network zigbee_wait_annce zigbee_find_sensor zigbee_read_basic zigbee_bind_sensor
    zigbee_subscribe_sensor zigbee_config_report zigbee_read_temp zigbee_get_last_temp
api_no_response c duration short_addr ep timeout_ms cut = record {
  get_short_addr = rw (rpc_empty_short Desc.get_short_addr c refl cut);
  get_panid = rw (rpc_empty_short Desc.get_panid c refl cut);
  get_channel = rw (rpc_empty_short Desc.get_channel c refl cut);
  get_sensor_addr = rw (rpc_empty_short Desc.get_sensor_addr c refl cut);
  open_network = rw (rpc_short Desc.open_network _ c cut);
  wait_annce = rw (rpc_empty_short Desc.wait_annce c refl cut);
  find_sensor = rw (rpc_short Desc.find_sensor _ c cut);
  read_basic = rw (rpc_short Desc.read_basic _ c cut);
  bind_sensor = rw (rpc_short Desc.bind_sensor _ c cut);
  subscribe_sensor = rw (rpc_short Desc.subscribe_sensor _ c cut);
  config_report = rw (rpc_short Desc.config_report _ c cut);
  read_temp = rw (rpc_short Desc.read_temp _ c cut);
  get_last_temp = rw (rpc_empty_short Desc.get_last_temp c refl cut);
}
