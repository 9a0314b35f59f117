-- ===== src/Client/Detached.antt =====
-- The functions of zb_rpc_client/include/zigbee_api.h before `attach` and after `detach`.
use zigbee_remote.Prelude.{ℕ, ◌≡◌, false, none}
use zigbee_remote.Prelude.Int.{pos, negsuc}
use zigbee_remote.Protocol.Payloads.{EmptyReq}
use zigbee_remote.Protocol.Desc.{RpcDesc}
use zigbee_remote.Client.{
  Client, attached, no_addr, no_basic, no_temp, k_invalid_short_addr, rpc, rpc_empty,
  zigbee_get_short_addr, zigbee_get_panid, zigbee_get_channel, zigbee_get_sensor_addr,
  zigbee_open_network, zigbee_wait_annce, zigbee_find_sensor, zigbee_read_basic, zigbee_bind_sensor,
  zigbee_subscribe_sensor, zigbee_config_report, zigbee_read_temp, zigbee_get_last_temp,
}

-- Each function returns its default and does not touch the descriptor.
pub record Refused (c : Client) (duration short_addr ep timeout_ms : ℕ) : Type 0 where
  pub get_short_addr : zigbee_get_short_addr c ≡ (0, c)
  pub get_panid : zigbee_get_panid c ≡ (0, c)
  pub get_channel : zigbee_get_channel c ≡ (0, c)
  pub get_sensor_addr : zigbee_get_sensor_addr c ≡ (k_invalid_short_addr, c)
  pub open_network : zigbee_open_network duration c ≡ (negsuc 0, c)
  pub wait_annce : zigbee_wait_annce timeout_ms c ≡ (0, c)
  pub find_sensor : zigbee_find_sensor short_addr timeout_ms c ≡ (no_addr, c)
  pub read_basic : zigbee_read_basic short_addr ep timeout_ms c ≡ (no_basic, c)
  pub bind_sensor : zigbee_bind_sensor short_addr ep timeout_ms c ≡ (negsuc 0, c)
  pub subscribe_sensor : zigbee_subscribe_sensor short_addr ep timeout_ms c ≡ (negsuc 0, c)
  pub config_report : zigbee_config_report short_addr ep timeout_ms c ≡ (negsuc 0, c)
  pub read_temp : zigbee_read_temp short_addr ep timeout_ms c ≡ (no_temp, c)
  pub get_last_temp : zigbee_get_last_temp c ≡ (pos 0, c)

rpc_empty_detached :
    {Resp : Type 0} (desc : RpcDesc EmptyReq Resp) (c : Client)
    → attached c ≡ false
    → rpc_empty desc c ≡ (none, c)
unfolding rpc_empty
rpc_empty_detached desc c off = rw off

rpc_detached :
    {Req Resp : Type 0} (desc : RpcDesc Req Resp) (r : Req) (c : Client)
    → attached c ≡ false
    → rpc desc r c ≡ (none, c)
unfolding rpc
rpc_detached desc r c off = rw off

-- With no descriptor attached, each function of the client's API returns its default and neither
-- reads nor writes.
pub api_detached :
    (c : Client) (duration short_addr ep timeout_ms : ℕ)
    → attached c ≡ false
    → Refused c duration short_addr ep timeout_ms
unfolding zigbee_get_short_addr zigbee_get_panid zigbee_get_channel zigbee_get_sensor_addr
    zigbee_open_network zigbee_wait_annce zigbee_find_sensor zigbee_read_basic zigbee_bind_sensor
    zigbee_subscribe_sensor zigbee_config_report zigbee_read_temp zigbee_get_last_temp
api_detached c duration short_addr ep timeout_ms off = record {
  get_short_addr = rw (rpc_empty_detached _ c off);
  get_panid = rw (rpc_empty_detached _ c off);
  get_channel = rw (rpc_empty_detached _ c off);
  get_sensor_addr = rw (rpc_empty_detached _ c off);
  open_network = rw (rpc_detached _ _ c off);
  wait_annce = rw (rpc_empty_detached _ c off);
  find_sensor = rw (rpc_detached _ _ c off);
  read_basic = rw (rpc_detached _ _ c off);
  bind_sensor = rw (rpc_detached _ _ c off);
  subscribe_sensor = rw (rpc_detached _ _ c off);
  config_report = rw (rpc_detached _ _ c off);
  read_temp = rw (rpc_detached _ _ c off);
  get_last_temp = rw (rpc_empty_detached _ c off);
}
