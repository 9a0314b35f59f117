-- ===== src/Protocol/Desc.antt =====
-- `rpc_desc` and the call catalog `namespace desc` of zb_rpc_shared/include/zb_rpc/protocol.hpp.
use zigbee_remote.Prelude.{◌^◌, ◌<◌, ◌≡◌, refl, false, arith, ◌==◌}
use zigbee_remote.Protocol.ApiId
use zigbee_remote.Protocol.ApiId.{ApiId}
use zigbee_remote.Protocol.Payloads.{
  EmptyReq, U8Resp, U16Resp, I16Resp, I32Resp, OpenNetworkReq, FindSensorReq, ZbAddr, ZbBasic,
  ZbTemp, WireType, IsWireSafe, empty_req, u8_resp, u16_resp, i16_resp, i32_resp, open_network_req,
  find_sensor_req, zb_addr, zb_basic, zb_temp,
}
use zigbee_remote.Protocol.WireSafe.{
  empty_req-IsWireSafe, find_sensor_req-IsWireSafe, i16_resp-IsWireSafe, i32_resp-IsWireSafe,
  open_network_req-IsWireSafe, u16_resp-IsWireSafe, u8_resp-IsWireSafe, zb_addr-IsWireSafe,
  zb_basic-IsWireSafe, zb_temp-IsWireSafe,
}

pub record RpcDesc (Req Resp : Type 0) : Type 0 where
  pub id : ApiId
  pub req : WireType Req
  pub resp : WireType Resp

abbrev pub get_short_addr : RpcDesc EmptyReq U16Resp
get_short_addr = record { id = ApiId.get_short_addr; req = empty_req; resp = u16_resp }

abbrev pub get_panid : RpcDesc EmptyReq U16Resp
get_panid = record { id = ApiId.get_panid; req = empty_req; resp = u16_resp }

abbrev pub get_channel : RpcDesc EmptyReq U8Resp
get_channel = record { id = ApiId.get_channel; req = empty_req; resp = u8_resp }

abbrev pub open_network : RpcDesc OpenNetworkReq I32Resp
open_network = record { id = ApiId.open_network; req = open_network_req; resp = i32_resp }

abbrev pub wait_annce : RpcDesc EmptyReq U16Resp
wait_annce = record { id = ApiId.wait_annce; req = empty_req; resp = u16_resp }

abbrev pub find_sensor : RpcDesc FindSensorReq ZbAddr
find_sensor = record { id = ApiId.find_sensor; req = find_sensor_req; resp = zb_addr }

abbrev pub read_basic : RpcDesc ZbAddr ZbBasic
read_basic = record { id = ApiId.read_basic; req = zb_addr; resp = zb_basic }

abbrev pub bind_sensor : RpcDesc ZbAddr I32Resp
bind_sensor = record { id = ApiId.bind_sensor; req = zb_addr; resp = i32_resp }

abbrev pub subscribe_sensor : RpcDesc ZbAddr I32Resp
subscribe_sensor = record { id = ApiId.subscribe_sensor; req = zb_addr; resp = i32_resp }

abbrev pub config_report : RpcDesc ZbAddr I32Resp
config_report = record { id = ApiId.config_report; req = zb_addr; resp = i32_resp }

abbrev pub read_temp : RpcDesc ZbAddr ZbTemp
read_temp = record { id = ApiId.read_temp; req = zb_addr; resp = zb_temp }

abbrev pub get_last_temp : RpcDesc EmptyReq I16Resp
get_last_temp = record { id = ApiId.get_last_temp; req = empty_req; resp = i16_resp }

abbrev pub get_sensor_addr : RpcDesc EmptyReq U16Resp
get_sensor_addr = record { id = ApiId.get_sensor_addr; req = empty_req; resp = u16_resp }

-- What a call must be for both ends to agree on it: an identifier that fits the header and is not
-- `error`, and wire-safe payloads. It is what the `static_assert`s of `fn_desc` are for.
pub record IsDesc {Req Resp : Type 0} (desc : RpcDesc Req Resp) : Type 0 where
  pub id_fits : desc.id < 2 ^ 32
  pub not_error : (desc.id == ApiId.error) ≡ false
  pub req_safe : IsWireSafe desc.req
  pub resp_safe : IsWireSafe desc.resp

pub get_short_addr-IsDesc : IsDesc get_short_addr
get_short_addr-IsDesc = record {
  id_fits = omega arith;
  not_error = refl;
  req_safe = empty_req-IsWireSafe;
  resp_safe = u16_resp-IsWireSafe;
}

pub get_panid-IsDesc : IsDesc get_panid
get_panid-IsDesc = record {
  id_fits = omega arith;
  not_error = refl;
  req_safe = empty_req-IsWireSafe;
  resp_safe = u16_resp-IsWireSafe;
}

pub get_channel-IsDesc : IsDesc get_channel
get_channel-IsDesc = record {
  id_fits = omega arith;
  not_error = refl;
  req_safe = empty_req-IsWireSafe;
  resp_safe = u8_resp-IsWireSafe;
}

pub open_network-IsDesc : IsDesc open_network
open_network-IsDesc = record {
  id_fits = omega arith;
  not_error = refl;
  req_safe = open_network_req-IsWireSafe;
  resp_safe = i32_resp-IsWireSafe;
}

pub wait_annce-IsDesc : IsDesc wait_annce
wait_annce-IsDesc = record {
  id_fits = omega arith;
  not_error = refl;
  req_safe = empty_req-IsWireSafe;
  resp_safe = u16_resp-IsWireSafe;
}

pub find_sensor-IsDesc : IsDesc find_sensor
find_sensor-IsDesc = record {
  id_fits = omega arith;
  not_error = refl;
  req_safe = find_sensor_req-IsWireSafe;
  resp_safe = zb_addr-IsWireSafe;
}

pub read_basic-IsDesc : IsDesc read_basic
read_basic-IsDesc = record {
  id_fits = omega arith;
  not_error = refl;
  req_safe = zb_addr-IsWireSafe;
  resp_safe = zb_basic-IsWireSafe;
}

pub bind_sensor-IsDesc : IsDesc bind_sensor
bind_sensor-IsDesc = record {
  id_fits = omega arith;
  not_error = refl;
  req_safe = zb_addr-IsWireSafe;
  resp_safe = i32_resp-IsWireSafe;
}

pub subscribe_sensor-IsDesc : IsDesc subscribe_sensor
subscribe_sensor-IsDesc = record {
  id_fits = omega arith;
  not_error = refl;
  req_safe = zb_addr-IsWireSafe;
  resp_safe = i32_resp-IsWireSafe;
}

pub config_report-IsDesc : IsDesc config_report
config_report-IsDesc = record {
  id_fits = omega arith;
  not_error = refl;
  req_safe = zb_addr-IsWireSafe;
  resp_safe = i32_resp-IsWireSafe;
}

pub read_temp-IsDesc : IsDesc read_temp
read_temp-IsDesc = record {
  id_fits = omega arith;
  not_error = refl;
  req_safe = zb_addr-IsWireSafe;
  resp_safe = zb_temp-IsWireSafe;
}

pub get_last_temp-IsDesc : IsDesc get_last_temp
get_last_temp-IsDesc = record {
  id_fits = omega arith;
  not_error = refl;
  req_safe = empty_req-IsWireSafe;
  resp_safe = i16_resp-IsWireSafe;
}

pub get_sensor_addr-IsDesc : IsDesc get_sensor_addr
get_sensor_addr-IsDesc = record {
  id_fits = omega arith;
  not_error = refl;
  req_safe = empty_req-IsWireSafe;
  resp_safe = u16_resp-IsWireSafe;
}
