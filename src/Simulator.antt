-- ===== src/Simulator.antt =====
-- The simulated coordinator of the desktop demo, zb_rpc/src/sim_zigbee.cpp.
pub mod Serve
pub mod Namespace
pub mod Climate
pub mod Program
use zigbee_remote.Prelude.{
  ℕ, ◌+◌, Bool, true, false, not, ◌||◌, Option, none, some, List, [], ◌∷◌, ◌++◌, ltb, ◌==◌,
  if◌then◌else◌, replicate,
}
use zigbee_remote.Prelude.Int.{pos, negsuc}
use zigbee_remote.Protocol.Endian.{Le16, to_le16, from_le16, to_le16_s, to_le32_s}
use zigbee_remote.Protocol.ApiId
use zigbee_remote.Protocol.Codes.{unknown_api}
use zigbee_remote.Protocol.Payloads.{
  EmptyReq, U8Resp, U16Resp, I16Resp, I32Resp, OpenNetworkReq, FindSensorReq, ZbAddr, ZbBasic,
  ZbTemp,
}
use zigbee_remote.Protocol.Desc
use zigbee_remote.Protocol.Desc.{RpcDesc}
use zigbee_remote.Engine.{
  Engine, FrameHeader, receive_header, receive_payload, send_error, discard_payload,
}
use zigbee_remote.Engine.Rpc.{
  InvokeResult, no_match, handled, failed, Outcome, answer, report_error,
}

-- The variables that the handlers change; `g_temp` is never negative.
pub record Sim : Type 0 where
  pub g_temp : ℕ
  pub g_permit_join : Bool
  pub g_joined : Bool

abbrev pub at_boot : Sim
at_boot = record { g_temp = 1300; g_permit_join = false; g_joined = false }

abbrev pub g_short_addr : ℕ
g_short_addr = 0

abbrev pub g_panid : ℕ
g_panid = 0x4C19

abbrev pub g_channel : ℕ
g_channel = 13

abbrev pub g_sensor_short : ℕ
g_sensor_short = 0x1956

abbrev pub g_sensor_ep : ℕ
g_sensor_ep = 0x0A

unfoldable pub bump_temp : Sim → Sim
bump_temp s = if ltb s.g_temp 1800 then record s { g_temp = s.g_temp + 100 } else s

unfoldable pub get_short_addr : EmptyReq → Sim → U16Resp × Sim
get_short_addr _ s = (record { value = to_le16 g_short_addr }, s)

unfoldable pub get_panid : EmptyReq → Sim → U16Resp × Sim
get_panid _ s = (record { value = to_le16 g_panid }, s)

unfoldable pub get_channel : EmptyReq → Sim → U8Resp × Sim
get_channel _ s = (record { value = g_channel }, s)

unfoldable pub open_network : OpenNetworkReq → Sim → I32Resp × Sim
open_network request s =
    (record { value = to_le32_s (pos 0) }, record s { g_permit_join = not (request.duration == 0) })

unfoldable pub wait_annce : EmptyReq → Sim → U16Resp × Sim
wait_annce _ s = (record { value = to_le16 g_sensor_short }, record s { g_joined = true })

-- `zb_addr_t out{}` with `err` set to -1, and the same of the other structs.
abbrev pub not_found : ZbAddr
not_found = record {
  err = to_le32_s (negsuc 0);
  short_addr = record { byte0 = 0; byte1 = 0 };
  ep = 0;
}

unfoldable pub find_sensor : FindSensorReq → Sim → ZbAddr × Sim
find_sensor request s = (
  if not s.g_joined || not (from_le16 request.short_addr == g_sensor_short)
      then not_found
      else record {
        err = to_le32_s (pos 0);
        short_addr = to_le16 g_sensor_short;
        ep = g_sensor_ep;
      },
  s,
)

-- "ESPRESSIF" and "esp32h2", with the zeros that fill the arrays.
abbrev pub manufacturer : List ℕ
manufacturer = 69 ∷ 83 ∷ 80 ∷ 82 ∷ 69 ∷ 83 ∷ 83 ∷ 73 ∷ 70 ∷ replicate 7 0

abbrev pub model : List ℕ
model = 101 ∷ 115 ∷ 112 ∷ 51 ∷ 50 ∷ 104 ∷ 50 ∷ replicate 9 0

unfoldable pub read_basic : ZbAddr → Sim → ZbBasic × Sim
read_basic addr s = (
  if not (from_le16 addr.short_addr == g_sensor_short)
      then record {
        err = to_le32_s (negsuc 0);
        manufacturer = replicate 16 0;
        model = replicate 16 0;
      }
      else record { err = to_le32_s (pos 0); manufacturer = manufacturer; model = model },
  s,
)

-- The status that the three commands on a sensor share.
abbrev pub known_status : ZbAddr → I32Resp
known_status addr = record {
  value = to_le32_s (if from_le16 addr.short_addr == g_sensor_short then pos 0 else negsuc 0);
}

unfoldable pub bind_sensor : ZbAddr → Sim → I32Resp × Sim
bind_sensor addr s = (known_status addr, s)

unfoldable pub subscribe_sensor : ZbAddr → Sim → I32Resp × Sim
subscribe_sensor addr s = (known_status addr, s)

unfoldable pub config_report : ZbAddr → Sim → I32Resp × Sim
config_report addr s = (known_status addr, s)

unfoldable pub read_temp : ZbAddr → Sim → ZbTemp × Sim
unfolding bump_temp
read_temp addr s =
    let zero : Le16 = record { byte0 = 0; byte1 = 0 } in
    let s' = bump_temp s in
    if not (from_le16 addr.short_addr == g_sensor_short)
    then (
      record {
        err = to_le32_s (negsuc 0);
        measured = zero;
        min_measured = zero;
        max_measured = zero;
        tolerance = zero;
      },
      s,
    )
    else (
      record {
        err = to_le32_s (pos 0);
        measured = to_le16_s (pos s'.g_temp);
        min_measured = to_le16_s (negsuc 999);
        max_measured = to_le16_s (pos 8000);
        tolerance = to_le16_s (pos 0);
      },
      s',
    )

unfoldable pub get_last_temp : EmptyReq → Sim → I16Resp × Sim
unfolding bump_temp
get_last_temp _ s = let s' = bump_temp s in (record { value = to_le16_s (pos s'.g_temp) }, s')
