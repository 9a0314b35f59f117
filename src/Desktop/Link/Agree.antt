-- ===== src/Desktop/Link/Agree.antt =====
-- The whole of zb_rpc/src/client.cpp over the link, against the handlers of zb_rpc/src/sim_zigbee.cpp
-- without a wire.
use zigbee_remote.Prelude.{◌≡◌, refl, ap, ◌∙◌, ◌==◌}
use zigbee_remote.Prelude.{true, Bool-cases, inl, inr}
use zigbee_remote.Protocol.Endian.{to_le16, from_le16, to_le32, from_le32, to_le32_s, from_le32_s}
use zigbee_remote.Protocol.Payloads.{ZbAddr, zb_basic}
use zigbee_remote.Protocol.Desc
use zigbee_remote.Protocol.Desc.{
  get_short_addr-IsDesc, get_panid-IsDesc, get_channel-IsDesc, open_network-IsDesc,
  find_sensor-IsDesc, read_basic-IsDesc, bind_sensor-IsDesc, subscribe_sensor-IsDesc,
  config_report-IsDesc, read_temp-IsDesc, get_last_temp-IsDesc, wait_annce-IsDesc,
}
use zigbee_remote.Engine.Rpc.{invoke_one}
use zigbee_remote.Simulator.{
  Sim, g_sensor_short, get_short_addr, get_panid, get_channel, open_network, wait_annce,
  find_sensor, read_basic, bind_sensor, subscribe_sensor, config_report, read_temp, get_last_temp,
}
use zigbee_remote.Simulator.Serve.{dispatch_ns}
use zigbee_remote.Desktop.{
  Report, session, commission, join, find, inspect, subscribe, read_temps, read_attrs, attempt,
  after, say, note,
}
use zigbee_remote.Desktop.Same.{Same, IsSame, session-Same}
use zigbee_remote.Desktop.Link.{Link, link_api, local_api}
use zigbee_remote.Desktop.Link.Call.{Follows, Routed, over_link-Same, over_link_empty-Same}

Routed-get_short_addr : Routed Desc.get_short_addr get_short_addr
unfolding dispatch_ns invoke_one
Routed-get_short_addr e s = refl

Routed-get_panid : Routed Desc.get_panid get_panid
unfolding dispatch_ns invoke_one
Routed-get_panid e s = refl

Routed-get_channel : Routed Desc.get_channel get_channel
unfolding dispatch_ns invoke_one
Routed-get_channel e s = refl

Routed-open_network : Routed Desc.open_network open_network
unfolding dispatch_ns invoke_one
Routed-open_network e s = refl

Routed-wait_annce : Routed Desc.wait_annce wait_annce
unfolding dispatch_ns invoke_one
Routed-wait_annce e s = refl

Routed-find_sensor : Routed Desc.find_sensor find_sensor
unfolding dispatch_ns invoke_one
Routed-find_sensor e s = refl

Routed-read_basic : Routed Desc.read_basic read_basic
unfolding dispatch_ns invoke_one
Routed-read_basic e s = refl

Routed-bind_sensor : Routed Desc.bind_sensor bind_sensor
unfolding dispatch_ns invoke_one
Routed-bind_sensor e s = refl

Routed-subscribe_sensor : Routed Desc.subscribe_sensor subscribe_sensor
unfolding dispatch_ns invoke_one
Routed-subscribe_sensor e s = refl

Routed-config_report : Routed Desc.config_report config_report
unfolding dispatch_ns invoke_one
Routed-config_report e s = refl

Routed-read_temp : Routed Desc.read_temp read_temp
unfolding dispatch_ns invoke_one
Routed-read_temp e s = refl

Routed-get_last_temp : Routed Desc.get_last_temp get_last_temp
unfolding dispatch_ns invoke_one
Routed-get_last_temp e s = refl

read_basic-fits : (addr : ZbAddr) (s : Sim) → zb_basic.fits (read_basic addr s).0 ≡ true
unfolding read_basic
read_basic-fits addr s = elim (Bool-cases (from_le16 addr.short_addr == g_sensor_short)) [
  | inl here ↦ rw here refl
  | inr other ↦ rw other refl
]

link-IsSame : IsSame Follows link_api local_api
link-IsSame = record {
  get_short_addr = λ k s h.
      over_link_empty-Same Desc.get_short_addr get_short_addr get_short_addr-IsDesc
        Routed-get_short_addr k s refl refl (λ t. refl) h;
  get_panid = λ k s h.
      over_link_empty-Same Desc.get_panid get_panid get_panid-IsDesc Routed-get_panid k s refl refl
        (λ t. refl) h;
  get_channel = λ k s h.
      over_link_empty-Same Desc.get_channel get_channel get_channel-IsDesc Routed-get_channel k s
        refl refl (λ t. refl) h;
  open_network = λ r k s h.
      over_link-Same Desc.open_network open_network open_network-IsDesc Routed-open_network r k s
        refl (λ t. refl) h;
  wait_annce = λ k s h.
      over_link_empty-Same Desc.wait_annce wait_annce wait_annce-IsDesc Routed-wait_annce k s refl
        refl (λ t. refl) h;
  find_sensor = λ r k s h.
      over_link-Same Desc.find_sensor find_sensor find_sensor-IsDesc Routed-find_sensor r k s refl
        (λ t. refl) h;
  read_basic = λ r k s h.
      over_link-Same Desc.read_basic read_basic read_basic-IsDesc Routed-read_basic r k s refl
        (read_basic-fits r) h;
  bind_sensor = λ r k s h.
      over_link-Same Desc.bind_sensor bind_sensor bind_sensor-IsDesc Routed-bind_sensor r k s refl
        (λ t. refl) h;
  subscribe_sensor = λ r k s h.
      over_link-Same Desc.subscribe_sensor subscribe_sensor subscribe_sensor-IsDesc
        Routed-subscribe_sensor r k s refl (λ t. refl) h;
  config_report = λ r k s h.
      over_link-Same Desc.config_report config_report config_report-IsDesc Routed-config_report r k
        s refl (λ t. refl) h;
  read_temp = λ r k s h.
      over_link-Same Desc.read_temp read_temp read_temp-IsDesc Routed-read_temp r k s refl
        (λ t. refl) h;
  get_last_temp = λ k s h.
      over_link_empty-Same Desc.get_last_temp get_last_temp get_last_temp-IsDesc
        Routed-get_last_temp k s refl refl (λ t. refl) h;
  close = λ k s h. h;
}

local_status : (s : Sim) → (session local_api s).0.0 ≡ 0
unfolding session commission join find inspect subscribe read_temps read_attrs attempt after say
    note get_short_addr get_panid get_channel open_network wait_annce find_sensor read_basic
    bind_sensor subscribe_sensor config_report read_temp get_last_temp to_le16 from_le16 to_le32
    to_le32_s from_le32 from_le32_s
local_status s = refl

-- Over a connection whose ends have read all that was sent and whose writes succeed, the desktop
-- client reports what it would report on the coordinator's handlers without a wire, and leaves the
-- coordinator in the same state; both ends are again as before the first call. In whatever state
-- the coordinator is, the client's exit status is 0.
pub session_over_link :
    (k : Link) (s : Sim)
    → Follows k s
    → Same Follows (session link_api k) (session local_api s) × ((session link_api k).0.0 ≡ 0)
session_over_link k s h =
    let agreed = session-Same Follows link_api local_api link-IsSame k s h in
    (agreed, ap (λ (r : Report). r.0) agreed.0 ∙ local_status s)
