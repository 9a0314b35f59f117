-- ===== src/Desktop/Link.antt =====
-- The desktop client (zb_rpc/src/client.cpp) and the simulated coordinator (zb_rpc/src/server.cpp) at the
-- two ends of one connection. The kernel keeps what is not yet read and adds what the other end writes.
pub mod Call
pub mod Agree
use zigbee_remote.Prelude.{ℕ, Option, some, List, [], length, drop}
use zigbee_remote.Protocol.Payloads.{EmptyReq}
use zigbee_remote.Engine.{Engine}
use zigbee_remote.Pipe.{to_server}
use zigbee_remote.Simulator.{
  Sim, get_short_addr, get_panid, get_channel, open_network, wait_annce, find_sensor, read_basic,
  bind_sensor, subscribe_sensor, config_report, read_temp, get_last_temp,
}
use zigbee_remote.Simulator.Serve.{sim, handle_commands}
use zigbee_remote.Protocol.Desc
use zigbee_remote.Engine.Rpc.{call, call_empty}
use zigbee_remote.Desktop.{DesktopApi}

pub record Link : Type 0 where
  pub client : Engine
  pub engine : Engine
  pub world : Sim

abbrev pub silent : Engine → Engine
silent e = record e { fd = record e.fd { arrivals = [] } }

-- What a call of `function` writes: it writes before it reads.
unfoldable pub request_of : {A : Type 0} → (Engine → A × Engine) → Engine → List ℕ
request_of function e = drop (length e.fd.sent) (function (silent e)).1.fd.sent

-- One call of the client over one round of the server.
unfoldable pub over_link : {A : Type 0} → (Engine → A × Engine) → Link → A × Link
unfolding request_of
over_link function k =
    let served = handle_commands sim (to_server (request_of function k.client) k.engine) k.world in
    let response = drop (length k.engine.fd.sent) served.1.fd.sent in
    let (a, c) = function (to_server response k.client) in
    (a, record { client = c; engine = served.1; world = served.2 })

-- The link has no descriptors, and a close does nothing to it.
abbrev pub link_api : DesktopApi Link
link_api = record {
  get_short_addr = over_link (call_empty Desc.get_short_addr);
  get_panid = over_link (call_empty Desc.get_panid);
  get_channel = over_link (call_empty Desc.get_channel);
  open_network = λ r. over_link (call Desc.open_network r);
  wait_annce = over_link (call_empty Desc.wait_annce);
  find_sensor = λ r. over_link (call Desc.find_sensor r);
  read_basic = λ r. over_link (call Desc.read_basic r);
  bind_sensor = λ r. over_link (call Desc.bind_sensor r);
  subscribe_sensor = λ r. over_link (call Desc.subscribe_sensor r);
  config_report = λ r. over_link (call Desc.config_report r);
  read_temp = λ r. over_link (call Desc.read_temp r);
  get_last_temp = over_link (call_empty Desc.get_last_temp);
  close = λ k. k;
}

-- A handler as a call that never fails.
abbrev pub direct : {Resp : Type 0} → Resp × Sim → Option Resp × Sim
direct (r, s) = (some r, s)

-- The functions of `namespace sim` without a wire.
abbrev pub local_api : DesktopApi Sim
local_api = record {
  get_short_addr = λ s. direct (get_short_addr (record {}) s);
  get_panid = λ s. direct (get_panid (record {}) s);
  get_channel = λ s. direct (get_channel (record {}) s);
  open_network = λ r s. direct (open_network r s);
  wait_annce = λ s. direct (wait_annce (record {}) s);
  find_sensor = λ r s. direct (find_sensor r s);
  read_basic = λ r s. direct (read_basic r s);
  bind_sensor = λ r s. direct (bind_sensor r s);
  subscribe_sensor = λ r s. direct (subscribe_sensor r s);
  config_report = λ r s. direct (config_report r s);
  read_temp = λ r s. direct (read_temp r s);
  get_last_temp = λ s. direct (get_last_temp (record {}) s);
  close = λ s. s;
}
