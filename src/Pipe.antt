-- ===== src/Pipe.antt =====
-- The two ends together: a function of zb_rpc_client/include/zigbee_api.h on one end of a connection,
-- one round of `serve_client` of zb_rpc_server/main/rpc_server.cpp on the other. The kernel keeps what
-- is not yet read and adds what the other end writes.
pub mod Call
pub mod Typed
pub mod Calls
pub mod Api
use zigbee_remote.Prelude.{ℕ, List, [], ◌∷◌, ◌++◌, length, drop}
use zigbee_remote.Fd.{Fd, segment}
use zigbee_remote.Fd.Stream.{incoming}
use zigbee_remote.Engine.{Engine}
use zigbee_remote.Zigbee.{ZigbeeApi}
use zigbee_remote.Prelude.WellFounded.{lt_wf}
use zigbee_remote.Server.Handlers.{
  Firmware, Server, firmware_call, annce_loop, k_annce_timeout_ms, k_rpc_timeout_ms,
}
use zigbee_remote.Server.Serve.{serve_frame}
use zigbee_remote.Client.{
  Client, zigbee_get_short_addr, zigbee_get_panid, zigbee_get_channel, zigbee_get_sensor_addr,
  zigbee_open_network, zigbee_wait_annce, zigbee_find_sensor, zigbee_read_basic, zigbee_bind_sensor,
  zigbee_subscribe_sensor, zigbee_config_report, zigbee_read_temp, zigbee_get_last_temp,
}

pub record Pipe (W : Type 0) : Type 0 where
  pub client : Client
  pub engine : Engine
  pub server : Server W

-- `bytes` come in behind what is not yet read.
abbrev pub arriving : List ℕ → Fd → Fd
arriving bytes fd = record fd { arrivals = segment (incoming fd ++ bytes) ∷ [] }

abbrev pub to_client : List ℕ → Client → Client
to_client bytes c = record c { fd = arriving bytes c.fd }

abbrev pub to_server : List ℕ → Engine → Engine
to_server bytes e = record e { fd = arriving bytes e.fd }

-- The client before anything comes in.
abbrev pub unanswered : Client → Client
unanswered c = record c { fd = record c.fd { arrivals = [] } }

-- What a call of `function` writes: it writes before it reads.
unfoldable pub request_of : {A : Type 0} → (Client → A × Client) → Client → List ℕ
request_of function c = drop (length c.fd.sent) (function (unanswered c)).1.fd.sent

module _ {W : Type 0} (fw : Firmware W) where
  -- The server's round over a request.
  abbrev pub serve_request : List ℕ → Engine → Server W → Engine × Server W
  serve_request request e s = let (_, e', s') = serve_frame fw (to_server request e) s in (e', s')

  unfoldable pub over_pipe : {A : Type 0} → (Client → A × Client) → Pipe W → A × Pipe W
  unfolding request_of
  over_pipe function k =
      let (e, s) = serve_request (request_of function k.client) k.engine k.server in
      let response = drop (length k.engine.fd.sent) e.fd.sent in
      let (a, c) = function (to_client response k.client) in
      (a, record { client = c; engine = e; server = s })

  -- The client's API over the pipe.
  abbrev pub pipe_api : ZigbeeApi (Pipe W)
  pipe_api = record {
    get_short_addr = over_pipe zigbee_get_short_addr;
    get_panid = over_pipe zigbee_get_panid;
    get_channel = over_pipe zigbee_get_channel;
    get_sensor_addr = over_pipe zigbee_get_sensor_addr;
    open_network = λ duration. over_pipe (zigbee_open_network duration);
    wait_annce = λ timeout_ms. over_pipe (zigbee_wait_annce timeout_ms);
    find_sensor = λ short_addr timeout_ms. over_pipe (zigbee_find_sensor short_addr timeout_ms);
    read_basic = λ short_addr ep timeout_ms. over_pipe (zigbee_read_basic short_addr ep timeout_ms);
    bind_sensor =
        λ short_addr ep timeout_ms. over_pipe (zigbee_bind_sensor short_addr ep timeout_ms);
    subscribe_sensor =
        λ short_addr ep timeout_ms. over_pipe (zigbee_subscribe_sensor short_addr ep timeout_ms);
    config_report =
        λ short_addr ep timeout_ms. over_pipe (zigbee_config_report short_addr ep timeout_ms);
    read_temp = λ short_addr ep timeout_ms. over_pipe (zigbee_read_temp short_addr ep timeout_ms);
    get_last_temp = over_pipe zigbee_get_last_temp;
  }

  -- The firmware's API as the server's handlers call it, with the server's own timeouts.
  abbrev pub served_api : ZigbeeApi (Server W)
  served_api = record {
    get_short_addr = firmware_call fw.zigbee.get_short_addr;
    get_panid = firmware_call fw.zigbee.get_panid;
    get_channel = firmware_call fw.zigbee.get_channel;
    get_sensor_addr = firmware_call fw.zigbee.get_sensor_addr;
    open_network = λ duration. firmware_call (fw.zigbee.open_network duration);
    wait_annce = λ timeout_ms. annce_loop fw k_annce_timeout_ms (lt_wf.apply k_annce_timeout_ms);
    find_sensor =
        λ short_addr timeout_ms. firmware_call (fw.zigbee.find_sensor short_addr k_rpc_timeout_ms);
    read_basic = λ short_addr ep timeout_ms.
        firmware_call (fw.zigbee.read_basic short_addr ep k_rpc_timeout_ms);
    bind_sensor = λ short_addr ep timeout_ms.
        firmware_call (fw.zigbee.bind_sensor short_addr ep k_rpc_timeout_ms);
    subscribe_sensor = λ short_addr ep timeout_ms.
        firmware_call (fw.zigbee.subscribe_sensor short_addr ep k_rpc_timeout_ms);
    config_report = λ short_addr ep timeout_ms.
        firmware_call (fw.zigbee.config_report short_addr ep k_rpc_timeout_ms);
    read_temp = λ short_addr ep timeout_ms.
        firmware_call (fw.zigbee.read_temp short_addr ep k_rpc_timeout_ms);
    get_last_temp = firmware_call fw.zigbee.get_last_temp;
  }
