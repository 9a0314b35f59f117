-- ===== src/Server/Catalog.antt =====
-- `dispatch` of zb_rpc_server/main/rpc_server.cpp over the whole call catalog.
use zigbee_remote.Prelude.{ℕ, ◌≡◌}
use zigbee_remote.Protocol.Desc
use zigbee_remote.Protocol.Desc.{RpcDesc}
use zigbee_remote.Engine.{Engine}
use zigbee_remote.Engine.Rpc.{invoke_one}
use zigbee_remote.Server.Handlers.{
  Firmware, Server, handle_get_short_addr, handle_get_panid, handle_get_channel,
  handle_open_network, handle_wait_annce, handle_find_sensor, handle_read_basic, handle_bind_sensor,
  handle_subscribe_sensor, handle_config_report, handle_read_temp, handle_get_last_temp,
  handle_get_sensor_addr,
}
use zigbee_remote.Server.Dispatch.{dispatch}
use zigbee_remote.Server.Routes.{
  settled, Route-get_short_addr, Route-get_panid, Route-get_channel, Route-open_network,
  Route-wait_annce, Route-find_sensor, Route-read_basic, Route-bind_sensor, Route-subscribe_sensor,
  Route-config_report, Route-read_temp, Route-get_last_temp, Route-get_sensor_addr,
}

module _ {W : Type 0} (fw : Firmware W) where
  -- A frame of `desc` of this size, dispatched.
  abbrev pub Routed :
      {Req Resp : Type 0}
      → ℕ
      → Engine
      → Server W
      → RpcDesc Req Resp
      → (Req → Server W → Resp × Server W)
      → Type 0
  Routed size e s desc function =
      dispatch fw (record { id = desc.id; size = size }) e s
      ≡ settled (invoke_one desc function (record { id = desc.id; size = size }) e s)

  -- One equation for each entry of the catalog.
  pub record Catalog (size : ℕ) (e : Engine) (s : Server W) : Type 0 where
    pub get_short_addr : Routed size e s Desc.get_short_addr (handle_get_short_addr fw)
    pub get_panid : Routed size e s Desc.get_panid (handle_get_panid fw)
    pub get_channel : Routed size e s Desc.get_channel (handle_get_channel fw)
    pub open_network : Routed size e s Desc.open_network (handle_open_network fw)
    pub wait_annce : Routed size e s Desc.wait_annce (handle_wait_annce fw)
    pub find_sensor : Routed size e s Desc.find_sensor (handle_find_sensor fw)
    pub read_basic : Routed size e s Desc.read_basic (handle_read_basic fw)
    pub bind_sensor : Routed size e s Desc.bind_sensor (handle_bind_sensor fw)
    pub subscribe_sensor : Routed size e s Desc.subscribe_sensor (handle_subscribe_sensor fw)
    pub config_report : Routed size e s Desc.config_report (handle_config_report fw)
    pub read_temp : Routed size e s Desc.read_temp (handle_read_temp fw)
    pub get_last_temp : Routed size e s Desc.get_last_temp (handle_get_last_temp fw)
    pub get_sensor_addr : Routed size e s Desc.get_sensor_addr (handle_get_sensor_addr fw)

  -- A frame of any of the thirteen calls, whatever size it announces, is dispatched exactly as the
  -- handler of its own call alone would be: the engine and the state are those of that handler,
  -- and the connection is kept if and only if the request was handled.
  pub dispatch-Catalog : (size : ℕ) (e : Engine) (s : Server W) → Catalog size e s
  dispatch-Catalog size e s = record {
    get_short_addr = Route-get_short_addr fw size e s;
    get_panid = Route-get_panid fw size e s;
    get_channel = Route-get_channel fw size e s;
    open_network = Route-open_network fw size e s;
    wait_annce = Route-wait_annce fw size e s;
    find_sensor = Route-find_sensor fw size e s;
    read_basic = Route-read_basic fw size e s;
    bind_sensor = Route-bind_sensor fw size e s;
    subscribe_sensor = Route-subscribe_sensor fw size e s;
    config_report = Route-config_report fw size e s;
    read_temp = Route-read_temp fw size e s;
    get_last_temp = Route-get_last_temp fw size e s;
    get_sensor_addr = Route-get_sensor_addr fw size e s;
  }
