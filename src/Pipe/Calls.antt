-- ===== src/Pipe/Calls.antt =====
-- Each call of zb_rpc_client/include/zigbee_api.h over the pipe, against the firmware's behind the
-- server.
use zigbee_remote.Prelude.{ℕ, ◌^◌, ◌<◌, refl, []}
use zigbee_remote.Prelude.WellFounded.{lt_wf}
use zigbee_remote.Protocol.Endian.{to_le16}
use zigbee_remote.Protocol.Desc
use zigbee_remote.Protocol.Desc.{
  RpcDesc, get_panid-IsDesc, get_channel-IsDesc, get_sensor_addr-IsDesc, open_network-IsDesc,
  find_sensor-IsDesc, read_basic-IsDesc, bind_sensor-IsDesc, subscribe_sensor-IsDesc,
  config_report-IsDesc, read_temp-IsDesc, get_last_temp-IsDesc, wait_annce-IsDesc,
}
use zigbee_remote.Server.Handlers.{
  Firmware, Server, firmware_call, annce_loop, k_annce_timeout_ms, k_rpc_timeout_ms,
  handle_get_panid, handle_get_channel, handle_get_sensor_addr, handle_open_network,
  handle_wait_annce, handle_find_sensor, handle_read_basic, handle_bind_sensor,
  handle_subscribe_sensor, handle_config_report, handle_read_temp, handle_get_last_temp,
}
use zigbee_remote.Client.{
  to_wire, zigbee_get_panid, zigbee_get_channel, zigbee_get_sensor_addr, zigbee_open_network,
  zigbee_wait_annce, zigbee_find_sensor, zigbee_read_basic, zigbee_bind_sensor,
  zigbee_subscribe_sensor, zigbee_config_report, zigbee_read_temp, zigbee_get_last_temp,
}
use zigbee_remote.Client.Sensors.{find_sensor_remote, read_basic_remote, read_temp_remote}
use zigbee_remote.Client.Queries.{
  get_panid_remote, get_channel_remote, get_sensor_addr_remote, open_network_remote,
  wait_annce_remote, get_last_temp_remote,
}
use zigbee_remote.Client.Commands.{
  bind_sensor_remote, subscribe_sensor_remote, config_report_remote,
}
use zigbee_remote.Thermostat.{k_request_timeout_ms}
use zigbee_remote.Thermostat.Simulation.{Matches, Any, IsShort, AddrIsShort}
use zigbee_remote.Pipe.{Pipe, over_pipe}
use zigbee_remote.Pipe.Call.{over_pipe-Answered, request_of-rpc, request_of-rpc_empty}
use zigbee_remote.Pipe.Typed.{IsTyped, Follows, Answered-Matches, annce_loop-short}

module _ {W : Type 0} (fw : Firmware W) (typed : IsTyped fw) where
  pub get_panid-Matches :
      (k : Pipe W) (s : Server W)
      → Follows fw typed k s
      → Matches
          (Follows fw typed)
          (Any (Follows fw typed))
          (over_pipe fw zigbee_get_panid k)
          (firmware_call fw.zigbee.get_panid s)
  unfolding zigbee_get_panid
  get_panid-Matches k s (synced, same) =
      Answered-Matches fw typed Desc.get_panid (handle_get_panid fw) (record {}) zigbee_get_panid
        (firmware_call fw.zigbee.get_panid) (Any (Follows fw typed)) k s same
        (over_pipe-Answered fw Desc.get_panid (handle_get_panid fw) (record {}) zigbee_get_panid
          (firmware_call fw.zigbee.get_panid) k synced
          (request_of-rpc_empty Desc.get_panid get_panid-IsDesc _ _ k.client refl refl
            synced.is_attached synced.client_open)
          (λ c e linked.
            get_panid_remote fw c e k.server [] [] (typed.get_panid k.server.world) linked))
        tt

  pub get_channel-Matches :
      (k : Pipe W) (s : Server W)
      → Follows fw typed k s
      → Matches
          (Follows fw typed)
          (Any (Follows fw typed))
          (over_pipe fw zigbee_get_channel k)
          (firmware_call fw.zigbee.get_channel s)
  unfolding zigbee_get_channel
  get_channel-Matches k s (synced, same) =
      Answered-Matches fw typed Desc.get_channel (handle_get_channel fw) (record {})
        zigbee_get_channel (firmware_call fw.zigbee.get_channel) (Any (Follows fw typed)) k s same
        (over_pipe-Answered fw Desc.get_channel (handle_get_channel fw) (record {})
          zigbee_get_channel (firmware_call fw.zigbee.get_channel) k synced
          (request_of-rpc_empty Desc.get_channel get_channel-IsDesc _ _ k.client refl refl
            synced.is_attached synced.client_open)
          (λ c e linked. get_channel_remote fw c e k.server [] [] linked))
        tt

  pub get_sensor_addr-Matches :
      (k : Pipe W) (s : Server W)
      → Follows fw typed k s
      → Matches
          (Follows fw typed)
          (IsShort (Follows fw typed))
          (over_pipe fw zigbee_get_sensor_addr k)
          (firmware_call fw.zigbee.get_sensor_addr s)
  unfolding zigbee_get_sensor_addr
  get_sensor_addr-Matches k s (synced, same) =
      Answered-Matches fw typed Desc.get_sensor_addr (handle_get_sensor_addr fw) (record {})
        zigbee_get_sensor_addr (firmware_call fw.zigbee.get_sensor_addr)
        (IsShort (Follows fw typed)) k s same
        (over_pipe-Answered fw Desc.get_sensor_addr (handle_get_sensor_addr fw) (record {})
          zigbee_get_sensor_addr (firmware_call fw.zigbee.get_sensor_addr) k synced
          (request_of-rpc_empty Desc.get_sensor_addr get_sensor_addr-IsDesc _ _ k.client refl refl
            synced.is_attached synced.client_open)
          (λ c e linked.
            get_sensor_addr_remote fw c e k.server [] [] (typed.get_sensor_addr k.server.world)
              linked))
        (typed.get_sensor_addr k.server.world)

  pub open_network-Matches :
      (d : ℕ) (k : Pipe W) (s : Server W)
      → Follows fw typed k s
      → Matches
          (Follows fw typed)
          (Any (Follows fw typed))
          (over_pipe fw (zigbee_open_network d) k)
          (firmware_call (fw.zigbee.open_network d) s)
  unfolding zigbee_open_network
  open_network-Matches d k s (synced, same) =
      Answered-Matches fw typed Desc.open_network (handle_open_network fw) (record { duration = d })
        (zigbee_open_network d) (firmware_call (fw.zigbee.open_network d)) (Any (Follows fw typed))
        k s same
        (over_pipe-Answered fw Desc.open_network (handle_open_network fw) (record { duration = d })
          (zigbee_open_network d) (firmware_call (fw.zigbee.open_network d)) k synced
          (request_of-rpc Desc.open_network open_network-IsDesc _ _ (record { duration = d })
            k.client refl synced.is_attached synced.client_open)
          (λ c e linked.
            open_network_remote fw d c e k.server [] [] (typed.open_network d k.server.world)
              linked))
        tt

  pub wait_annce-Matches :
      (k : Pipe W) (s : Server W)
      → Follows fw typed k s
      → Matches
          (Follows fw typed)
          (IsShort (Follows fw typed))
          (over_pipe fw (zigbee_wait_annce k_annce_timeout_ms) k)
          (annce_loop fw k_annce_timeout_ms (lt_wf.apply k_annce_timeout_ms) s)
  unfolding zigbee_wait_annce
  wait_annce-Matches k s (synced, same) =
      Answered-Matches fw typed Desc.wait_annce (handle_wait_annce fw) (record {})
        (zigbee_wait_annce k_annce_timeout_ms)
        (annce_loop fw k_annce_timeout_ms (lt_wf.apply k_annce_timeout_ms))
        (IsShort (Follows fw typed)) k s same
        (over_pipe-Answered fw Desc.wait_annce (handle_wait_annce fw) (record {})
          (zigbee_wait_annce k_annce_timeout_ms)
          (annce_loop fw k_annce_timeout_ms (lt_wf.apply k_annce_timeout_ms)) k synced
          (request_of-rpc_empty Desc.wait_annce wait_annce-IsDesc _ _ k.client refl refl
            synced.is_attached synced.client_open)
          (λ c e linked.
            wait_annce_remote fw k_annce_timeout_ms c e k.server [] []
              (annce_loop-short fw typed k_annce_timeout_ms (lt_wf.apply k_annce_timeout_ms)
                k.server)
              linked))
        (annce_loop-short fw typed k_annce_timeout_ms (lt_wf.apply k_annce_timeout_ms) k.server)

  pub find_sensor-Matches :
      (a : ℕ) (k : Pipe W) (s : Server W)
      → a < 2 ^ 16
      → Follows fw typed k s
      → Matches
          (Follows fw typed)
          (AddrIsShort (Follows fw typed))
          (over_pipe fw (zigbee_find_sensor a k_request_timeout_ms) k)
          (firmware_call (fw.zigbee.find_sensor a k_rpc_timeout_ms) s)
  unfolding zigbee_find_sensor
  find_sensor-Matches a k s small (synced, same) =
      Answered-Matches fw typed Desc.find_sensor (handle_find_sensor fw)
        (record { short_addr = to_le16 a }) (zigbee_find_sensor a k_request_timeout_ms)
        (firmware_call (fw.zigbee.find_sensor a k_rpc_timeout_ms)) (AddrIsShort (Follows fw typed))
        k s same
        (over_pipe-Answered fw Desc.find_sensor (handle_find_sensor fw)
          (record { short_addr = to_le16 a }) (zigbee_find_sensor a k_request_timeout_ms)
          (firmware_call (fw.zigbee.find_sensor a k_rpc_timeout_ms)) k synced
          (request_of-rpc Desc.find_sensor find_sensor-IsDesc _ _
            (record { short_addr = to_le16 a }) k.client refl synced.is_attached synced.client_open)
          (λ c e linked.
            find_sensor_remote fw a k_request_timeout_ms c e k.server [] [] small
              (typed.find_sensor a k_rpc_timeout_ms k.server.world small) linked))
        (typed.find_sensor a k_rpc_timeout_ms k.server.world small).1

  pub read_basic-Matches :
      (a ep : ℕ) (k : Pipe W) (s : Server W)
      → a < 2 ^ 16
      → Follows fw typed k s
      → Matches
          (Follows fw typed)
          (Any (Follows fw typed))
          (over_pipe fw (zigbee_read_basic a ep k_request_timeout_ms) k)
          (firmware_call (fw.zigbee.read_basic a ep k_rpc_timeout_ms) s)
  unfolding zigbee_read_basic
  read_basic-Matches a ep k s small (synced, same) =
      Answered-Matches fw typed Desc.read_basic (handle_read_basic fw) (to_wire a ep)
        (zigbee_read_basic a ep k_request_timeout_ms)
        (firmware_call (fw.zigbee.read_basic a ep k_rpc_timeout_ms)) (Any (Follows fw typed)) k s
        same
        (over_pipe-Answered fw Desc.read_basic (handle_read_basic fw) (to_wire a ep)
          (zigbee_read_basic a ep k_request_timeout_ms)
          (firmware_call (fw.zigbee.read_basic a ep k_rpc_timeout_ms)) k synced
          (request_of-rpc Desc.read_basic read_basic-IsDesc _ _ (to_wire a ep) k.client refl
            synced.is_attached synced.client_open)
          (λ c e linked.
            read_basic_remote fw a ep k_request_timeout_ms c e k.server [] [] small
              (typed.read_basic a ep k_rpc_timeout_ms k.server.world) linked))
        tt

  pub bind_sensor-Matches :
      (a ep : ℕ) (k : Pipe W) (s : Server W)
      → a < 2 ^ 16
      → Follows fw typed k s
      → Matches
          (Follows fw typed)
          (Any (Follows fw typed))
          (over_pipe fw (zigbee_bind_sensor a ep k_request_timeout_ms) k)
          (firmware_call (fw.zigbee.bind_sensor a ep k_rpc_timeout_ms) s)
  unfolding zigbee_bind_sensor
  bind_sensor-Matches a ep k s small (synced, same) =
      Answered-Matches fw typed Desc.bind_sensor (handle_bind_sensor fw) (to_wire a ep)
        (zigbee_bind_sensor a ep k_request_timeout_ms)
        (firmware_call (fw.zigbee.bind_sensor a ep k_rpc_timeout_ms)) (Any (Follows fw typed)) k s
        same
        (over_pipe-Answered fw Desc.bind_sensor (handle_bind_sensor fw) (to_wire a ep)
          (zigbee_bind_sensor a ep k_request_timeout_ms)
          (firmware_call (fw.zigbee.bind_sensor a ep k_rpc_timeout_ms)) k synced
          (request_of-rpc Desc.bind_sensor bind_sensor-IsDesc _ _ (to_wire a ep) k.client refl
            synced.is_attached synced.client_open)
          (λ c e linked.
            bind_sensor_remote fw a ep k_request_timeout_ms c e k.server [] [] small
              (typed.bind_sensor a ep k_rpc_timeout_ms k.server.world) linked))
        tt

  pub subscribe_sensor-Matches :
      (a ep : ℕ) (k : Pipe W) (s : Server W)
      → a < 2 ^ 16
      → Follows fw typed k s
      → Matches
          (Follows fw typed)
          (Any (Follows fw typed))
          (over_pipe fw (zigbee_subscribe_sensor a ep k_request_timeout_ms) k)
          (firmware_call (fw.zigbee.subscribe_sensor a ep k_rpc_timeout_ms) s)
  unfolding zigbee_subscribe_sensor
  subscribe_sensor-Matches a ep k s small (synced, same) =
      Answered-Matches fw typed Desc.subscribe_sensor (handle_subscribe_sensor fw) (to_wire a ep)
        (zigbee_subscribe_sensor a ep k_request_timeout_ms)
        (firmware_call (fw.zigbee.subscribe_sensor a ep k_rpc_timeout_ms)) (Any (Follows fw typed))
        k s same
        (over_pipe-Answered fw Desc.subscribe_sensor (handle_subscribe_sensor fw) (to_wire a ep)
          (zigbee_subscribe_sensor a ep k_request_timeout_ms)
          (firmware_call (fw.zigbee.subscribe_sensor a ep k_rpc_timeout_ms)) k synced
          (request_of-rpc Desc.subscribe_sensor subscribe_sensor-IsDesc _ _ (to_wire a ep) k.client
            refl synced.is_attached synced.client_open)
          (λ c e linked.
            subscribe_sensor_remote fw a ep k_request_timeout_ms c e k.server [] [] small
              (typed.subscribe_sensor a ep k_rpc_timeout_ms k.server.world) linked))
        tt

  pub config_report-Matches :
      (a ep : ℕ) (k : Pipe W) (s : Server W)
      → a < 2 ^ 16
      → Follows fw typed k s
      → Matches
          (Follows fw typed)
          (Any (Follows fw typed))
          (over_pipe fw (zigbee_config_report a ep k_request_timeout_ms) k)
          (firmware_call (fw.zigbee.config_report a ep k_rpc_timeout_ms) s)
  unfolding zigbee_config_report
  config_report-Matches a ep k s small (synced, same) =
      Answered-Matches fw typed Desc.config_report (handle_config_report fw) (to_wire a ep)
        (zigbee_config_report a ep k_request_timeout_ms)
        (firmware_call (fw.zigbee.config_report a ep k_rpc_timeout_ms)) (Any (Follows fw typed)) k s
        same
        (over_pipe-Answered fw Desc.config_report (handle_config_report fw) (to_wire a ep)
          (zigbee_config_report a ep k_request_timeout_ms)
          (firmware_call (fw.zigbee.config_report a ep k_rpc_timeout_ms)) k synced
          (request_of-rpc Desc.config_report config_report-IsDesc _ _ (to_wire a ep) k.client refl
            synced.is_attached synced.client_open)
          (λ c e linked.
            config_report_remote fw a ep k_request_timeout_ms c e k.server [] [] small
              (typed.config_report a ep k_rpc_timeout_ms k.server.world) linked))
        tt

  pub read_temp-Matches :
      (a ep : ℕ) (k : Pipe W) (s : Server W)
      → a < 2 ^ 16
      → Follows fw typed k s
      → Matches
          (Follows fw typed)
          (Any (Follows fw typed))
          (over_pipe fw (zigbee_read_temp a ep k_request_timeout_ms) k)
          (firmware_call (fw.zigbee.read_temp a ep k_rpc_timeout_ms) s)
  unfolding zigbee_read_temp
  read_temp-Matches a ep k s small (synced, same) =
      Answered-Matches fw typed Desc.read_temp (handle_read_temp fw) (to_wire a ep)
        (zigbee_read_temp a ep k_request_timeout_ms)
        (firmware_call (fw.zigbee.read_temp a ep k_rpc_timeout_ms)) (Any (Follows fw typed)) k s
        same
        (over_pipe-Answered fw Desc.read_temp (handle_read_temp fw) (to_wire a ep)
          (zigbee_read_temp a ep k_request_timeout_ms)
          (firmware_call (fw.zigbee.read_temp a ep k_rpc_timeout_ms)) k synced
          (request_of-rpc Desc.read_temp read_temp-IsDesc _ _ (to_wire a ep) k.client refl
            synced.is_attached synced.client_open)
          (λ c e linked.
            read_temp_remote fw a ep k_request_timeout_ms c e k.server [] [] small
              (typed.read_temp a ep k_rpc_timeout_ms k.server.world) linked))
        tt

  pub get_last_temp-Matches :
      (k : Pipe W) (s : Server W)
      → Follows fw typed k s
      → Matches
          (Follows fw typed)
          (Any (Follows fw typed))
          (over_pipe fw zigbee_get_last_temp k)
          (firmware_call fw.zigbee.get_last_temp s)
  unfolding zigbee_get_last_temp
  get_last_temp-Matches k s (synced, same) =
      Answered-Matches fw typed Desc.get_last_temp (handle_get_last_temp fw) (record {})
        zigbee_get_last_temp (firmware_call fw.zigbee.get_last_temp) (Any (Follows fw typed)) k s
        same
        (over_pipe-Answered fw Desc.get_last_temp (handle_get_last_temp fw) (record {})
          zigbee_get_last_temp (firmware_call fw.zigbee.get_last_temp) k synced
          (request_of-rpc_empty Desc.get_last_temp get_last_temp-IsDesc _ _ k.client refl refl
            synced.is_attached synced.client_open)
          (λ c e linked.
            get_last_temp_remote fw c e k.server [] [] (typed.get_last_temp k.server.world) linked))
        tt
