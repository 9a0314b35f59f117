-- ===== src/Pipe/Api.antt =====
-- The client's API over the pipe agrees with the firmware's API behind the server, and so does the
-- commissioning sequence of zb_rpc_client/include/thermostat_app.hpp over it.
use zigbee_remote.Prelude.{◌≡◌, refl, Bool}
use zigbee_remote.Server.Handlers.{Firmware}
use zigbee_remote.Thermostat.{run}
use zigbee_remote.Thermostat.Simulation.{Simulates}
use zigbee_remote.Thermostat.Agreement.{run-Matches}
use zigbee_remote.Pipe.{Pipe, pipe_api, served_api}
use zigbee_remote.Pipe.Call.{IsSynced}
use zigbee_remote.Pipe.Typed.{IsTyped, Follows}
use zigbee_remote.Pipe.Calls.{
  get_panid-Matches, get_channel-Matches, get_sensor_addr-Matches, open_network-Matches,
  wait_annce-Matches, find_sensor-Matches, read_basic-Matches, bind_sensor-Matches,
  subscribe_sensor-Matches, config_report-Matches, read_temp-Matches, get_last_temp-Matches,
}

module _ {W : Type 0} (fw : Firmware W) (typed : IsTyped fw) where
  pub pipe_api-Simulates : Simulates (Follows fw typed) (pipe_api fw) (served_api fw)
  pipe_api-Simulates = record {
    get_panid = get_panid-Matches fw typed;
    get_channel = get_channel-Matches fw typed;
    get_sensor_addr = get_sensor_addr-Matches fw typed;
    open_network = open_network-Matches fw typed;
    wait_annce = wait_annce-Matches fw typed;
    find_sensor = find_sensor-Matches fw typed;
    read_basic = read_basic-Matches fw typed;
    bind_sensor = bind_sensor-Matches fw typed;
    subscribe_sensor = subscribe_sensor-Matches fw typed;
    config_report = config_report-Matches fw typed;
    read_temp = read_temp-Matches fw typed;
    get_last_temp = get_last_temp-Matches fw typed;
  }

  -- Over a connection whose ends have read all that was sent and whose writes succeed, to a server
  -- whose firmware returns values of its C types, the commissioning sequence over the client's RPC
  -- functions ends as it would directly over the firmware's functions as the server calls them,
  -- whether it probes the cached sensor or not: with the same result, and with the server in the
  -- same state; both ends are again as before the first call. In between each call of the client
  -- is answered by one round of the server.
  pub run_over_pipe :
      (probe_cached_sensor : Bool) (k : Pipe W)
      → IsSynced k
      → ((run (pipe_api fw) probe_cached_sensor k).0
          ≡ (run (served_api fw) probe_cached_sensor k.server).0)
        × ((run (pipe_api fw) probe_cached_sensor k).1.server
            ≡ (run (served_api fw) probe_cached_sensor k.server).1)
        × IsSynced (run (pipe_api fw) probe_cached_sensor k).1
  run_over_pipe probe_cached_sensor k synced =
      let (same, any, follows) =
        run-Matches (Follows fw typed) (pipe_api fw) (served_api fw) pipe_api-Simulates
          probe_cached_sensor k k.server (synced, refl) in
      (same, follows.1, follows.0)
