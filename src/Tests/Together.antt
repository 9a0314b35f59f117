-- ===== src/Tests/Together.antt =====
-- Both ends together, on a firmware whose state is a clock.
use zigbee_remote.Prelude.{ℕ, ◌≡◌, refl, true, [], arith}
use zigbee_remote.Prelude.Int.{pos}
use zigbee_remote.Fd.{Fd}
use zigbee_remote.Fd.Stream.{stream}
use zigbee_remote.Protocol.Codes.{ErrorCode}
use zigbee_remote.Client.{attached}
use zigbee_remote.Thermostat.{run}
use zigbee_remote.Pipe.{Pipe, pipe_api, served_api}
use zigbee_remote.Pipe.Call.{IsSynced}
use zigbee_remote.Pipe.Typed.{IsTyped}
use zigbee_remote.Pipe.Api.{run_over_pipe}
use zigbee_remote.Tests.Fixture.{toy, at_start}

abbrev quiet : Fd
quiet = record { arrivals = []; grants = []; sent = [] }

abbrev pipe : Pipe ℕ
pipe = record {
  client = record { g_fd = pos 5; fd = quiet };
  engine = record { fd = quiet; last_error = ErrorCode.none };
  server = at_start;
}

toy-IsTyped : IsTyped toy
toy-IsTyped = record {
  get_panid = λ w. omega arith;
  get_sensor_addr = λ w. omega arith;
  open_network = λ d w. omega arith;
  wait_annce = λ t w. omega arith;
  find_sensor = λ a t w h. (omega arith, h);
  read_basic = λ a ep t w. (omega arith, refl, refl);
  bind_sensor = λ a ep t w. omega arith;
  subscribe_sensor = λ a ep t w. omega arith;
  config_report = λ a ep t w. omega arith;
  read_temp = λ a ep t w. (omega arith, omega arith, omega arith, omega arith, omega arith);
  get_last_temp = λ w. omega arith;
}

pipe-IsSynced : IsSynced pipe
unfolding stream attached
pipe-IsSynced = record {
  is_attached = refl;
  client_open = tt;
  server_open = tt;
  client_read = refl;
  server_read = refl;
}

run_over_pipe_example :
    ((run (pipe_api toy) true pipe).0 ≡ (run (served_api toy) true at_start).0)
    × ((run (pipe_api toy) true pipe).1.server ≡ (run (served_api toy) true at_start).1)
    × IsSynced (run (pipe_api toy) true pipe).1
run_over_pipe_example = run_over_pipe toy toy-IsTyped true pipe pipe-IsSynced
