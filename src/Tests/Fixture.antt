-- ===== src/Tests/Fixture.antt =====
-- A firmware whose whole state is a clock in milliseconds, and descriptors to serve it over.
use zigbee_remote.Prelude.{ℕ, ◌+◌, true, List, [], ◌∷◌, replicate, take, drop}
use zigbee_remote.Prelude.Int.{pos, negsuc}
use zigbee_remote.Fd.{Arrival, segment, Fd}
use zigbee_remote.Protocol.Codes.{ErrorCode}
use zigbee_remote.Engine.{Engine}
use zigbee_remote.Zigbee.{ZigbeeApi}
use zigbee_remote.Client.{Client}
use zigbee_remote.Server.Handlers.{Firmware, Server, Peek}

-- Nobody announces itself, and every sensor answers.
abbrev pub toy_api : ZigbeeApi ℕ
toy_api = record {
  get_short_addr = λ w. (0, w);
  get_panid = λ w. (0x1A62, w);
  get_channel = λ w. (15, w);
  get_sensor_addr = λ w. (0x4F2A, w);
  open_network = λ duration w. (pos 0, w);
  wait_annce = λ timeout_ms w. (0, w + timeout_ms);
  find_sensor =
      λ short_addr timeout_ms w. (record { err = pos 0; short_addr = short_addr; ep = 1 }, w + 3);
  read_basic = λ short_addr ep timeout_ms w.
      (record { err = pos 0; manufacturer = replicate 16 65; model = replicate 16 66 }, w + 5);
  bind_sensor = λ short_addr ep timeout_ms w. (pos 0, w);
  subscribe_sensor = λ short_addr ep timeout_ms w. (pos 0, w);
  config_report = λ short_addr ep timeout_ms w. (pos 0, w);
  read_temp = λ short_addr ep timeout_ms w. (
    record {
      err = pos 0;
      measured = pos 2150;
      min_measured = negsuc 3999;
      max_measured = pos 8500;
      tolerance = pos 20;
    },
    w + 7,
  );
  get_last_temp = λ w. (negsuc 249, w);
}

abbrev pub toy : Firmware ℕ
toy = record {
  zigbee = toy_api;
  ppp_uart_is_connected = λ w. (true, w);
  peek = λ w. (Peek.again, w);
}

abbrev pub at_start : Server ℕ
at_start = record { s_client_fd = negsuc 0; world = 100 }

-- The bytes come in three pieces, with an interrupted call between them.
abbrev pub in_pieces : List ℕ → List Arrival
in_pieces bytes =
    segment (take 1 bytes)
    ∷ Arrival.interrupted
    ∷ segment (take 6 (drop 1 bytes))
    ∷ segment (drop 7 bytes)
    ∷ []

abbrev pub fd_of : List ℕ → Fd
fd_of bytes = record { arrivals = in_pieces bytes; grants = []; sent = [] }

abbrev pub engine_of : List ℕ → Engine
engine_of bytes = record { fd = fd_of bytes; last_error = ErrorCode.none }

abbrev pub client_of : List ℕ → Client
client_of bytes = record { g_fd = pos 5; fd = fd_of bytes }
