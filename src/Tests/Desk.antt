-- ===== src/Tests/Desk.antt =====
-- The desktop client on concrete connections.
use zigbee_remote.Prelude.{◌≡◌, refl, true, some, [], ◌∷◌}
use zigbee_remote.Fd.{Fd}
use zigbee_remote.Fd.Stream.{stream}
use zigbee_remote.Protocol.Codes.{ErrorCode}
use zigbee_remote.Main.Connect.{kept}
use zigbee_remote.Simulator.{at_boot}
use zigbee_remote.Desktop.{ConnectAnswers, session, rpc_connect, main}
use zigbee_remote.Desktop.Same.{Same}
use zigbee_remote.Desktop.Closed.{main_closes}
use zigbee_remote.Desktop.Link.{Link, link_api, local_api}
use zigbee_remote.Desktop.Link.Call.{IsLinked, Follows}
use zigbee_remote.Desktop.Link.Agree.{session_over_link}

abbrev quiet : Fd
quiet = record { arrivals = []; grants = []; sent = [] }

abbrev link : Link
link = record {
  client = record { fd = quiet; last_error = ErrorCode.none };
  engine = record { fd = quiet; last_error = ErrorCode.none };
  world = at_boot;
}

link-IsLinked : IsLinked link
unfolding stream
link-IsLinked = record {
  client_open = tt;
  server_open = tt;
  client_read = refl;
  server_read = refl;
}

session_over_link_example :
    Same Follows (session link_api link) (session local_api at_boot)
    × ((session link_api link).0.0 ≡ 0)
session_over_link_example = session_over_link link at_boot (link-IsLinked, refl)

-- A server that closes the connection at once.
abbrev answers : ConnectAnswers
answers = record { made = some 3; valid_host = true; connected = some quiet }

main_closes_example :
    ((rpc_connect answers (7 ∷ [])).1 ≡ kept (rpc_connect answers (7 ∷ [])).0 (7 ∷ []))
    × ((main answers (7 ∷ [])).1 ≡ 7 ∷ [])
main_closes_example = main_closes answers (7 ∷ [])
