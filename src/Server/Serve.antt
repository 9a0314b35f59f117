-- ===== src/Server/Serve.antt =====
-- `serve_client` of zb_rpc_server/main/rpc_server.cpp.
use zigbee_remote.Prelude.{ℕ, zero, suc, Bool, true, false, Option, none, some}
use zigbee_remote.Prelude.Int.{pos, negsuc}
use zigbee_remote.Fd.{Fd}
use zigbee_remote.Fd.Backlog.{backlog}
use zigbee_remote.Protocol.Codes.{ErrorCode}
use zigbee_remote.Engine.{Engine, receive_header}
use zigbee_remote.Engine.Rpc.{report_error}
use zigbee_remote.Server.Handlers.{Firmware, Server, firmware_call}
use zigbee_remote.Server.Dispatch.{dispatch}

module _ {W : Type 0} (fw : Firmware W) where
  -- One frame: the header, or the error report that ends the connection, and the dispatch.
  unfoldable pub serve_frame : Engine → Server W → Bool × Engine × Server W
  serve_frame e s =
      let (header, e') = receive_header e in
      elim header [ none ↦ (false, report_error e', s) | some h ↦ dispatch fw h e' s ]

  -- `while (ppp_uart_is_connected())`; `none` means that the fuel ran out.
  unfoldable pub serve_loop : ℕ → Engine → Server W → Option (Engine × Server W)
  unfolding serve_frame
  serve_loop zero e s = none
  serve_loop (suc fuel) e s =
      let (up, s1) = firmware_call fw.ppp_uart_is_connected s in
      elim up [
        | false ↦ some (e, s1)
        | true ↦
            let (goes_on, e2, s2) = serve_frame e s1 in
            elim goes_on [ false ↦ some (e2, s2) | true ↦ serve_loop fuel e2 s2 ]
      ]

  -- The fuel is more than the bytes that can still arrive, and each frame takes twelve at least.
  unfoldable pub serve_client : ℕ → Fd → Server W → Option (Engine × Server W)
  unfolding serve_loop
  serve_client client_fd fd s =
      let served =
        serve_loop (suc (backlog fd.arrivals)) (record { fd = fd; last_error = ErrorCode.none })
          (record s { s_client_fd = pos client_fd }) in
      elim served [ none ↦ none | some (e, s') ↦ some (e, record s' { s_client_fd = negsuc 0 }) ]
