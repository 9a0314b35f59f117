-- ===== src/Server/Rounds.antt =====
-- The three ways in which a round of the loop of `serve_client` goes.
use zigbee_remote.Prelude.{ℕ, suc, ◌≡◌, ap, Bool, true, false, some}
use zigbee_remote.Prelude.Int.{pos, negsuc}
use zigbee_remote.Fd.{Fd}
use zigbee_remote.Fd.Backlog.{backlog}
use zigbee_remote.Protocol.Codes.{ErrorCode}
use zigbee_remote.Engine.{Engine}
use zigbee_remote.Server.Handlers.{Firmware, Server, firmware_call}
use zigbee_remote.Server.Serve.{serve_frame, serve_loop, serve_client}

module _ {W : Type 0} (fw : Firmware W) where
  -- The state after the poll of the PPP link.
  abbrev pub polled : Server W → Server W
  polled s = (firmware_call fw.ppp_uart_is_connected s).1

  pub serve_loop_down :
      (fuel : ℕ) (e : Engine) (s : Server W)
      → (firmware_call fw.ppp_uart_is_connected s).0 ≡ false
      → serve_loop fw (suc fuel) e s ≡ some (e, polled s)
  unfolding serve_loop
  serve_loop_down fuel e s down = rw (down, serve_loop)

  -- A frame's outcome with its flag known.
  pub flagged : (r : Bool × Engine × Server W) (kept : Bool) → r.0 ≡ kept → r ≡ (kept, r.1, r.2)
  flagged r kept h = λ i. (h i, r.1, r.2)

  pub serve_loop_stop :
      (fuel : ℕ) (e e' : Engine) (s s' : Server W)
      → (firmware_call fw.ppp_uart_is_connected s).0 ≡ true
      → serve_frame fw e (polled s) ≡ (false, e', s')
      → serve_loop fw (suc fuel) e s ≡ some (e', s')
  unfolding serve_loop
  serve_loop_stop fuel e e' s s' up stops =
      let off = ap (λ (t : Bool × Engine × Server W). t.0) stops in
      rw (up, off, serve_loop) (ap (λ (t : Bool × Engine × Server W). some (t.1, t.2)) stops)

  pub serve_loop_next :
      (fuel : ℕ) (e e' : Engine) (s s' : Server W)
      → (firmware_call fw.ppp_uart_is_connected s).0 ≡ true
      → serve_frame fw e (polled s) ≡ (true, e', s')
      → serve_loop fw (suc fuel) e s ≡ serve_loop fw fuel e' s'
  unfolding serve_loop
  serve_loop_next fuel e e' s s' up goes_on =
      let on = ap (λ (t : Bool × Engine × Server W). t.0) goes_on in
      rw (up, on, serve_loop)
        (ap (λ (t : Bool × Engine × Server W). serve_loop fw fuel t.1 t.2) goes_on)

  -- The engine and the state that the loop starts from.
  abbrev pub fresh : Fd → Engine
  fresh fd = record { fd = fd; last_error = ErrorCode.none }

  abbrev pub attached : ℕ → Server W → Server W
  attached client_fd s = record s { s_client_fd = pos client_fd }

  pub serve_client_done :
      (client_fd : ℕ) (fd : Fd) (s s' : Server W) (e : Engine)
      → serve_loop fw (suc (backlog fd.arrivals)) (fresh fd) (attached client_fd s) ≡ some (e, s')
      → serve_client fw client_fd fd s ≡ some (e, record s' { s_client_fd = negsuc 0 })
  unfolding serve_client
  serve_client_done client_fd fd s s' e ends = rw (ends, serve_client)
