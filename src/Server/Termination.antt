-- ===== src/Server/Termination.antt =====
-- `serve_client` ends: every frame takes at least twelve bytes of what can still arrive.
use zigbee_remote.Prelude.{
  ℕ, zero, suc, ◌≤◌, ◌<◌, ◌≡◌, refl, ◌∙◌, true, false, some, Option-cases, Bool-cases, inl, inr,
  arith,
}
use zigbee_remote.Prelude.Int.{negsuc}
use zigbee_remote.Fd.{Fd}
use zigbee_remote.Fd.Backlog.{backlog}
use zigbee_remote.Protocol.Codes.{unknown_api}
use zigbee_remote.Protocol.Desc
use zigbee_remote.Engine.{Engine, FrameHeader, receive_header, discard_payload}
use zigbee_remote.Engine.Rpc.{no_match, handled, failed, Outcome}
use zigbee_remote.Engine.Progress.{
  pending, receive_header_takes, send_error-pending, discard_payload-pending, IsFrugal,
  invoke_one-IsFrugal, ◌andthen◌,
}
use zigbee_remote.Server.Handlers.{
  Firmware, Server, firmware_call, handle_get_short_addr, handle_get_panid, handle_get_channel,
  handle_open_network, handle_wait_annce, handle_find_sensor, handle_read_basic, handle_bind_sensor,
  handle_subscribe_sensor, handle_config_report, handle_read_temp, handle_get_last_temp,
  handle_get_sensor_addr,
}
use zigbee_remote.Server.Dispatch.{first_match, finish_dispatch, dispatch}
use zigbee_remote.Server.Serve.{serve_frame, serve_loop, serve_client}
use zigbee_remote.Server.Rounds.{
  polled, flagged, serve_loop_down, serve_loop_stop, serve_loop_next, fresh, attached,
  serve_client_done,
}

module _ {W : Type 0} (fw : Firmware W) where
  first_match-IsFrugal : (h : FrameHeader) → IsFrugal (first_match fw h)
  unfolding first_match
  first_match-IsFrugal h =
      invoke_one-IsFrugal Desc.get_short_addr (handle_get_short_addr fw) h
      andthen invoke_one-IsFrugal Desc.get_panid (handle_get_panid fw) h
      andthen invoke_one-IsFrugal Desc.get_channel (handle_get_channel fw) h
      andthen invoke_one-IsFrugal Desc.open_network (handle_open_network fw) h
      andthen invoke_one-IsFrugal Desc.wait_annce (handle_wait_annce fw) h
      andthen invoke_one-IsFrugal Desc.find_sensor (handle_find_sensor fw) h
      andthen invoke_one-IsFrugal Desc.read_basic (handle_read_basic fw) h
      andthen invoke_one-IsFrugal Desc.bind_sensor (handle_bind_sensor fw) h
      andthen invoke_one-IsFrugal Desc.subscribe_sensor (handle_subscribe_sensor fw) h
      andthen invoke_one-IsFrugal Desc.config_report (handle_config_report fw) h
      andthen invoke_one-IsFrugal Desc.read_temp (handle_read_temp fw) h
      andthen invoke_one-IsFrugal Desc.get_last_temp (handle_get_last_temp fw) h
      andthen invoke_one-IsFrugal Desc.get_sensor_addr (handle_get_sensor_addr fw) h

  finish_dispatch-pending :
      (h : FrameHeader) (r : Outcome (Server W)) → pending (finish_dispatch fw h r).1 ≤ pending r.1
  unfolding finish_dispatch
  finish_dispatch-pending h (no_match, e, s) = ground (
    arith,
    discard_payload-pending h.size e,
    send_error-pending unknown_api (discard_payload h.size e).1,
  )
  finish_dispatch-pending h (handled, e, s) = omega arith
  finish_dispatch-pending h (failed, e, s) = omega arith

  dispatch-pending :
      (h : FrameHeader) (e : Engine) (s : Server W) → pending (dispatch fw h e s).1 ≤ pending e
  unfolding dispatch
  dispatch-pending h e s =
      omega (
        arith,
        finish_dispatch-pending h (first_match fw h e s),
        (first_match-IsFrugal h).bound e s,
      )

  pub serve_frame-pending :
      (e : Engine) (s : Server W)
      → (serve_frame fw e s).0 ≡ true
      → pending (serve_frame fw e s).1 < pending e
  unfolding serve_frame
  serve_frame-pending e s h = elim (Option-cases (receive_header e).0) [
    | inl cut ↦ ground arith
    | inr (header, got) ↦
        rw (got, serve_frame)
          (omega (
            arith,
            receive_header_takes e header got,
            dispatch-pending header (receive_header e).1 s,
          ))
  ]

  serve_loop_ends :
      (fuel : ℕ) (e : Engine) (s : Server W)
      → pending e < fuel
      → (r : Engine × Server W) × (serve_loop fw fuel e s ≡ some r)
  serve_loop_ends zero e s h = absurd (omega arith)
  serve_loop_ends (suc fuel) e s h =
      let s1 = polled fw s in
      elim (Bool-cases (firmware_call fw.ppp_uart_is_connected s).0) [
        | inl up ↦ elim (Bool-cases (serve_frame fw e s1).0) [
          | inl goes_on ↦
              let (r, ends) =
                serve_loop_ends fuel (serve_frame fw e s1).1 (serve_frame fw e s1).2
                  (omega (arith, serve_frame-pending e s1 goes_on)) in
              (r, serve_loop_next fw fuel e _ s _ up (flagged fw _ true goes_on) ∙ ends)
          | inr stops ↦ (_, serve_loop_stop fw fuel e _ s _ up (flagged fw _ false stops))
        ]
        | inr down ↦ (_, serve_loop_down fw fuel e s down)
      ]

  -- `serve_client` ends whatever arrives and in whatever state the server is, and leaves no client
  -- attached.
  pub serve_client_ends :
      (client_fd : ℕ) (fd : Fd) (s : Server W)
      → (r : Engine × Server W) × (serve_client fw client_fd fd s ≡ some r)
        × (r.1.s_client_fd ≡ negsuc 0)
  serve_client_ends client_fd fd s =
      let (r, ends) =
        serve_loop_ends (suc (backlog fd.arrivals)) (fresh fw fd) (attached fw client_fd s)
          (omega arith) in
      (_, serve_client_done fw client_fd fd s r.1 r.0 ends, refl)
