-- ===== src/Server/Unknown.antt =====
-- A request that names no call.
use zigbee_remote.Prelude.{
  ℕ, ◌≤◌, ◌<◌, ◌≡◌, ◌⊎◌, sym, ap, ◌∙◌, true, false, List, ◌++◌, arith, ◌==◌, length, length-append,
  drop, drop-append_at,
}
use mathlib.Core.Path.{subst}
use zigbee_remote.Fd.Stream.{stream, incoming}
use zigbee_remote.Fd.Output.{IsOpen}
use zigbee_remote.Protocol.Codes.{unknown_api}
use zigbee_remote.Protocol.Desc
use zigbee_remote.Protocol.Desc.{RpcDesc}
use zigbee_remote.Engine.{Engine, FrameHeader, discard_payload, send_error}
use zigbee_remote.Engine.Discard.{discard_payload-Skipped}
use zigbee_remote.Engine.Send.{error_message, send_error_open}
use zigbee_remote.Engine.Exchange.{invoke_one_other}
use zigbee_remote.Engine.Rpc.{no_match}
use zigbee_remote.Server.Handlers.{
  Firmware, Server, handle_get_short_addr, handle_get_panid, handle_get_channel,
  handle_open_network, handle_wait_annce, handle_find_sensor, handle_read_basic, handle_bind_sensor,
  handle_subscribe_sensor, handle_config_report, handle_read_temp, handle_get_last_temp,
  handle_get_sensor_addr,
}
use zigbee_remote.Server.Dispatch.{first_match, finish_dispatch, dispatch}

module _ {W : Type 0} (fw : Firmware W) where
  abbrev pub IsUnknown : ℕ → Type 0
  IsUnknown id = (id ≡ 0) ⊎ (13 < id)

  differs : (id k : ℕ) → IsUnknown id → 0 < k → k ≤ 13 → (id == k) ≡ false
  differs id k u lo hi = ground arith

  first_match_unknown :
      (h : FrameHeader) (e : Engine) (s : Server W)
      → IsUnknown h.id
      → first_match fw h e s ≡ (no_match, e, s)
  unfolding first_match
  first_match_unknown h e s u =
      let other = λ (k : ℕ) (lo : 0 < k) (hi : k ≤ 13). differs h.id k u lo hi in
      rw (
        invoke_one_other Desc.get_short_addr (handle_get_short_addr fw) h e s
            (other 1 (omega arith) (omega arith)),
        invoke_one_other Desc.get_panid (handle_get_panid fw) h e s
            (other 2 (omega arith) (omega arith)),
        invoke_one_other Desc.get_channel (handle_get_channel fw) h e s
            (other 3 (omega arith) (omega arith)),
        invoke_one_other Desc.open_network (handle_open_network fw) h e s
            (other 4 (omega arith) (omega arith)),
        invoke_one_other Desc.wait_annce (handle_wait_annce fw) h e s
            (other 5 (omega arith) (omega arith)),
        invoke_one_other Desc.find_sensor (handle_find_sensor fw) h e s
            (other 6 (omega arith) (omega arith)),
        invoke_one_other Desc.read_basic (handle_read_basic fw) h e s
            (other 7 (omega arith) (omega arith)),
        invoke_one_other Desc.bind_sensor (handle_bind_sensor fw) h e s
            (other 8 (omega arith) (omega arith)),
        invoke_one_other Desc.subscribe_sensor (handle_subscribe_sensor fw) h e s
            (other 9 (omega arith) (omega arith)),
        invoke_one_other Desc.config_report (handle_config_report fw) h e s
            (other 10 (omega arith) (omega arith)),
        invoke_one_other Desc.read_temp (handle_read_temp fw) h e s
            (other 11 (omega arith) (omega arith)),
        invoke_one_other Desc.get_last_temp (handle_get_last_temp fw) h e s
            (other 12 (omega arith) (omega arith)),
        invoke_one_other Desc.get_sensor_addr (handle_get_sensor_addr fw) h e s
            (other 13 (omega arith) (omega arith)),
      )

  finish_unknown :
      (h : FrameHeader) (e : Engine) (s : Server W)
      → (discard_payload h.size e).0 ≡ true
      → finish_dispatch fw h (no_match, e, s)
        ≡ (false, (send_error unknown_api (discard_payload h.size e).1).1, s)
  unfolding finish_dispatch
  finish_unknown h e s done = rw (done, finish_dispatch)

  -- A frame that names none of the thirteen calls, with its payload there and writes that succeed:
  -- no handler runs, exactly the payload is skipped, the client gets the error frame for an
  -- unknown call, and the connection ends.
  pub dispatch_unknown :
      (h : FrameHeader) (e : Engine) (s : Server W) (payload rest : List ℕ)
      → IsUnknown h.id
      → incoming e.fd ≡ payload ++ rest
      → length payload ≡ h.size
      → IsOpen e.fd.grants
      → (e' : Engine) × (dispatch fw h e s ≡ (false, e', s))
        × (incoming e'.fd ≡ rest)
        × (e'.fd.sent ≡ e.fd.sent ++ error_message unknown_api)
  dispatch_unknown h e s payload rest u here size writable =
      let ((same_sent, same_grants, enough, _), _) = discard_payload-Skipped h.size e in
      let there = ap length here ∙ length-append payload rest in
      let (done, left) = enough (omega (arith, there)) in
      let e1 = (discard_payload h.size e).1 in
      let (_, wrote) = send_error_open unknown_api e1 (subst IsOpen (sym same_grants) writable) in
      (
        (send_error unknown_api e1).1,
        unfold dispatch in
            ap (finish_dispatch fw h) (first_match_unknown h e s u) ∙ finish_unknown h e s done,
        ap stream wrote.arrivals
            ∙ left
            ∙ ap (drop h.size) here
            ∙ drop-append_at h.size payload rest (sym size),
        wrote.sent ∙ ap (λ (l : List ℕ). l ++ error_message unknown_api) same_sent,
      )
