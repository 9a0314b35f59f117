-- ===== src/Server/Errors.antt =====
-- Requests that rpc_server.cpp refuses: malformed headers, short headers, payloads of the wrong
-- size.
use zigbee_remote.Prelude.{
  ℕ, ◌≤◌, ◌<◌, ◌≡◌, ◌≢◌, refl, sym, ap, ◌∙◌, Bool, true, false, Option, none, List, ◌++◌, arith,
  length,
}
use mathlib.Core.Path.{subst}
use zigbee_remote.Fd.{Fd, read_all}
use zigbee_remote.Fd.Stream.{stream, incoming, read_all-sent, read_all-grants}
use zigbee_remote.Fd.Output.{IsOpen}
use zigbee_remote.Protocol.Endian.{from_le32}
use zigbee_remote.Protocol.Codes.{
  k_magic, ErrorCode, bad_magic, oversized_payload, payload_mismatch,
}
use zigbee_remote.Protocol.Desc.{RpcDesc, IsDesc}
use zigbee_remote.Engine.{
  Engine, WireHeader, FrameHeader, header_bytes, check_header, receive_header, receive_payload,
  send_error, frame_header,
}
use zigbee_remote.Engine.Receive.{
  read_all_front, receive_header_read, receive_header_frame, receive_header_short,
}
use zigbee_remote.Engine.Send.{error_message, send_error_open}
use zigbee_remote.Engine.Rpc.{failed, report_error, invoke_one}
use zigbee_remote.Server.Handlers.{Firmware, Server}
use zigbee_remote.Server.Routes.{settled, Route}
use zigbee_remote.Server.Remote.{serve_frame_header}
use zigbee_remote.Server.Serve.{serve_frame}

-- What is wrong with a header, and the code for it. The magic is checked first.
pub data Malformed (h : WireHeader) : ErrorCode → Type 0 where
  wrong_magic : from_le32 h.magic ≢ k_magic → Malformed h bad_magic
  too_long : from_le32 h.magic ≡ k_magic → 64 < from_le32 h.size → Malformed h oversized_payload

check_header-Malformed :
    (h : WireHeader) (code : ErrorCode) (fd : Fd)
    → Malformed h code
    → check_header h fd ≡ (none, record { fd = fd; last_error = code })
unfolding check_header
check_header-Malformed h code fd (wrong_magic bad) = ground arith
check_header-Malformed h code fd (too_long good long) = ground arith

report_error-Malformed :
    (h : WireHeader) (code : ErrorCode) (fd : Fd)
    → Malformed h code
    → report_error (record { fd = fd; last_error = code })
      ≡ (send_error code (record { fd = fd; last_error = code })).1
unfolding report_error
report_error-Malformed h code fd (wrong_magic bad) = refl
report_error-Malformed h code fd (too_long good long) = refl

module _ {W : Type 0} (fw : Firmware W) where
  pub serve_frame_none :
      (e : Engine) (s : Server W)
      → (receive_header e).0 ≡ none
      → serve_frame fw e s ≡ (false, report_error (receive_header e).1, s)
  unfolding serve_frame
  serve_frame_none e s h = rw (h, serve_frame)

  -- Fewer bytes than a header end the connection: no handler runs, and nothing is sent.
  pub serve_frame_short :
      (e : Engine) (s : Server W)
      → length (incoming e.fd) < 12
      → (e' : Engine) × (serve_frame fw e s ≡ (false, e', s)) × (e'.fd.sent ≡ e.fd.sent)
  unfolding report_error serve_frame
  serve_frame_short e s h =
      let cut = receive_header_short e h in
      (
        record { fd = (read_all e.fd 12).1; last_error = ErrorCode.none },
        serve_frame_none e s (ap (λ (r : Option FrameHeader × Engine). r.0) cut)
            ∙ ap
                (λ (r : Option FrameHeader × Engine).
                  let out : Bool × Engine × Server W = (false, report_error r.1, s) in out)
                cut,
        read_all-sent e.fd 12,
      )

  -- A header with a wrong magic, or with the magic and a size above 64, ends the connection, where
  -- writes succeed: no handler runs, the client gets the error frame for it, and nothing behind
  -- the header is read.
  pub serve_frame-Malformed :
      (h : WireHeader) (code : ErrorCode) (e : Engine) (s : Server W) (rest : List ℕ)
      → Malformed h code
      → incoming e.fd ≡ header_bytes h ++ rest
      → IsOpen e.fd.grants
      → (e' : Engine) × (serve_frame fw e s ≡ (false, e', s))
        × (incoming e'.fd ≡ rest)
        × (e'.fd.sent ≡ e.fd.sent ++ error_message code)
  serve_frame-Malformed h code e s rest bad here writable =
      let (bytes, left) = read_all_front e.fd (header_bytes h) rest 12 here refl in
      let fd' = (read_all e.fd 12).1 in
      let e1 : Engine = record { fd = fd'; last_error = code } in
      let checked =
        receive_header_read e (header_bytes h) bytes ∙ check_header-Malformed h code fd' bad in
      let (_, wrote) =
        send_error_open code e1 (subst IsOpen (sym (read_all-grants e.fd 12)) writable) in
      (
        (send_error code e1).1,
        serve_frame_none e s (ap (λ (r : Option FrameHeader × Engine). r.0) checked)
            ∙ ap
                (λ (r : Option FrameHeader × Engine).
                  let out : Bool × Engine × Server W = (false, report_error r.1, s) in out)
                checked
            ∙ ap (λ (x : Engine). let out : Bool × Engine × Server W = (false, x, s) in out)
                (report_error-Malformed h code fd' bad),
        ap stream wrote.arrivals ∙ left,
        wrote.sent ∙ ap (λ (l : List ℕ). l ++ error_message code) (read_all-sent e.fd 12),
      )

  module _ {Req Resp : Type 0} (desc : RpcDesc Req Resp) (valid : IsDesc desc)
      (function : Req → Server W → Resp × Server W) (route : Route fw desc function) where
    receive_payload_mismatch :
        (size : ℕ) (e : Engine)
        → size ≢ desc.req.size
        → receive_payload desc.req (record { id = desc.id; size = size }) e
          ≡ (none, record e { last_error = payload_mismatch })
    unfolding receive_payload
    receive_payload_mismatch size e differs =
        ground (arith, λ (empty : desc.req.is_empty ≡ true). valid.req_safe.empty_size empty)

    invoke_one_mismatch :
        (size : ℕ) (e : Engine) (s : Server W)
        → size ≢ desc.req.size
        → invoke_one desc function (record { id = desc.id; size = size }) e s ≡ (
          failed,
          (send_error payload_mismatch (record e { last_error = payload_mismatch })).1,
          s,
        )
    unfolding invoke_one
    invoke_one_mismatch size e s differs = ground (arith, receive_payload_mismatch size e differs)

    -- A request whose announced size, 64 at most, is not that of its call ends the connection,
    -- where writes succeed: its handler does not run, the client gets the error frame for it, and
    -- the payload is not read.
    pub serve_frame_mismatch :
        (size : ℕ) (e : Engine) (s : Server W) (rest : List ℕ)
        → size ≤ 64
        → size ≢ desc.req.size
        → incoming e.fd ≡ frame_header desc.id size ++ rest
        → IsOpen e.fd.grants
        → (e' : Engine) × (serve_frame fw e s ≡ (false, e', s))
          × (incoming e'.fd ≡ rest)
          × (e'.fd.sent ≡ e.fd.sent ++ error_message payload_mismatch)
    serve_frame_mismatch size e s rest small differs here writable =
        let (header, took) = receive_header_frame e desc.id size rest here valid.id_fits small in
        let e1 = (receive_header e).1 in
        let e2 : Engine = record e1 { last_error = payload_mismatch } in
        let (_, wrote) =
          send_error_open payload_mismatch e2 (subst IsOpen (sym took.grants) writable) in
        (
          (send_error payload_mismatch e2).1,
          serve_frame_header fw e s (record { id = desc.id; size = size }) header
              ∙ route size e1 s
              ∙ ap settled (invoke_one_mismatch size e1 s differs),
          ap stream wrote.arrivals ∙ took.left,
          wrote.sent ∙ ap (λ (l : List ℕ). l ++ error_message payload_mismatch) took.sent,
        )
