-- ===== src/Engine.antt =====
-- `class Engine` of zb_rpc_shared/include/zb_rpc/engine.hpp: framing, payloads and errors over one
-- descriptor. Logging is left out. A method that returns false and fills an argument by reference
-- returns an `Option`.
pub mod Send
pub mod Receive
pub mod Discard
pub mod Rpc
pub mod Exchange
pub mod Refusal
pub mod Progress
use mathlib.Core.Logic.{dite}
use mathlib.Core.WellFounded.{Acc}
use native.Mathlib.Decide.{dec_lt}
use zigbee_remote.Prelude.{
  ℕ, ◌+◌, ◌-◌, ◌<◌, Bool, true, false, Option, none, some, List, [], ◌∷◌, ◌++◌, arith, ltb, ◌==◌,
  if◌then◌else◌,
}
use zigbee_remote.Prelude.WellFounded.{lt_wf}
use zigbee_remote.Fd.{Fd, read_all, write_all}
use zigbee_remote.Protocol.Endian.{Le32, to_le32, from_le32}
use zigbee_remote.Protocol.ApiId
use zigbee_remote.Protocol.ApiId.{ApiId}
use zigbee_remote.Protocol.Codes.{
  k_magic, k_max_payload, ErrorCode, bad_magic, oversized_payload, payload_mismatch, code_value,
}
use zigbee_remote.Protocol.Payloads.{ErrorResp, WireType, error_resp, le32_bytes, le32_at}

pub record WireHeader : Type 0 where
  pub magic : Le32
  pub id : Le32
  pub size : Le32

abbrev pub header_bytes : WireHeader → List ℕ
header_bytes h = le32_bytes h.magic ++ (le32_bytes h.id ++ le32_bytes h.size)

abbrev pub header_of_bytes : List ℕ → WireHeader
header_of_bytes bs = record { magic = le32_at 0 bs; id = le32_at 4 bs; size = le32_at 8 bs }

pub record FrameHeader : Type 0 where
  pub id : ApiId
  pub size : ℕ

pub record Engine : Type 0 where
  pub fd : Fd
  pub last_error : ErrorCode

-- The checks of `receive_header` once the twelve bytes are read.
unfoldable pub check_header : WireHeader → Fd → Option FrameHeader × Engine
check_header wire fd =
    let size = from_le32 wire.size in
    if from_le32 wire.magic == k_magic
    then if ltb k_max_payload size
      then (none, record { fd = fd; last_error = oversized_payload })
      else (
        some (record { id = from_le32 wire.id; size = size }),
        record { fd = fd; last_error = ErrorCode.none },
      )
    else (none, record { fd = fd; last_error = bad_magic })

unfoldable pub receive_header : Engine → Option FrameHeader × Engine
unfolding check_header
receive_header e =
    let (wire, fd) = read_all e.fd 12 in
    elim wire [
      | none ↦ (none, record { fd = fd; last_error = ErrorCode.none })
      | some bytes ↦ check_header (header_of_bytes bytes) fd
    ]

-- The wire header in front of every message.
abbrev pub frame_header : ApiId → ℕ → List ℕ
frame_header id size =
    header_bytes (record { magic = to_le32 k_magic; id = to_le32 id; size = to_le32 size })

unfoldable pub send_empty : ApiId → Engine → Bool × Engine
send_empty id e =
    let (done, fd) = write_all e.fd (frame_header id 0) in (done, record e { fd = fd })

module _ {T : Type 0} (w : WireType T) where
  unfoldable pub receive_payload : FrameHeader → Engine → Option T × Engine
  receive_payload header e =
      if w.is_empty
      then if header.size == 0
        then (some (w.decode []), e)
        else (none, record e { last_error = payload_mismatch })
      else if header.size == w.size
      then (let (bytes, fd) = read_all e.fd w.size in
          elim bytes [
            | none ↦ (none, record e { fd = fd })
            | some bs ↦ (some (w.decode bs), record e { fd = fd })
          ])
      else (none, record e { last_error = payload_mismatch })

  -- The header is written first, and the payload only if that succeeded.
  unfoldable pub send : ApiId → T → Engine → Bool × Engine
  unfolding send_empty
  send id payload e =
      if w.is_empty
      then send_empty id e
      else let (done, fd) = write_all e.fd (frame_header id w.size) in
        if done
        then (let (all, fd') = write_all fd (w.encode payload) in (all, record e { fd = fd' }))
        else (false, record e { fd = fd })

unfoldable pub send_error : ErrorCode → Engine → Bool × Engine
unfolding send
send_error code = send error_resp ApiId.error (record { code = to_le32 (code_value code) })

-- `size < sizeof(buffer) ? size : sizeof(buffer)`
abbrev pub chunk_of : ℕ → ℕ
chunk_of size = if ltb size 32 then size else 32

pub chunk_shrinks : (size : ℕ) → 0 < size → size - chunk_of size < size
chunk_shrinks size h = ground arith

unfoldable pub discard_loop : (size : ℕ) → Acc ◌<◌ size → Fd → Bool × Fd
unfolding dec_lt chunk_shrinks
discard_loop size (Acc.intro _ smaller) fd =
    dite (dec_lt 0 size)
      (λ more.
        let (bytes, fd') = read_all fd (chunk_of size) in
        elim bytes [
          | none ↦ (false, fd')
          | some _ ↦ discard_loop (size - chunk_of size) (smaller _ (chunk_shrinks size more)) fd'
        ])
      (λ _. (true, fd))

unfoldable pub discard_payload : ℕ → Engine → Bool × Engine
unfolding discard_loop lt_wf
discard_payload size e =
    let (done, fd) = discard_loop size (lt_wf.apply size) e.fd in (done, record e { fd = fd })
