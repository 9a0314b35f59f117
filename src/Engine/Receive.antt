-- ===== src/Engine/Receive.antt =====
-- What the receiving methods of the engine do on a stream that starts with a well-formed message.
use zigbee_remote.Prelude.{
  ℕ, ◌^◌, ◌≤◌, ◌<◌, ◌≡◌, refl, sym, ap, ◌∙◌, true, false, none, some, List, [], ◌∷◌, ◌++◌, arith,
  Bool-cases, inl, inr, length, take, drop, length-append, take-append_at, drop-append_at,
}
use zigbee_remote.Fd.{Fd, read_all}
use zigbee_remote.Fd.Stream.{
  incoming, read_all_enough, read_all_lacking, read_all-sent, read_all-grants,
}
use zigbee_remote.Protocol.Endian.{from_le32-to_le32}
use zigbee_remote.Protocol.Codes.{k_magic, ErrorCode}
use zigbee_remote.Protocol.Payloads.{WireType, IsWireSafe}
use zigbee_remote.Engine.{
  Engine, header_of_bytes, frame_header, check_header, receive_header, receive_payload,
}

-- `e'` is `e` after a read that leaves `rest` in the stream, sends nothing and reports no error.
pub record Consumed (e e' : Engine) (rest : List ℕ) : Type 0 where
  pub left : incoming e'.fd ≡ rest
  pub sent : e'.fd.sent ≡ e.fd.sent
  pub grants : e'.fd.grants ≡ e.fd.grants
  pub no_error : e'.last_error ≡ ErrorCode.none

pub read_all_front :
    (fd : Fd) (front rest : List ℕ) (size : ℕ)
    → incoming fd ≡ front ++ rest
    → size ≡ length front
    → ((read_all fd size).0 ≡ some front) × (incoming (read_all fd size).1 ≡ rest)
read_all_front fd front rest size e n =
    let (bytes, left) = read_all_enough fd size (rw e (omega (arith, length-append front rest))) in
    (
      bytes
          ∙ ap (λ (l : List ℕ). some (take size l)) e
          ∙ ap some (take-append_at size front rest n),
      left ∙ ap (λ (l : List ℕ). drop size l) e ∙ drop-append_at size front rest n,
    )

check_header_frame :
    (id size : ℕ) (fd : Fd)
    → id < 2 ^ 32
    → size ≤ 64
    → check_header (header_of_bytes (frame_header id size)) fd
      ≡ (some (record { id = id; size = size }), record { fd = fd; last_error = ErrorCode.none })
unfolding check_header
check_header_frame id size fd hid hsize =
    ground (arith, from_le32-to_le32 k_magic, from_le32-to_le32 id, from_le32-to_le32 size)

pub receive_header_read :
    (e : Engine) (bs : List ℕ)
    → (read_all e.fd 12).0 ≡ some bs
    → receive_header e ≡ check_header (header_of_bytes bs) (read_all e.fd 12).1
unfolding receive_header
receive_header_read e bs h = rw (h, receive_header)

-- Fewer than twelve bytes are no header, and no error of the protocol either.
pub receive_header_short :
    (e : Engine)
    → length (incoming e.fd) < 12
    → receive_header e ≡ (none, record { fd = (read_all e.fd 12).1; last_error = ErrorCode.none })
unfolding receive_header
receive_header_short e h = rw (read_all_lacking e.fd 12 h, receive_header)

-- A header with the magic, a 32-bit identifier and a size of 64 at most is received as it was
-- sent: its twelve bytes are taken, nothing is written, and no error is left.
pub receive_header_frame :
    (e : Engine) (id size : ℕ) (rest : List ℕ)
    → incoming e.fd ≡ frame_header id size ++ rest
    → id < 2 ^ 32
    → size ≤ 64
    → ((receive_header e).0 ≡ some (record { id = id; size = size }))
      × Consumed e (receive_header e).1 rest
receive_header_frame e id size rest h hid hsize =
    let (bytes, left) = read_all_front e.fd (frame_header id size) rest 12 h refl in
    rw
      (
        receive_header_read e (frame_header id size) bytes,
        check_header_frame id size (read_all e.fd 12).1 hid hsize,
      )
      (
        refl,
        record {
          left = left;
          sent = read_all-sent e.fd 12;
          grants = read_all-grants e.fd 12;
          no_error = refl;
        },
      )

module _ {T : Type 0} (w : WireType T) where
  receive_payload_read :
      (e : Engine) (id : ℕ) (bs : List ℕ)
      → w.is_empty ≡ false
      → (read_all e.fd w.size).0 ≡ some bs
      → receive_payload w (record { id = id; size = w.size }) e
        ≡ (some (w.decode bs), record e { fd = (read_all e.fd w.size).1 })
  unfolding receive_payload
  receive_payload_read e id bs nonempty h = ground arith

  receive_payload_nothing :
      (e : Engine) (id : ℕ)
      → w.is_empty ≡ true
      → w.size ≡ 0
      → receive_payload w (record { id = id; size = w.size }) e ≡ (some (w.decode []), e)
  unfolding receive_payload
  receive_payload_nothing e id empty zero_size = ground arith

  -- The bytes of a value of a wire-safe type, announced with their size and with no error
  -- recorded, are received as that value: exactly they are taken, nothing is written, and no error
  -- is left.
  pub receive_payload_frame :
      IsWireSafe w
      → (e : Engine) (id : ℕ) (x : T) (rest : List ℕ) → w.fits x ≡ true
      → e.last_error ≡ ErrorCode.none
      → incoming e.fd ≡ w.encode x ++ rest
      → ((receive_payload w (record { id = id; size = w.size }) e).0 ≡ some x)
        × Consumed e (receive_payload w (record { id = id; size = w.size }) e).1 rest
  receive_payload_frame safe e id x rest fit clean h = elim (Bool-cases w.is_empty) [
    | inl empty ↦
        let zero_size = safe.empty_size empty in
        let no_bytes : w.encode x ≡ [] =
          empty_list (w.encode x) (safe.length-encode x fit ∙ zero_size) in
        rw (receive_payload_nothing e id empty zero_size) (
          ap (λ (l : List ℕ). some (w.decode l)) (sym no_bytes)
              ∙ ap some (safe.decode-encode x fit),
          record {
            left = h ∙ ap (λ (l : List ℕ). l ++ rest) no_bytes;
            sent = refl;
            grants = refl;
            no_error = clean;
          },
        )
    | inr nonempty ↦
        let (bytes, left) =
          read_all_front e.fd (w.encode x) rest w.size h (sym (safe.length-encode x fit)) in
        rw (receive_payload_read e id (w.encode x) nonempty bytes) (
          ap some (safe.decode-encode x fit),
          record {
            left = left;
            sent = read_all-sent e.fd w.size;
            grants = read_all-grants e.fd w.size;
            no_error = clean;
          },
        )
  ]
    where
      empty_list : (l : List ℕ) → length l ≡ 0 → l ≡ []
      empty_list [] e = refl
      empty_list (a ∷ l) e = absurd (omega arith)
