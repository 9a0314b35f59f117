-- ===== src/Engine/Send.antt =====
-- What the sending methods of the engine write on a descriptor that accepts bytes.
use zigbee_remote.Prelude.{
  ℕ, ◌≡◌, refl, sym, ap, ◌∙◌, true, false, List, [], ◌∷◌, ◌++◌, append_assoc, append-nil, arith,
  Bool-cases, inl, inr, length,
}
use zigbee_remote.Fd.{Fd, write_all}
use zigbee_remote.Fd.Output.{IsOpen, write_all-IsOpen}
use zigbee_remote.Protocol.Endian.{to_le32}
use zigbee_remote.Protocol.ApiId
use zigbee_remote.Protocol.ApiId.{ApiId}
use zigbee_remote.Protocol.Codes.{ErrorCode, code_value}
use zigbee_remote.Protocol.Payloads.{WireType, IsWireSafe, error_resp}
use zigbee_remote.Protocol.WireSafe.{error_resp-IsWireSafe}
use zigbee_remote.Engine.{Engine, frame_header, send_empty, send, send_error}

-- `e'` is `e` after a write that appends `bytes` to the output and leaves the input alone.
pub record Appended (e e' : Engine) (bytes : List ℕ) : Type 0 where
  pub sent : e'.fd.sent ≡ e.fd.sent ++ bytes
  pub still_open : IsOpen e'.fd.grants
  pub arrivals : e'.fd.arrivals ≡ e.fd.arrivals
  pub last_error : e'.last_error ≡ e.last_error

-- The bytes of one message: the header and the payload.
abbrev pub message : {T : Type 0} → WireType T → ApiId → T → List ℕ
message w id x = frame_header id w.size ++ w.encode x

send_empty_open :
    (id : ApiId) (e : Engine)
    → IsOpen e.fd.grants
    → ((send_empty id e).0 ≡ true) × Appended e (send_empty id e).1 (frame_header id 0)
unfolding send_empty
send_empty_open id e h =
    let (done, sent, still, same) = write_all-IsOpen e.fd (frame_header id 0) h in
    (done, record { sent = sent; still_open = still; arrivals = same; last_error = refl })

module _ {T : Type 0} (w : WireType T) where
  send_nothing :
      (id : ApiId) (x : T) (e : Engine) → w.is_empty ≡ true → send w id x e ≡ send_empty id e
  unfolding send
  send_nothing id x e empty = ground arith

  -- The descriptor after the header.
  abbrev after_header : ApiId → Engine → Fd
  after_header id e = (write_all e.fd (frame_header id w.size)).1

  send_both :
      (id : ApiId) (x : T) (e : Engine)
      → w.is_empty ≡ false
      → (write_all e.fd (frame_header id w.size)).0 ≡ true
      → send w id x e ≡ (
        (write_all (after_header id e) (w.encode x)).0,
        record e { fd = (write_all (after_header id e) (w.encode x)).1 },
      )
  unfolding send
  send_both id x e nonempty done = ground arith

  pub send_open :
      IsWireSafe w
      → (id : ApiId) (x : T) (e : Engine) → w.fits x ≡ true
      → IsOpen e.fd.grants
      → ((send w id x e).0 ≡ true) × Appended e (send w id x e).1 (message w id x)
  send_open safe id x e fit h = elim (Bool-cases w.is_empty) [
    | inl empty ↦
        let zero_size = safe.empty_size empty in
        let no_bytes : w.encode x ≡ [] =
          empty_list (w.encode x) (safe.length-encode x fit ∙ zero_size) in
        let (done, wrote) = send_empty_open id e h in
        rw (send_nothing id x e empty) (
          done,
          record {
            sent =
                wrote.sent
                ∙ ap (λ (l : List ℕ). e.fd.sent ++ l)
                    (sym (append-nil (frame_header id 0))
                      ∙ ap (λ (l : List ℕ). frame_header id 0 ++ l) (sym no_bytes)
                      ∙ ap (λ (n : ℕ). frame_header id n ++ w.encode x) (sym zero_size));
            still_open = wrote.still_open;
            arrivals = wrote.arrivals;
            last_error = wrote.last_error;
          },
        )
    | inr nonempty ↦
        let (done, sent, still, same) = write_all-IsOpen e.fd (frame_header id w.size) h in
        let (done', sent', still', same') =
          write_all-IsOpen (after_header id e) (w.encode x) still in
        rw (send_both id x e nonempty done) (
          done',
          record {
            sent =
                sent'
                ∙ ap (λ (l : List ℕ). l ++ w.encode x) sent
                ∙ append_assoc e.fd.sent (frame_header id w.size) (w.encode x);
            still_open = still';
            arrivals = same' ∙ same;
            last_error = refl;
          },
        )
  ]
    where
      empty_list : (l : List ℕ) → length l ≡ 0 → l ≡ []
      empty_list [] e = refl
      empty_list (a ∷ l) e = absurd (omega arith)

abbrev pub error_message : ErrorCode → List ℕ
error_message code = message error_resp ApiId.error (record { code = to_le32 (code_value code) })

pub send_error_open :
    (code : ErrorCode) (e : Engine)
    → IsOpen e.fd.grants
    → ((send_error code e).0 ≡ true) × Appended e (send_error code e).1 (error_message code)
unfolding send_error
send_error_open code e h = send_open error_resp error_resp-IsWireSafe ApiId.error _ e refl h
