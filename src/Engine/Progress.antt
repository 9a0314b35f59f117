-- ===== src/Engine/Progress.antt =====
-- No operation of the engine makes more input, and a header that is read takes twelve bytes of it.
use mathlib.Core.WellFounded.{Acc}
use native.Mathlib.Nat.{le_refl}
use zigbee_remote.Prelude.{
  ℕ, zero, suc, ◌+◌, ◌-◌, ◌≤◌, ◌<◌, ◌≡◌, refl, ap, some, Option-cases, List, arith, ◌==◌,
  Bool-cases, inl, inr,
}
use zigbee_remote.Prelude.WellFounded.{lt_wf}
use zigbee_remote.Fd.{Fd, read_all, write_all}
use zigbee_remote.Fd.Backlog.{backlog, read_all-backlog, read_all-backlog_le}
use zigbee_remote.Protocol.ApiId
use zigbee_remote.Protocol.ApiId.{ApiId}
use zigbee_remote.Protocol.Codes.{ErrorCode}
use zigbee_remote.Protocol.Payloads.{WireType, error_resp}
use zigbee_remote.Protocol.Desc.{RpcDesc}
use zigbee_remote.Engine.{
  Engine, WireHeader, FrameHeader, header_of_bytes, check_header, receive_header, receive_payload,
  send, send_error, chunk_of, chunk_shrinks, discard_loop, discard_payload,
}
use zigbee_remote.Engine.Discard.{discard_round, discard_cut, discard_done}
use zigbee_remote.Engine.Rpc.{
  no_match, handled, failed, Outcome, Invoke, report_error, is_no_error, answer, invoke_one,
  or_else,
}

abbrev pub pending : Engine → ℕ
pending e = backlog e.fd.arrivals

write_all-arrivals : (fd : Fd) (bytes : List ℕ) → (write_all fd bytes).1.arrivals ≡ fd.arrivals
unfolding write_all
write_all-arrivals fd bytes = refl

check_header-fd : (h : WireHeader) (fd : Fd) → (check_header h fd).1.fd ≡ fd
unfolding check_header
check_header-fd h fd = ground arith

pub receive_header_takes :
    (e : Engine) (h : FrameHeader)
    → (receive_header e).0 ≡ some h
    → pending (receive_header e).1 + 12 ≤ pending e
unfolding receive_header
receive_header_takes e h eq = elim (Option-cases (read_all e.fd 12).0) [
  | inl cut ↦ ground arith
  | inr (bs, got) ↦ ground (
    arith,
    read_all-backlog e.fd 12 bs got,
    check_header-fd (header_of_bytes bs) (read_all e.fd 12).1,
  )
]

module _ {T : Type 0} (w : WireType T) where
  pub send-arrivals :
      (id : ApiId) (x : T) (e : Engine) → (send w id x e).1.fd.arrivals ≡ e.fd.arrivals
  unfolding send write_all
  send-arrivals id x e = ground arith

  receive_payload-pending :
      (h : FrameHeader) (e : Engine) → pending (receive_payload w h e).1 ≤ pending e
  unfolding receive_payload
  receive_payload-pending h e = ground (arith, read_all-backlog_le e.fd w.size)

pub send_error-pending : (code : ErrorCode) (e : Engine) → pending (send_error code e).1 ≡ pending e
unfolding send_error
send_error-pending code e = ap backlog (send-arrivals error_resp ApiId.error _ e)

report_error-arrivals : (e : Engine) → (report_error e).fd.arrivals ≡ e.fd.arrivals
unfolding report_error send_error
report_error-arrivals e = elim (Bool-cases (is_no_error e.last_error)) [
  | inl clean ↦ rw clean refl
  | inr faulty ↦ rw faulty (send-arrivals error_resp ApiId.error _ e)
]

discard_loop-pending :
    (size : ℕ) (w : Acc ◌<◌ size) (fd : Fd)
    → backlog (discard_loop size w fd).1.arrivals ≤ backlog fd.arrivals
discard_loop-pending zero (Acc.intro _ smaller) fd =
    rw (discard_done zero smaller fd (λ h. absurd (omega arith))) (le_refl _)
discard_loop-pending (suc n) (Acc.intro _ smaller) fd =
    let chunk = chunk_of (suc n) in
    let more : 0 < suc n = omega arith in
    let taken = read_all-backlog_le fd chunk in
    elim (Option-cases (read_all fd chunk).0) [
      | inl cut ↦ rw (discard_cut (suc n) smaller fd more cut) taken
      | inr (bs, got) ↦
          let rest =
            discard_loop-pending (suc n - chunk) (smaller _ (chunk_shrinks (suc n) more))
              (read_all fd chunk).1 in
          rw (discard_round (suc n) smaller fd more bs got) (omega (arith, rest, taken))
    ]

pub discard_payload-pending :
    (size : ℕ) (e : Engine) → pending (discard_payload size e).1 ≤ pending e
unfolding discard_payload
discard_payload-pending size e = discard_loop-pending size (lt_wf.apply size) e.fd

-- A step of the dispatch that makes no more input.
pub record IsFrugal {W : Type 0} (step : Invoke W) : Type 0 where
  pub bound : (e : Engine) (w : W) → pending (step e w).1 ≤ pending e

module _ {W Req Resp : Type 0} (desc : RpcDesc Req Resp) (function : Req → W → Resp × W) where
  answer-pending :
      (r : Req) (e : Engine) (w : W) → pending (answer desc function r e w).1 ≡ pending e
  unfolding answer
  answer-pending r e w = ap backlog (send-arrivals desc.resp desc.id (function r w).0 e)

  invoke_one-pending :
      (h : FrameHeader) (e : Engine) (w : W)
      → pending (invoke_one desc function h e w).1 ≤ pending e
  unfolding invoke_one
  invoke_one-pending h e w =
      let took = receive_payload-pending desc.req h e in
      elim (Bool-cases (h.id == desc.id)) [
        | inl same ↦ elim (Option-cases (receive_payload desc.req h e).0) [
          | inl bad ↦
              rw (same, bad, invoke_one)
                (rw (report_error-arrivals (receive_payload desc.req h e).1) took)
          | inr (r, got) ↦
              rw (same, got, invoke_one)
                (rw (answer-pending r (receive_payload desc.req h e).1 w) took)
        ]
        | inr other ↦ rw other (le_refl _)
      ]

  pub invoke_one-IsFrugal : (h : FrameHeader) → IsFrugal (invoke_one desc function h)
  invoke_one-IsFrugal h = record { bound = invoke_one-pending h }

or_else-pending :
    {W : Type 0} (result : Outcome W) (next : Invoke W) (bound : ℕ)
    → pending result.1 ≤ bound
    → ((e : Engine) (w : W) → pending (next e w).1 ≤ pending e)
    → pending (or_else result next).1 ≤ bound
unfolding or_else
or_else-pending (no_match, e, w) next bound h frugal = omega (arith, frugal e w)
or_else-pending (handled, e, w) next bound h frugal = h
or_else-pending (failed, e, w) next bound h frugal = h

infixl 20 ◌andthen◌
pub ◌andthen◌ :
    {W : Type 0} {first next : Invoke W}
    → IsFrugal first
    → IsFrugal next
    → IsFrugal (λ e w. or_else (first e w) next)
first_frugal andthen next_frugal = record {
  bound = λ e w. or_else-pending _ _ _ (first_frugal.bound e w) next_frugal.bound;
}
