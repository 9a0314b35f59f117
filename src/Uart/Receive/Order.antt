-- ===== src/Uart/Receive/Order.antt =====
-- The bytes that `uart_receive_task` of zb_rpc_server/main/ppp_uart.c hands on, and their order.
use zigbee_remote.Prelude.{
  ℕ, zero, suc, ◌-◌, ◌≡◌, refl, sym, ap, ◌∙◌, Bool, true, false, Bool-cases, inl, inr, Option, none,
  some, List, [], ◌∷◌, ◌++◌, append_assoc, append-nil, arith, ltb, ◌==◌, if◌then◌else◌, length,
  take, drop,
}
use zigbee_remote.Uart.Receive.{
  chunk_size, UartEvent, Rx, Reads, smaller, read_bytes, drain_loop, receive_event, receive_round,
  Input, arrives, round, receive_run,
}

abbrev pub is_overflow : UartEvent → Bool
is_overflow UartEvent.uart_fifo_ovf = true
is_overflow UartEvent.uart_buffer_full = true
is_overflow _ = false

abbrev pub NoOverflow : List UartEvent → Type 0
NoOverflow [] = Unit {0}
NoOverflow (e ∷ es) = (is_overflow e ≡ false) × NoOverflow es

abbrev pub IsLossless : List Input → Type 0
IsLossless [] = Unit {0}
IsLossless (arrives bytes e ∷ inputs) = (is_overflow e ≡ false) × IsLossless inputs
IsLossless (round queried reads ∷ inputs) = IsLossless inputs

abbrev pub arrived : List Input → List ℕ
arrived [] = []
arrived (arrives bytes e ∷ inputs) = bytes ++ arrived inputs
arrived (round queried reads ∷ inputs) = arrived inputs

abbrev pub concat : List (List ℕ) → List ℕ
concat [] = []
concat (x ∷ xs) = x ++ concat xs

concat-append : (xs ys : List (List ℕ)) → concat (xs ++ ys) ≡ concat xs ++ concat ys
concat-append [] ys = refl
concat-append (x ∷ xs) ys =
    ap (λ (r : List ℕ). x ++ r) (concat-append xs ys) ∙ sym (append_assoc x _ _)

pub concat_chunk :
    (xs : List (List ℕ)) (chunk rest : List ℕ)
    → concat (xs ++ (chunk ∷ [])) ++ rest ≡ concat xs ++ (chunk ++ rest)
concat_chunk xs chunk rest = rw (concat-append xs (chunk ∷ []), append-nil, append_assoc) refl

take-drop-length : (n : ℕ) (xs : List ℕ) → take n xs ++ drop (length (take n xs)) xs ≡ xs
take-drop-length zero xs = refl
take-drop-length (suc n) [] = refl
take-drop-length (suc n) (x ∷ xs) = ap (◌∷◌ x) (take-drop-length n xs)

-- What a call returns stands first in the buffer.
read_bytes-prefix :
    (reads : Reads) (wanted : ℕ) (buffered : List ℕ)
    → let chunk = (read_bytes reads wanted buffered).0 in
      chunk ++ drop (length chunk) buffered ≡ buffered
unfolding read_bytes
read_bytes-prefix [] wanted buffered = take-drop-length wanted buffered
read_bytes-prefix (none ∷ rest) wanted buffered = refl
read_bytes-prefix (some n ∷ rest) wanted buffered = take-drop-length (smaller n wanted) buffered

drain_loop-order :
    (fuel : ℕ) (reads : Reads) (remaining : ℕ) (buffered : List ℕ) (received : List (List ℕ))
    → let r = drain_loop fuel reads remaining buffered received in
      concat r.1 ++ r.0 ≡ concat received ++ buffered
unfolding drain_loop
drain_loop-order zero reads remaining buffered received = refl
drain_loop-order (suc fuel) reads remaining buffered received =
    let wanted = smaller remaining chunk_size in
    let chunk = (read_bytes reads wanted buffered).0 in
    let rest = (read_bytes reads wanted buffered).1 in
    let ih =
      drain_loop-order fuel rest (remaining - length chunk) (drop (length chunk) buffered)
        (received ++ (chunk ∷ [])) in
    elim (Bool-cases (remaining == 0)) [
      | inl e ↦ rw e refl
      | inr e ↦ elim (Bool-cases (length chunk == 0)) [
        | inl f ↦ rw (e, f) refl
        | inr f ↦
            rw (e, f)
              (ih
                ∙ concat_chunk received chunk (drop (length chunk) buffered)
                ∙ ap (λ (r : List ℕ). concat received ++ r)
                    (read_bytes-prefix reads wanted buffered))
      ]
    ]

receive_event-order :
    (queried : Option ℕ) (reads : Reads) (e : UartEvent) (s : Rx)
    → is_overflow e ≡ false
    → concat (receive_event queried reads e s).received
        ++ (receive_event queried reads e s).buffered
      ≡ concat s.received ++ s.buffered
unfolding receive_event
receive_event-order none reads UartEvent.uart_data s h = refl
receive_event-order (some k) reads UartEvent.uart_data s h =
    drain_loop-order k reads k s.buffered s.received
receive_event-order queried reads UartEvent.uart_fifo_ovf s h = cc
receive_event-order queried reads UartEvent.uart_buffer_full s h = cc
receive_event-order queried reads UartEvent.uart_break s h = refl
receive_event-order queried reads UartEvent.uart_parity_err s h = refl
receive_event-order queried reads UartEvent.uart_frame_err s h = refl
receive_event-order queried reads UartEvent.other s h = refl

-- The bytes that have been handed on and then those in the driver's buffer.
abbrev pub taken : Rx → List ℕ
taken s = concat s.received ++ s.buffered

NoOverflow-append :
    (es : List UartEvent) (e : UartEvent)
    → NoOverflow es
    → is_overflow e ≡ false
    → NoOverflow (es ++ (e ∷ []))
NoOverflow-append [] e h k = (k, tt)
NoOverflow-append (x ∷ es) e h k = (h.0, NoOverflow-append es e h.1 k)

receive_event-queue :
    (queried : Option ℕ) (reads : Reads) (e : UartEvent) (s : Rx)
    → is_overflow e ≡ false
    → (receive_event queried reads e s).queue ≡ s.queue
unfolding receive_event
receive_event-queue queried reads e s h = ground arith

receive_round-taken :
    (queried : Option ℕ) (reads : Reads) (buffered : List ℕ) (received : List (List ℕ))
    (queue : List UartEvent)
    → NoOverflow queue
    → let s : Rx = record { buffered = buffered; received = received; queue = queue } in
      (taken (receive_round queried reads s) ≡ taken s)
      × NoOverflow (receive_round queried reads s).queue
unfolding receive_round
receive_round-taken queried reads buffered received [] h = (refl, tt)
receive_round-taken queried reads buffered received (e ∷ rest) h =
    let s : Rx = record { buffered = buffered; received = received; queue = rest } in
    (receive_event-order queried reads e s h.0, rw (receive_event-queue queried reads e s h.0) h.1)

-- Where no UART event reports an overflow, the bytes that the receive task has handed on, followed
-- by those in the driver's buffer, are exactly the bytes that were there and those that arrived
-- since, in their order, whatever the reads answer.
pub receive_run-taken :
    (inputs : List Input) (s : Rx)
    → IsLossless inputs
    → NoOverflow s.queue
    → taken (receive_run inputs s) ≡ taken s ++ arrived inputs
unfolding receive_run
receive_run-taken [] s h q = sym (append-nil (taken s))
receive_run-taken (arrives bytes e ∷ inputs) s h q =
    let queue : List UartEvent = if ltb (length s.queue) 20 then s.queue ++ (e ∷ []) else s.queue in
    let next : Rx = record s { buffered = s.buffered ++ bytes; queue = queue } in
    let still : NoOverflow queue = elim (Bool-cases (ltb (length s.queue) 20)) [
      | inl b ↦ rw b (NoOverflow-append s.queue e q h.0)
      | inr b ↦ rw b q
    ] in
    receive_run-taken inputs next h.1 still ∙ rw (append_assoc, append_assoc, append_assoc) refl
receive_run-taken (round queried reads ∷ inputs) s h q =
    let (same, still) = receive_round-taken queried reads s.buffered s.received s.queue q in
    receive_run-taken inputs (receive_round queried reads s) h still
    ∙ ap (λ (r : List ℕ). r ++ arrived inputs) same
