-- ===== src/Uart/Receive.antt =====
-- `uart_receive_task` of zb_rpc_server/main/ppp_uart.c: one round of its loop for each UART event.
pub mod Order
pub mod Drain
use zigbee_remote.Prelude.{
  ℕ, zero, suc, ◌+◌, ◌-◌, ◌≤◌, ◌<◌, ◌≡◌, refl, sym, ap, ◌∙◌, Bool, true, false, Bool-cases, inl,
  inr, Option, none, some, List, [], ◌∷◌, ◌++◌, append_assoc, append-nil, arith, ltb, ◌==◌,
  if◌then◌else◌, length, take, drop, length-take, length-drop,
}

abbrev pub chunk_size : ℕ
chunk_size = 1024

-- `event.type`; `other` is any that the task does not name.
pub data UartEvent : Type 0 where
  uart_data uart_fifo_ovf uart_buffer_full uart_break uart_parity_err uart_frame_err : UartEvent
  other : UartEvent

-- The bytes in the driver's buffer, those handed to `esp_netif_receive`, in order and chunk by
-- chunk, and the queue of events. A chunk that the netif rejects is only logged.
pub record Rx : Type 0 where
  pub buffered : List ℕ
  pub received : List (List ℕ)
  pub queue : List UartEvent

-- What `uart_read_bytes` answers: at most so many bytes, or a negative result. After the last
-- answer it returns all that is wanted.
abbrev pub Reads : Type 0
Reads = List (Option ℕ)

abbrev pub smaller : ℕ → ℕ → ℕ
smaller a b = if ltb a b then a else b

-- The bytes that one call returns, none for a failure, and the answers that are left.
unfoldable pub read_bytes : Reads → ℕ → List ℕ → List ℕ × Reads
read_bytes [] wanted buffered = (take wanted buffered, [])
read_bytes (none ∷ rest) wanted buffered = ([], rest)
read_bytes (some n ∷ rest) wanted buffered = (take (smaller n wanted) buffered, rest)

-- The inner loop. `fuel` is the most rounds it may take.
unfoldable pub drain_loop : ℕ → Reads → ℕ → List ℕ → List (List ℕ) → List ℕ × List (List ℕ)
unfolding read_bytes
drain_loop zero reads remaining buffered received = (buffered, received)
drain_loop (suc fuel) reads remaining buffered received =
    let (chunk, rest) = read_bytes reads (smaller remaining chunk_size) buffered in
    let next =
      drain_loop fuel rest (remaining - length chunk) (drop (length chunk) buffered)
        (received ++ (chunk ∷ [])) in
    if (remaining == 0)
    then (buffered, received)
    else if (length chunk == 0)
    then (buffered, received)
    else next

-- `queried` is what `uart_get_buffered_data_len` gives, or `none` if it fails.
unfoldable pub receive_event : Option ℕ → Reads → UartEvent → Rx → Rx
unfolding drain_loop
receive_event none reads UartEvent.uart_data s = s
receive_event (some remaining) reads UartEvent.uart_data s =
    let (buffered, received) = drain_loop remaining reads remaining s.buffered s.received in
    record s { buffered = buffered; received = received }
receive_event queried reads UartEvent.uart_fifo_ovf s = record s { buffered = []; queue = [] }
receive_event queried reads UartEvent.uart_buffer_full s = record s { buffered = []; queue = [] }
receive_event queried reads UartEvent.uart_break s = s
receive_event queried reads UartEvent.uart_parity_err s = s
receive_event queried reads UartEvent.uart_frame_err s = s
receive_event queried reads UartEvent.other s = s

-- One round of the task: nothing without an event.
unfoldable pub receive_round : Option ℕ → Reads → Rx → Rx
unfolding receive_event
receive_round queried reads s = elim (s.queue) [
  | [] ↦ s
  | e ∷ rest ↦ receive_event queried reads e (record s { queue = rest })
]

-- What happens at the port: bytes that arrive with the event that announces them, or a round of
-- the task. The queue has room for twenty events; one that finds it full is dropped.
pub data Input : Type 0 where
  arrives : List ℕ → UartEvent → Input
  round : Option ℕ → Reads → Input

unfoldable pub receive_run : List Input → Rx → Rx
unfolding receive_round
receive_run [] s = s
receive_run (arrives bytes e ∷ inputs) s = receive_run inputs (record s {
  buffered = s.buffered ++ bytes;
  queue = if ltb (length s.queue) 20 then s.queue ++ (e ∷ []) else s.queue;
})
receive_run (round queried reads ∷ inputs) s = receive_run inputs (receive_round queried reads s)
