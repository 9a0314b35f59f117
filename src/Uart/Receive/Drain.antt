-- ===== src/Uart/Receive/Drain.antt =====
-- When `uart_receive_task` of zb_rpc_server/main/ppp_uart.c has read all that it was told of.
use zigbee_remote.Prelude.{
  ℕ, zero, suc, ◌+◌, ◌-◌, ◌≤◌, ◌<◌, ◌≡◌, refl, sym, ap, ◌∙◌, false, none, some, List, [], ◌∷◌, ◌++◌,
  append-nil, arith, ◌==◌, length, take, drop, length-drop,
}
use zigbee_remote.Uart.Receive.Order.{concat, concat_chunk}
use zigbee_remote.Uart.Receive.{
  chunk_size, UartEvent, Rx, Reads, smaller, read_bytes, drain_loop, receive_event,
}

-- Every read of bytes that are there returns some.
abbrev pub IsReady : Reads → Type 0
IsReady [] = Unit {0}
IsReady (none ∷ rest) = ⊥
IsReady (some n ∷ rest) = (0 < n) × IsReady rest

abbrev pub IsChunked : List (List ℕ) → Type 0
IsChunked [] = Unit {0}
IsChunked (c ∷ cs) = (0 < length c) × (length c ≤ chunk_size) × IsChunked cs

IsChunked-append :
    (cs : List (List ℕ)) (c : List ℕ)
    → IsChunked cs
    → 0 < length c
    → length c ≤ chunk_size
    → IsChunked (cs ++ (c ∷ []))
IsChunked-append [] c h p q = (p, q, tt)
IsChunked-append (x ∷ cs) c h p q = (h.0, h.1, IsChunked-append cs c h.2 p q)

length-take_cases : (n : ℕ) (xs : List ℕ) → length (take n xs) ≡ smaller n (length xs)
length-take_cases zero xs = ground arith
length-take_cases (suc n) [] = ground arith
length-take_cases (suc n) (x ∷ xs) = ground (arith, length-take_cases n xs)

drop-nil : (n : ℕ) → drop {A = ℕ} n [] ≡ []
drop-nil zero = refl
drop-nil (suc n) = refl

drop-drop : (m n : ℕ) (xs : List ℕ) → drop n (drop m xs) ≡ drop (m + n) xs
drop-drop zero n xs = ap (λ (k : ℕ). drop k xs) (omega arith)
drop-drop (suc m) n [] = drop-nil n ∙ sym (drop-nil (suc m + n))
drop-drop (suc m) n (x ∷ xs) = drop-drop m n xs ∙ ap (λ (k : ℕ). drop k (x ∷ xs)) suc_add
  where
    suc_add : suc (m + n) ≡ suc m + n
    suc_add = omega arith

length-read_bytes :
    (reads : Reads) (wanted : ℕ) (buffered : List ℕ)
    → IsReady reads
    → 0 < wanted
    → wanted ≤ length buffered
    → (0 < length (read_bytes reads wanted buffered).0)
      × (length (read_bytes reads wanted buffered).0 ≤ wanted)
      × IsReady (read_bytes reads wanted buffered).1
unfolding read_bytes
length-read_bytes [] wanted buffered r p q = (
  ground (arith, length-take_cases wanted buffered),
  ground (arith, length-take_cases wanted buffered),
  tt,
)
length-read_bytes (none ∷ rest) wanted buffered r p q = absurd r
length-read_bytes (some n ∷ rest) wanted buffered r p q = (
  ground (arith, length-take_cases (smaller n wanted) buffered),
  ground (arith, length-take_cases (smaller n wanted) buffered),
  r.1,
)

take-take : (n : ℕ) (xs : List ℕ) → take n xs ≡ take (length (take n xs)) xs
take-take zero xs = refl
take-take (suc n) [] = refl
take-take (suc n) (x ∷ xs) = ap (◌∷◌ x) (take-take n xs)

take-drop : (m n : ℕ) (xs : List ℕ) → take m xs ++ take n (drop m xs) ≡ take (m + n) xs
take-drop zero n xs = ap (λ (k : ℕ). take k xs) (omega arith)
take-drop (suc m) n [] = take-nil n ∙ sym (take-nil (suc m + n))
  where
    take-nil : (n : ℕ) → take {A = ℕ} n [] ≡ []
    take-nil zero = refl
    take-nil (suc n) = refl
take-drop (suc m) n (x ∷ xs) =
    ap (◌∷◌ x) (take-drop m n xs) ∙ ap (λ (k : ℕ). take k (x ∷ xs)) suc_add
  where
    suc_add : suc (m + n) ≡ suc m + n
    suc_add = omega arith

-- What a call returns is taken from the front of the buffer.
read_bytes-take :
    (reads : Reads) (wanted : ℕ) (buffered : List ℕ)
    → let chunk = (read_bytes reads wanted buffered).0 in chunk ≡ take (length chunk) buffered
unfolding read_bytes
read_bytes-take [] wanted buffered = take-take wanted buffered
read_bytes-take (none ∷ rest) wanted buffered = refl
read_bytes-take (some n ∷ rest) wanted buffered = take-take (smaller n wanted) buffered

-- The first bytes of the buffer are handed on behind those before them, and the others are left.
abbrev Drains : ℕ → List ℕ → List (List ℕ) → List ℕ × List (List ℕ) → Type 0
Drains remaining buffered received r =
    (r.0 ≡ drop remaining buffered)
    × (concat r.1 ≡ concat received ++ take remaining buffered)
    × IsChunked r.1

drain_loop-Drains :
    (fuel : ℕ) (reads : Reads) (remaining : ℕ) (buffered : List ℕ) (received : List (List ℕ))
    → remaining ≤ fuel
    → remaining ≤ length buffered
    → IsReady reads
    → IsChunked received
    → Drains remaining buffered received (drain_loop fuel reads remaining buffered received)
unfolding drain_loop
drain_loop-Drains zero reads zero buffered received f b r c =
    (refl, sym (append-nil (concat received)), c)
drain_loop-Drains zero reads (suc k) buffered received f b r c = absurd (omega arith)
drain_loop-Drains (suc fuel) reads zero buffered received f b r c =
    (refl, sym (append-nil (concat received)), c)
drain_loop-Drains (suc fuel) reads (suc k) buffered received f b r c =
    let wanted = smaller (suc k) chunk_size in
    let read = read_bytes reads wanted buffered in
    let size : ℕ = length read.0 in
    let (some_read, fits, ready) =
      length-read_bytes reads wanted buffered r (ground arith) (ground arith) in
    let more : (size == 0) ≡ false = ground arith in
    let small : size ≤ chunk_size = ground arith in
    let short : size ≤ suc k = ground arith in
    let nonzero : (suc k == 0) ≡ false = ground arith in
    let whole : size + (suc k - size) ≡ suc k = omega arith in
    let rest = take (suc k - size) (drop size buffered) in
    let (left, handed, chunks) =
      drain_loop-Drains fuel read.1 (suc k - size) (drop size buffered) (received ++ (read.0 ∷ []))
        (omega arith) (omega (arith, length-drop size buffered)) ready
        (IsChunked-append received read.0 c some_read small) in
    let front : read.0 ++ rest ≡ take (suc k) buffered =
      ap (λ (bs : List ℕ). bs ++ rest) (read_bytes-take reads wanted buffered)
      ∙ take-drop size (suc k - size) buffered
      ∙ ap (λ (n : ℕ). take n buffered) whole in
    rw (nonzero, more)
      (
        left ∙ drop-drop size (suc k - size) buffered ∙ ap (λ (n : ℕ). drop n buffered) whole,
        handed
            ∙ concat_chunk received read.0 rest
            ∙ ap (λ (bs : List ℕ). concat received ++ bs) front,
        chunks,
      )

-- Where the task is told of no more bytes than are buffered, no read returns nothing, and what was
-- handed on before came in chunks of 1 to 1,024 bytes, a data event hands on exactly the bytes
-- that the task is told of, from the front of the buffer and in their order, in chunks of 1 to
-- 1,024 bytes, and leaves what is behind them in the buffer.
pub receive_event-drains :
    (remaining : ℕ) (reads : Reads) (s : Rx)
    → remaining ≤ length s.buffered
    → IsReady reads
    → IsChunked s.received
    → let t = receive_event (some remaining) reads UartEvent.uart_data s in
      (t.buffered ≡ drop remaining s.buffered)
      × (concat t.received ≡ concat s.received ++ take remaining s.buffered)
      × IsChunked t.received
unfolding receive_event
receive_event-drains remaining reads s b r c =
    drain_loop-Drains remaining reads remaining s.buffered s.received (omega arith) b r c
