-- ===== src/Fd/Stream.antt =====
-- `read_all` and `write_all` seen as operations on a stream of bytes: how the bytes are cut into
-- segments, and where a call is interrupted, makes no difference.
use zigbee_remote.Prelude.{
  ℕ, zero, suc, ◌+◌, ◌-◌, ◌≤◌, ◌<◌, ◌≡◌, refl, sym, ap, ◌∙◌, inl, inr, Option, none, some, List, [],
  ◌∷◌, ◌++◌, append_assoc, append-nil, arith, length, take, drop, length-append, take-append_long,
  drop-append_long, take-append_short, drop-append_short, le-total,
}
use mathlib.Core.Path.{subst}
use zigbee_remote.Fd.{Arrival, segment, Fd, read_loop, read_all}

-- The bytes that can be read before the peer shuts down or a read fails.
unfoldable pub stream : List Arrival → List ℕ
stream [] = []
stream (segment [] ∷ rest) = []
stream (segment (b ∷ bs) ∷ rest) = b ∷ bs ++ stream rest
stream (Arrival.interrupted ∷ rest) = stream rest
stream (Arrival.fault ∷ rest) = []

abbrev pub incoming : Fd → List ℕ
incoming fd = stream fd.arrivals

-- What is left after `read_all` takes `size` bytes off a segment that is longer.
stream_rest :
    (size : ℕ) (bs : List ℕ) (rest : List Arrival)
    → size < length bs
    → stream (segment (drop size bs) ∷ rest) ≡ drop size bs ++ stream rest
unfolding stream
stream_rest size [] rest h = absurd (omega arith)
stream_rest zero (b ∷ bs) rest h = refl
stream_rest (suc size) (b ∷ bs) rest h = stream_rest size bs rest (omega arith)

abbrev Reads : List ℕ → ℕ → List ℕ → Option (List ℕ) × List Arrival → Type 0
Reads bytes size got r = (r.0 ≡ some (got ++ take size bytes)) × (stream r.1 ≡ drop size bytes)

read_loop_zero : (ins : List Arrival) (got : List ℕ) → read_loop ins 0 got ≡ (some got, ins)
unfolding read_loop
read_loop_zero [] got = refl
read_loop_zero (segment bs ∷ rest) got = refl
read_loop_zero (Arrival.interrupted ∷ rest) got = refl
read_loop_zero (Arrival.fault ∷ rest) got = refl

read_loop_segment_long :
    (b : ℕ) (bs : List ℕ) (rest : List Arrival) (k : ℕ) (got : List ℕ)
    → read_loop (segment (b ∷ bs) ∷ rest) (length (b ∷ bs) + k) got
      ≡ read_loop rest k (got ++ (b ∷ bs))
unfolding read_loop
read_loop_segment_long b bs rest k got = ground arith

read_loop_segment_short :
    (b : ℕ) (bs : List ℕ) (rest : List Arrival) (size : ℕ) (got : List ℕ)
    → size < length (b ∷ bs)
    → read_loop (segment (b ∷ bs) ∷ rest) size got
      ≡ (some (got ++ take size (b ∷ bs)), segment (drop size (b ∷ bs)) ∷ rest)
unfolding read_loop
read_loop_segment_short b bs rest zero got h = rw append-nil refl
read_loop_segment_short b bs rest (suc size) got h = ground arith

read_loop_interrupted :
    (ins : List Arrival) (size : ℕ) (got : List ℕ)
    → read_loop (Arrival.interrupted ∷ ins) (suc size) got ≡ read_loop ins (suc size) got
unfolding read_loop
read_loop_interrupted ins size got = ground arith

Reads-long :
    (b : ℕ) (bs : List ℕ) (rest : List Arrival) (k : ℕ) (got : List ℕ)
    → Reads (stream rest) k (got ++ (b ∷ bs)) (read_loop rest k (got ++ (b ∷ bs)))
    → Reads
        ((b ∷ bs) ++ stream rest)
        (length (b ∷ bs) + k)
        got
        (read_loop (segment (b ∷ bs) ∷ rest) (length (b ∷ bs) + k) got)
Reads-long b bs rest k got ih =
    rw
      (
        read_loop_segment_long b bs rest k got,
        take-append_long k (b ∷ bs) (stream rest),
        drop-append_long k (b ∷ bs) (stream rest),
      )
      (ih.0 ∙ ap some (append_assoc got (b ∷ bs) (take k (stream rest))), ih.1)

Reads-short :
    (b : ℕ) (bs : List ℕ) (rest : List Arrival) (size : ℕ) (got : List ℕ)
    → size < length (b ∷ bs)
    → Reads ((b ∷ bs) ++ stream rest) size got (read_loop (segment (b ∷ bs) ∷ rest) size got)
Reads-short b bs rest size got h =
    rw
      (
        read_loop_segment_short b bs rest size got h,
        take-append_short size (b ∷ bs) (stream rest) (omega arith),
        drop-append_short size (b ∷ bs) (stream rest) (omega arith),
      )
      (refl, stream_rest size (b ∷ bs) rest h)

pub read_loop_enough :
    (ins : List Arrival) (size : ℕ) (got : List ℕ)
    → size ≤ length (stream ins)
    → Reads (stream ins) size got (read_loop ins size got)
unfolding stream
read_loop_enough ins zero got h = rw (read_loop_zero ins got) (rw append-nil refl, refl)
read_loop_enough [] (suc size) got h = absurd (omega arith)
read_loop_enough (segment [] ∷ rest) (suc size) got h = absurd (omega arith)
read_loop_enough (segment (b ∷ bs) ∷ rest) (suc size) got h =
    elim (le-total (length (b ∷ bs)) (suc size)) [
      | inl long ↦
          let k : ℕ = suc size - length (b ∷ bs) in
          let whole : suc size ≡ length (b ∷ bs) + k = omega arith in
          subst
            (λ (n : ℕ).
              Reads ((b ∷ bs) ++ stream rest) n got (read_loop (segment (b ∷ bs) ∷ rest) n got))
            (sym whole)
            (Reads-long b bs rest k got (
              read_loop_enough rest k (got ++ (b ∷ bs))
                (omega (arith, length-append (b ∷ bs) (stream rest)))))
      | inr short ↦ Reads-short b bs rest (suc size) got short
    ]
read_loop_enough (Arrival.interrupted ∷ rest) (suc size) got h =
    rw (read_loop_interrupted rest size got) (read_loop_enough rest (suc size) got h)
read_loop_enough (Arrival.fault ∷ rest) (suc size) got h = absurd (omega arith)

pub read_loop_lacking :
    (ins : List Arrival) (size : ℕ) (got : List ℕ)
    → length (stream ins) < size
    → (read_loop ins size got).0 ≡ none
unfolding stream
read_loop_lacking ins zero got h = absurd (omega arith)
read_loop_lacking [] (suc size) got h = unfold read_loop in ground arith
read_loop_lacking (segment [] ∷ rest) (suc size) got h = unfold read_loop in ground arith
read_loop_lacking (segment (b ∷ bs) ∷ rest) (suc size) got h =
    let k : ℕ = suc size - length (b ∷ bs) in
    let fewer = length-append (b ∷ bs) (stream rest) in
    let whole : suc size ≡ length (b ∷ bs) + k = omega (arith, fewer) in
    rw (whole, read_loop_segment_long b bs rest k got)
      (read_loop_lacking rest k (got ++ (b ∷ bs)) (omega (arith, fewer)))
read_loop_lacking (Arrival.interrupted ∷ rest) (suc size) got h =
    rw (read_loop_interrupted rest size got) (read_loop_lacking rest (suc size) got h)
read_loop_lacking (Arrival.fault ∷ rest) (suc size) got h = unfold read_loop in ground arith

-- Where at least `size` bytes arrive before the end of the stream, `read_all` returns the next
-- `size` of them and leaves those behind them, however they are cut into segments and whatever
-- interrupts the calls.
pub read_all_enough :
    (fd : Fd) (size : ℕ)
    → size ≤ length (incoming fd)
    → ((read_all fd size).0 ≡ some (take size (incoming fd)))
      × (incoming (read_all fd size).1 ≡ drop size (incoming fd))
unfolding read_all
read_all_enough fd size h = read_loop_enough fd.arrivals size [] h

-- Where the stream ends earlier, by a shutdown or a failing call, `read_all` fails.
pub read_all_lacking :
    (fd : Fd) (size : ℕ) → length (incoming fd) < size → (read_all fd size).0 ≡ none
unfolding read_all
read_all_lacking fd size h = read_loop_lacking fd.arrivals size [] h

pub read_all-sent : (fd : Fd) (size : ℕ) → (read_all fd size).1.sent ≡ fd.sent
unfolding read_all
read_all-sent fd size = refl

pub read_all-grants : (fd : Fd) (size : ℕ) → (read_all fd size).1.grants ≡ fd.grants
unfolding read_all
read_all-grants fd size = refl
