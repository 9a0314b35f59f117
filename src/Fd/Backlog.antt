-- ===== src/Fd/Backlog.antt =====
-- How many bytes can still arrive: what bounds the number of frames that a connection can bring.
use zigbee_remote.Prelude.{
  ℕ, ◌+◌, ◌-◌, ◌≤◌, ◌≡◌, some, List, [], ◌∷◌, ◌++◌, arith, length, length-drop,
}
use zigbee_remote.Fd.{Arrival, segment, Fd, read_loop, read_all}

unfoldable pub backlog : List Arrival → ℕ
backlog [] = 0
backlog (segment bs ∷ rest) = length bs + backlog rest
backlog (Arrival.interrupted ∷ rest) = backlog rest
backlog (Arrival.fault ∷ rest) = backlog rest

read_loop-backlog :
    (ins : List Arrival) (size : ℕ) (got bytes : List ℕ)
    → (read_loop ins size got).0 ≡ some bytes
    → backlog (read_loop ins size got).1 + size ≤ backlog ins
unfolding read_loop backlog
read_loop-backlog [] size got bytes h = ground arith
read_loop-backlog (segment bs ∷ rest) size got bytes h =
    ground (arith, read_loop-backlog rest (size - length bs) (got ++ bs) bytes, length-drop size bs)
read_loop-backlog (Arrival.interrupted ∷ rest) size got bytes h =
    ground (arith, read_loop-backlog rest size got bytes)
read_loop-backlog (Arrival.fault ∷ rest) size got bytes h = ground arith

read_loop-backlog_le :
    (ins : List Arrival) (size : ℕ) (got : List ℕ)
    → backlog (read_loop ins size got).1 ≤ backlog ins
unfolding read_loop backlog
read_loop-backlog_le [] size got = ground arith
read_loop-backlog_le (segment bs ∷ rest) size got =
    ground (arith, read_loop-backlog_le rest (size - length bs) (got ++ bs), length-drop size bs)
read_loop-backlog_le (Arrival.interrupted ∷ rest) size got =
    ground (arith, read_loop-backlog_le rest size got)
read_loop-backlog_le (Arrival.fault ∷ rest) size got = ground arith

pub read_all-backlog :
    (fd : Fd) (size : ℕ) (bytes : List ℕ)
    → (read_all fd size).0 ≡ some bytes
    → backlog (read_all fd size).1.arrivals + size ≤ backlog fd.arrivals
unfolding read_all
read_all-backlog fd size bytes h = read_loop-backlog fd.arrivals size [] bytes h

pub read_all-backlog_le :
    (fd : Fd) (size : ℕ) → backlog (read_all fd size).1.arrivals ≤ backlog fd.arrivals
unfolding read_all
read_all-backlog_le fd size = read_loop-backlog_le fd.arrivals size []
