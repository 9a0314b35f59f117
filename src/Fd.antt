-- ===== src/Fd.antt =====
-- `read_all` and `write_all` of zb_rpc_shared/include/zb_rpc/engine.hpp over a file descriptor.
-- What the kernel answers to `::read` and `::write` is input: a list of arrivals and of grants.
pub mod Stream
pub mod Output
pub mod Backlog
use zigbee_remote.Prelude.{
  ℕ, ◌+◌, ◌-◌, Bool, true, false, Option, none, some, List, [], ◌∷◌, ◌++◌, leb, ◌==◌, if◌then◌else◌,
  length, take, drop,
}

-- `segment bs`: the bytes `bs` come in; a `::read` returns at most that many, and what it does not
-- ask for is left for the next one. An empty segment is a `::read` that returns 0, an orderly
-- shutdown; so does every `::read` after the last arrival. `interrupted` is -1 with EINTR, `fault`
-- is -1 with another errno.
pub data Arrival : Type 0 where
  segment : List ℕ → Arrival
  interrupted : Arrival
  fault : Arrival

-- `accepts n`: a `::write` takes at most `n` bytes. After the last grant all is taken.
pub data Grant : Type 0 where
  accepts : ℕ → Grant
  interrupted : Grant
  fault : Grant

pub record Fd : Type 0 where
  pub arrivals : List Arrival
  pub grants : List Grant
  pub sent : List ℕ

-- `size` bytes are still wanted, `got` are read. Each arrival is the answer to one `::read`.
unfoldable pub read_loop : List Arrival → ℕ → List ℕ → Option (List ℕ) × List Arrival
read_loop [] size got = if size == 0 then (some got, []) else (none, [])
read_loop (segment bs ∷ rest) size got =
    let next = read_loop rest (size - length bs) (got ++ bs) in
    if size == 0
    then (some got, segment bs ∷ rest)
    else if length bs == 0
    then (none, rest)
    else if leb (length bs) size
    then next
    else (some (got ++ take size bs), segment (drop size bs) ∷ rest)
read_loop (Arrival.interrupted ∷ rest) size got =
    let next = read_loop rest size got in
    if size == 0 then (some got, Arrival.interrupted ∷ rest) else next
read_loop (Arrival.fault ∷ rest) size got =
    if size == 0 then (some got, Arrival.fault ∷ rest) else (none, rest)

-- `none` where the source returns false: the buffer is then only partly filled.
unfoldable pub read_all : Fd → ℕ → Option (List ℕ) × Fd
unfolding read_loop
read_all fd size =
    let (result, rest) = read_loop fd.arrivals size [] in (result, record fd { arrivals = rest })

-- `bytes` are still to be written, `sent` are written. Each grant is the answer to one `::write`.
unfoldable pub write_loop : List Grant → List ℕ → List ℕ → Bool × List Grant × List ℕ
write_loop [] bytes sent = (true, [], sent ++ bytes)
write_loop (g ∷ rest) [] sent = (true, g ∷ rest, sent)
write_loop (accepts n ∷ rest) (b ∷ bs) sent =
    let next = write_loop rest (drop n (b ∷ bs)) (sent ++ take n (b ∷ bs)) in
    if n == 0 then (false, rest, sent) else next
write_loop (Grant.interrupted ∷ rest) (b ∷ bs) sent = write_loop rest (b ∷ bs) sent
write_loop (Grant.fault ∷ rest) (b ∷ bs) sent = (false, rest, sent)

unfoldable pub write_all : Fd → List ℕ → Bool × Fd
unfolding write_loop
write_all fd bytes =
    let (done, rest, sent) = write_loop fd.grants bytes fd.sent in
    (done, record fd { grants = rest; sent = sent })
