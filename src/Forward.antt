-- ===== src/Forward.antt =====
-- zb_rpc_client/netdev_fwd.c: a TCP connection over the PPP link, spliced to one on the host. This
-- file has the state of a connection and the callbacks of lwIP.
pub mod Accept
pub mod Listen
pub mod Received
pub mod Thread
pub mod Order
pub mod Spliced
pub mod Ends
use zigbee_remote.Prelude.{
  ℕ, zero, suc, ◌+◌, Bool, true, false, ◌&&◌, Option, none, some, List, [], ◌∷◌, ◌++◌,
  if◌then◌else◌, length, take, drop,
}
use zigbee_remote.Fd.{Grant, accepts}

-- `struct netdev_conn`: whether `pcb` is not NULL, `host_fd` if it is not negative, `alive`.
pub record Conn : Type 0 where
  pub pcb : Bool
  pub host_fd : Option ℕ
  pub alive : Bool

-- `err_t`
pub data Err : Type 0 where
  err_ok err_mem err_val err_arg err_abrt err_other : Err

-- One connection: the object where it is allocated; whether the callbacks of its pcb are set, with
-- the object as their argument; whether `close_pcb_cb` waits to be run, and whether the pcb is
-- closed; the open descriptors; what has been written to the host and to the pcb, and how much
-- has been acknowledged to lwIP.
pub record Splice : Type 0 where
  pub conn : Option Conn
  pub has_arg : Bool
  pub close_queued : Bool
  pub pcb_closed : Bool
  pub fds : List ℕ
  pub to_host : List ℕ
  pub to_pcb : List ℕ
  pub recved : ℕ

-- The object is used; `none` where it is not allocated.
unfoldable pub with_conn {ℓ} : {A : Type ℓ} → Splice → (Conn → Option A) → Option A
with_conn s f = elim s.conn [ none ↦ none | some c ↦ f c ]

-- The writes of one pbuf: `left` is still to be written. `::write` that takes nothing is repeated.
-- The result is whether the connection is still alive, and what is written.
unfoldable pub write_left : List Grant → List ℕ → List ℕ → Bool × List Grant × List ℕ
write_left [] left out = (true, [], out ++ left)
write_left (g ∷ rest) [] out = (true, g ∷ rest, out)
write_left (accepts n ∷ rest) (b ∷ bs) out =
    write_left rest (drop n (b ∷ bs)) (out ++ take n (b ∷ bs))
write_left (Grant.interrupted ∷ rest) (b ∷ bs) out = write_left rest (b ∷ bs) out
write_left (Grant.fault ∷ rest) (b ∷ bs) out = (false, rest, out)

-- The chain of pbufs, of a connection that is alive and has a descriptor.
unfoldable pub write_chain : List Grant → List (List ℕ) → List ℕ → Bool × List ℕ
unfolding write_left
write_chain grants [] out = (true, out)
write_chain grants (p ∷ ps) out =
    let (alive, rest, out') = write_left grants p out in
    let next = write_chain rest ps out' in if alive then next else (false, out')

abbrev pub is_set : Option ℕ → Bool
is_set none = false
is_set (some fd) = true

abbrev pub total : List (List ℕ) → ℕ
total [] = 0
total (p ∷ ps) = length p + total ps

unfoldable pub forward_chain : List Grant → List (List ℕ) → Conn → Splice → Splice
unfolding write_chain
forward_chain grants pbufs c s =
    let (alive, out) = write_chain grants pbufs s.to_host in
    let acknowledged = record s { recved = s.recved + total pbufs } in
    if c.alive && is_set c.host_fd
    then record acknowledged { to_host = out; conn = some (record c { alive = alive }) }
    else acknowledged

-- `p` is `none` at the end of the stream; the shutdown of the host socket is left out. A pcb without an argument is one whose connection ended.
unfoldable pub netdev_recv :
    List Grant → (p : Option (List (List ℕ))) → (err : Err) → Splice → Option (Err × Splice)
unfolding with_conn forward_chain
netdev_recv grants p Err.err_ok s =
    if s.has_arg
    then with_conn s (λ c. elim p [
      | none ↦ some (Err.err_ok, record s { conn = some (record c { alive = false }) })
      | some pbufs ↦ some (Err.err_ok, forward_chain grants pbufs c s)
    ])
    else some (Err.err_arg, s)
netdev_recv grants p err s = if s.has_arg then some (Err.err_ok, s) else some (Err.err_arg, s)

-- lwIP has freed the pcb.
unfoldable pub netdev_err : Splice → Option Splice
unfolding with_conn
netdev_err s =
    if s.has_arg
    then with_conn s
        (λ c. some (record s { conn = some (record c { pcb = false; alive = false }) }))
    else some s

-- `close_pcb_cb`
unfoldable pub close_pcb_cb : Splice → Splice
close_pcb_cb s = record s { has_arg = false; close_queued = false; pcb_closed = true }

-- `tcp_write_sync`: whether the semaphore and the callback are there, and what `tcp_write` returns.
unfoldable pub tcp_write_sync : (sem_made callback_taken : Bool) → Err → Err
tcp_write_sync sem_made callback_taken err =
    if sem_made then (if callback_taken then err else Err.err_val) else Err.err_mem
