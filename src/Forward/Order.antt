-- ===== src/Forward/Order.antt =====
-- What reaches the peer of a connection that zb_rpc_client/netdev_fwd.c forwards, and what is left of
-- the connection.
use mathlib.Core.Path.{subst}
use zigbee_remote.Prelude.{
  ℕ, ◌≡◌, inl, inr, Bool, true, false, Bool-cases, ◌&&◌, Option, none, some, List, ◌∷◌, ◌++◌, arith,
  if◌then◌else◌,
}
use zigbee_remote.Fd.{Grant}
use zigbee_remote.Forward.{
  Conn, Err, Splice, is_set, with_conn, write_chain, forward_chain, netdev_recv, netdev_err,
}
use zigbee_remote.Forward.Thread.{Pc, in_flight, received}

abbrev pub IsPrefix : List ℕ → List ℕ → Type 0
IsPrefix xs ys = (rest : List ℕ) × (ys ≡ xs ++ rest)

-- The thread has closed the host's descriptor.
abbrev pub is_closed : Pc → Bool
is_closed Pc.freeing = true
is_closed Pc.ended = true
is_closed _ = false

abbrev pub is_ended : Pc → Bool
is_ended Pc.ended = true
is_ended _ = false

-- The thread may have posted `close_pcb_cb`.
abbrev pub may_have_posted : Pc → Bool
may_have_posted Pc.closing = true
may_have_posted pc = is_closed pc

-- The thread has ended the connection's life itself.
abbrev pub has_stopped : Pc → Bool
has_stopped Pc.unlinking = true
has_stopped Pc.posting = true
has_stopped pc = may_have_posted pc

abbrev pub held_fd : ℕ → Pc → Option ℕ
held_fd fd pc = if is_closed pc then none else some fd

abbrev pub open_fds : List ℕ → ℕ → Pc → List ℕ
open_fds base fd pc = if is_closed pc then base else fd ∷ base

-- The connection is there. While it is alive, what has been taken from the host and is not on its
-- way has been written to the pcb.
pub record IsLive (base : List ℕ) (c : Conn) (fd : ℕ) (pc : Pc) (s : Splice) (taken : List ℕ)
    : Type 0 where
  pub conn_is : s.conn ≡ some c
  pub fd_is : c.host_fd ≡ held_fd fd pc
  pub fds_are : s.fds ≡ open_fds base fd pc
  pub runs : is_ended pc ≡ false
  pub arg_set : may_have_posted pc ≡ false → s.has_arg ≡ true
  pub quiet : may_have_posted pc ≡ false → s.close_queued ≡ false
  pub stopped : has_stopped pc ≡ true → c.alive ≡ false
  pub has_pcb : c.alive ≡ true → c.pcb ≡ true
  pub whole : c.alive ≡ true → taken ≡ s.to_pcb ++ in_flight pc

pub record IsOver (base : List ℕ) (pc : Pc) (s : Splice) : Type 0 where
  pub no_conn : s.conn ≡ none
  pub fds_are : s.fds ≡ base
  pub is_over : pc ≡ Pc.ended

pub data State (base : List ℕ) (pc : Pc) (s : Splice) (taken : List ℕ) : Type 0 where
  live :
      (c : Conn) (fd : ℕ)
      → IsLive base c fd pc s taken
      → IsPrefix s.to_pcb taken
      → State base pc s taken
  over : IsOver base pc s → IsPrefix s.to_pcb taken → State base pc s taken

-- A callback leaves all but the bytes to the host alone, and may end the connection's life.
pub record KeptAs (c d : Conn) (s t : Splice) : Type 0 where
  pub conn_is : t.conn ≡ some d
  pub fd_same : d.host_fd ≡ c.host_fd
  pub life : d.alive ≡ true → (c.alive ≡ true) × (d.pcb ≡ c.pcb)
  pub fds_same : t.fds ≡ s.fds
  pub arg_same : t.has_arg ≡ s.has_arg
  pub queue_same : t.close_queued ≡ s.close_queued
  pub pcb_same : t.to_pcb ≡ s.to_pcb

abbrev pub Kept : Conn → Splice → Splice → Type 0
Kept c s t = (d : Conn) × KeptAs c d s t

pub State-Kept :
    (base : List ℕ) (c : Conn) (fd : ℕ) (pc : Pc) (s t : Splice) (taken : List ℕ)
    → IsLive base c fd pc s taken
    → IsPrefix s.to_pcb taken
    → Kept c s t
    → State base pc t taken
State-Kept base c fd pc s t taken h (rest, pre) (d, kept) =
    live d fd (ground arith) (rest, ground arith)

forward_chain-Kept :
    (grants : List Grant) (pbufs : List (List ℕ)) (c : Conn) (s : Splice)
    → s.conn ≡ some c
    → Kept c s (forward_chain grants pbufs c s)
unfolding forward_chain
forward_chain-Kept grants pbufs c s e = elim (Bool-cases (c.alive && is_set c.host_fd)) [
  | inl alive ↦ (record c { alive = (write_chain grants pbufs s.to_host).0 }, ground arith)
  | inr gone ↦ (c, ground arith)
]

pub netdev_recv-Kept :
    (grants : List Grant) (p : Option (List (List ℕ))) (err : Err) (c : Conn) (s t : Splice)
    → s.conn ≡ some c
    → received (netdev_recv grants p err s) ≡ some t
    → Kept c s t
unfolding netdev_recv with_conn
netdev_recv-Kept grants none Err.err_ok c s t conn e = elim (Bool-cases s.has_arg) [
  | inl arg ↦ (record c { alive = false }, ground arith)
  | inr no_arg ↦ (c, ground arith)
]
netdev_recv-Kept grants (some pbufs) Err.err_ok c s t conn e = elim (Bool-cases s.has_arg) [
  | inl arg ↦
      let kept = forward_chain-Kept grants pbufs c s conn in
      let same : forward_chain grants pbufs c s ≡ t = ground arith in subst (Kept c s) same kept
  | inr no_arg ↦ (c, ground arith)
]
netdev_recv-Kept grants p Err.err_mem c s t conn e = (c, ground arith)
netdev_recv-Kept grants p Err.err_val c s t conn e = (c, ground arith)
netdev_recv-Kept grants p Err.err_arg c s t conn e = (c, ground arith)
netdev_recv-Kept grants p Err.err_abrt c s t conn e = (c, ground arith)
netdev_recv-Kept grants p Err.err_other c s t conn e = (c, ground arith)

pub netdev_err-Kept :
    (c : Conn) (s t : Splice) → s.conn ≡ some c → netdev_err s ≡ some t → Kept c s t
unfolding netdev_err with_conn
netdev_err-Kept c s t conn e = elim (Bool-cases s.has_arg) [
  | inl arg ↦ (record c { pcb = false; alive = false }, ground arith)
  | inr no_arg ↦ (c, ground arith)
]

-- The object is not there although the pcb has it as its argument.
abbrev pub IsDangling : Splice → Type 0
IsDangling s = (s.conn ≡ none) × (s.has_arg ≡ true)

pub netdev_recv-IsDangling :
    (grants : List Grant) (p : Option (List (List ℕ))) (err : Err) (s : Splice)
    → received (netdev_recv grants p err s) ≡ none
    → IsDangling s
unfolding netdev_recv with_conn
netdev_recv-IsDangling grants p err s e = ground arith

pub netdev_err-IsDangling : (s : Splice) → netdev_err s ≡ none → IsDangling s
unfolding netdev_err with_conn
netdev_err-IsDangling s e = ground arith

pub netdev_recv-over :
    (base : List ℕ) (pc : Pc) (grants : List Grant) (p : Option (List (List ℕ))) (err : Err)
    (s t : Splice)
    → IsOver base pc s
    → received (netdev_recv grants p err s) ≡ some t
    → t ≡ s
unfolding netdev_recv with_conn
netdev_recv-over base pc grants p err s t h e = ground arith

pub netdev_err-over :
    (base : List ℕ) (pc : Pc) (s t : Splice) → IsOver base pc s → netdev_err s ≡ some t → t ≡ s
unfolding netdev_err with_conn
netdev_err-over base pc s t h e = ground arith
