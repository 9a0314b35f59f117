-- ===== src/Forward/Thread.antt =====
-- `host_to_pcb_thread` of zb_rpc_client/netdev_fwd.c beside the callbacks of lwIP's thread.
use zigbee_remote.Prelude.{
  ℕ, Bool, false, ◌&&◌, Option, none, some, List, [], ◌∷◌, ◌++◌, if◌then◌else◌, take,
}
use zigbee_remote.Fd.{Grant}
use zigbee_remote.Main.Connect.{close_socket}
use zigbee_remote.Forward.{
  Conn, Err, Splice, is_set, with_conn, netdev_recv, netdev_err, close_pcb_cb,
}

-- `NETDEV_BUF`
abbrev pub netdev_buf : ℕ
netdev_buf = 2048

-- Where the thread stands: at the test of its outer loop; in the inner one, with the bytes that are
-- still to be written; behind the loops, at each access of the object or call; or at its end.
pub data Pc : Type 0 where
  at_read : Pc
  at_write : List ℕ → Pc
  leaving unlinking posting closing freeing : Pc
  ended : Pc

-- What `::read` gives; `came` holds at least one byte.
pub data ReadAnswer : Type 0 where
  came : ℕ → List ℕ → ReadAnswer
  closed interrupted failed : ReadAnswer

abbrev pub close_host : Option ℕ → List ℕ → List ℕ
close_host none fds = fds
close_host (some fd) fds = close_socket fd fds

abbrev pub dead : Conn → Splice → Splice
dead c s = record s { conn = some (record c { alive = false }) }

-- Behind the loops: `c->alive = 0`; the test of `c->pcb`, which is taken out; the call of
-- `tcpip_callback`, whose result is not looked at; the close of the host's descriptor; and `free`.
unfoldable pub finish : (callback_taken : Bool) → Pc → Conn → Splice → Pc × Splice
finish callback_taken Pc.leaving c s = (Pc.unlinking, dead c s)
finish callback_taken Pc.unlinking c s =
    if c.pcb
    then (Pc.posting, record s { conn = some (record c { pcb = false }) })
    else (Pc.closing, s)
finish callback_taken Pc.posting c s = (Pc.closing, record s { close_queued = callback_taken })
finish callback_taken Pc.closing c s = (
  Pc.freeing,
  record s { fds = close_host c.host_fd s.fds; conn = some (record c { host_fd = none }) },
)
finish callback_taken Pc.freeing c s = (Pc.ended, record s { conn = none })
finish callback_taken pc c s = (pc, s)

unfoldable pub after_write : Err → List ℕ → Conn → Splice → Pc × Splice
after_write Err.err_ok chunk c s = (Pc.at_read, record s { to_pcb = s.to_pcb ++ chunk })
after_write Err.err_mem chunk c s = (Pc.at_write chunk, s)
after_write err chunk c s = (Pc.at_read, dead c s)

unfoldable pub after_read : ReadAnswer → Splice → Pc × Splice
after_read (came b bs) s = (Pc.at_write (take netdev_buf (b ∷ bs)), s)
after_read closed s = (Pc.leaving, s)
after_read interrupted s = (Pc.at_read, s)
after_read failed s = (Pc.leaving, s)

-- One step: a test of a loop with the call behind it, or a step behind the loops. `written` is the
-- result of `tcp_write_sync`.
unfoldable pub thread_step :
    ReadAnswer → (written : Err) → (callback_taken : Bool) → Pc → Splice → Option (Pc × Splice)
unfolding with_conn after_write after_read finish
thread_step answer written callback_taken Pc.at_read s = with_conn s λ c.
    some (if c.alive && is_set c.host_fd && c.pcb then after_read answer s else (Pc.leaving, s))
thread_step answer written callback_taken (Pc.at_write chunk) s =
    with_conn s
      λ c. some (if c.alive && c.pcb then after_write written chunk c s else (Pc.at_read, s))
thread_step answer written callback_taken Pc.ended s = some (Pc.ended, s)
thread_step answer written callback_taken pc s =
    with_conn s λ c. some (finish callback_taken pc c s)

-- The thread and the connection, with all bytes that the thread has taken from the host.
pub record Run : Type 0 where
  pub pc : Pc
  pub splice : Splice
  pub taken : List ℕ

abbrev pub in_flight : Pc → List ℕ
in_flight (Pc.at_write chunk) = chunk
in_flight _ = []

-- What a step of the thread takes from the host.
abbrev pub newly_taken : Pc → Pc → List ℕ
newly_taken Pc.at_read pc = in_flight pc
newly_taken _ pc = []

-- What is done next: a step of the thread, or a callback by lwIP's thread.
pub data Step : Type 0 where
  by_thread : ReadAnswer → (written : Err) → (callback_taken : Bool) → Step
  by_recv : List Grant → (p : Option (List (List ℕ))) → Err → Step
  by_err by_close : Step

abbrev pub spliced : Run → Option Splice → Option Run
spliced r none = none
spliced r (some s) = some (record r { splice = s })

abbrev pub received : Option (Err × Splice) → Option Splice
received none = none
received (some (result, s)) = some s

abbrev pub stepped : Run → Option (Pc × Splice) → Option Run
stepped r none = none
stepped r (some (pc, s)) =
    some (record { pc = pc; splice = s; taken = r.taken ++ newly_taken r.pc pc })

-- `none` is a use of an object that is not allocated. `close_pcb_cb` runs where it has been posted.
unfoldable pub take_step : Step → Run → Option Run
unfolding thread_step netdev_recv netdev_err close_pcb_cb
take_step (by_thread answer written callback_taken) r =
    stepped r (thread_step answer written callback_taken r.pc r.splice)
take_step (by_recv grants p err) r = spliced r (received (netdev_recv grants p err r.splice))
take_step by_err r = spliced r (netdev_err r.splice)
take_step by_close r =
    some (if r.splice.close_queued then record r { splice = close_pcb_cb r.splice } else r)

-- Steps in the order in which they interleave: all are taken, or one uses an object that is not
-- allocated.
pub data Outcome : Type 0 where
  went : Run → Outcome
  used_freed : Run → Step → Outcome

unfoldable pub run_steps : List Step → Run → Outcome
unfolding take_step
run_steps [] r = went r
run_steps (x ∷ xs) r = elim (take_step x r) [ none ↦ used_freed r x | some r' ↦ run_steps xs r' ]

-- The thread as it starts.
abbrev pub begin : Splice → Run
begin s = record { pc = Pc.at_read; splice = s; taken = [] }
