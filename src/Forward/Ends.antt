-- ===== src/Forward/Ends.antt =====
-- How a forwarded connection of zb_rpc_client/netdev_fwd.c ends.
use mathlib.Core.Path.{subst}
use zigbee_remote.Prelude.{
  ℕ, ◌≡◌, refl, sym, ◌∙◌, Bool, true, Option, none, some, List, [], ◌∷◌, arith,
}
use zigbee_remote.Fd.{Grant}
use zigbee_remote.Forward.{Conn, Err, Splice, with_conn, netdev_recv}
use zigbee_remote.Forward.Thread.{
  Pc, closed, finish, after_read, thread_step, Run, Step, by_thread, by_recv, take_step, went,
  used_freed, run_steps, begin,
}
use zigbee_remote.Forward.Order.{IsLive, live, over}
use zigbee_remote.Forward.Spliced.{IsStart, IsOutcome, IsState, run_steps-State}

-- The thread from its read of the end of the stream to its own end.
abbrev pub to_end : (written : Err) (callback_taken : Bool) → List Step → List Step
to_end written callback_taken rest =
    let step = by_thread closed written callback_taken in
    step ∷ step ∷ step ∷ step ∷ step ∷ step ∷ rest

-- Of a connection that is alive with the thread at its read, object and pcb know each other.
IsLive-alive :
    (base : List ℕ) (c d : Conn) (fd : ℕ) (s : Splice) (taken : List ℕ)
    → IsLive base d fd Pc.at_read s taken
    → s.conn ≡ some c
    → c.alive ≡ true
    → (s.conn ≡ some (record { pcb = true; host_fd = some fd; alive = true })) × (s.has_arg ≡ true)
IsLive-alive base c d fd s taken h conn alive =
    let is_alive : d.alive ≡ true = ground (arith, h.conn_is) in
    let has_pcb : d.pcb ≡ true = h.has_pcb is_alive in
    let fd_is : d.host_fd ≡ some fd = h.fd_is in
    (
      h.conn_is ∙ (λ i. some (record { pcb = has_pcb i; host_fd = fd_is i; alive = is_alive i })),
      h.arg_set refl,
    )

module _ (written : Err) (callback_taken : Bool) (grants : List Grant)
    (p : Option (List (List ℕ))) where
  -- The thread's end and a segment behind it, before any other callback.
  abbrev pub last_steps : List Step
  last_steps = to_end written callback_taken (by_recv grants p Err.err_ok ∷ [])

  abbrev EndsDangling : Run → Type 0
  EndsDangling r =
      (t : Run) × (run_steps last_steps r ≡ used_freed t (by_recv grants p Err.err_ok))
      × (t.splice.conn ≡ none)

  connected_ends :
      (fd : ℕ) (s : Splice) (taken : List ℕ)
      → EndsDangling (record {
        pc = Pc.at_read;
        splice = record s {
          conn = some (record { pcb = true; host_fd = some fd; alive = true });
          has_arg = true;
        };
        taken = taken;
      })
  unfolding run_steps take_step thread_step with_conn after_read finish netdev_recv
  connected_ends fd s taken = (_, refl, refl)

  -- Where a connection that `netdev_accept` has made is alive with the thread at its read, after
  -- whatever steps, and the host has closed its end, the thread frees the connection in six steps
  -- while the pcb still has it as its argument: if lwIP hands over a segment then, before
  -- `close_pcb_cb` has run, `netdev_recv` uses the freed connection.
  pub netdev_recv-ended :
      (base : List ℕ) (start : Splice) (steps : List Step) (r : Run) (c : Conn)
      → IsStart base start
      → run_steps steps (begin start) ≡ went r
      → r.pc ≡ Pc.at_read
      → r.splice.conn ≡ some c
      → c.alive ≡ true
      → (t : Run) × (run_steps last_steps r ≡ used_freed t (by_recv grants p Err.err_ok))
        × (t.splice.conn ≡ none)
  netdev_recv-ended base start steps r c ok reached place conn alive =
      ended (subst (IsOutcome base) reached (run_steps-State base start steps ok))
    where
      ended : IsState base r → EndsDangling r
      ended (over h pre) = absurd (ground (arith, h.is_over))
      ended (live d fd h pre) =
          let at_read : IsLive base d fd Pc.at_read r.splice r.taken =
            subst (λ (pc : Pc). IsLive base d fd pc r.splice r.taken) place h in
          let (conn_is, arg_is) = IsLive-alive base c d fd r.splice r.taken at_read conn alive in
          let run_is : r ≡ record {
            pc = Pc.at_read;
            splice = record r.splice {
              conn = some (record { pcb = true; host_fd = some fd; alive = true });
              has_arg = true;
            };
            taken = r.taken;
          } =
            λ i. record {
              pc = place i;
              splice = record r.splice { conn = conn_is i; has_arg = arg_is i };
              taken = r.taken;
            } in
          subst EndsDangling (sym run_is) (connected_ends fd r.splice r.taken)
