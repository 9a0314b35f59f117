-- ===== src/Tests/Forward.antt =====
-- A forwarded connection on concrete answers.
use zigbee_remote.Prelude.{
  ℕ, ◌+◌, ◌≡◌, refl, inr, Bool, true, false, none, some, List, [], ◌∷◌, ◌++◌,
}
use zigbee_remote.Fd.{Grant, accepts}
use zigbee_remote.Fd.Output.{Written}
use zigbee_remote.Forward.{
  Conn, Err, Splice, total, with_conn, write_left, write_chain, forward_chain, netdev_recv,
}
use zigbee_remote.Forward.Received.{payload, netdev_recv-Written}
use zigbee_remote.Forward.Accept.{
  refused, connected, linux_connect_host, connect_addresses, AcceptAnswers, Accepts, netdev_accept,
  netdev_accept_cases, accept_thread_fails,
}
use zigbee_remote.Main.Connect.{close_socket}
use zigbee_remote.Forward.Thread.{
  Pc, came, interrupted, after_read, after_write, finish, thread_step, take_step, Run, Step,
  by_thread, by_recv, went, used_freed, run_steps, begin,
}
use zigbee_remote.Forward.Spliced.{IsStart, IsState, IsLate, run_steps-State}
use zigbee_remote.Forward.Ends.{last_steps, netdev_recv-ended}

abbrev new_pcb : Splice
new_pcb = record {
  conn = none;
  has_arg = false;
  close_queued = false;
  pcb_closed = false;
  fds = 3 ∷ [];
  to_host = [];
  to_pcb = [];
  recved = 0;
}

abbrev answers : Bool → AcceptAnswers
answers thread_made = record {
  offered = true;
  addresses = some (refused 9 ∷ connected 8 ∷ []);
  allocated = true;
  thread_made = thread_made;
}

netdev_accept_cases_example : Accepts (netdev_accept true (answers true) new_pcb) (3 ∷ [])
netdev_accept_cases_example =
    netdev_accept_cases true (answers true) new_pcb
      (record { no_conn = refl; no_arg = refl; is_open = refl }) refl (inr refl)

accept_thread_fails_example : netdev_accept true (answers false) new_pcb ≡ none
unfolding linux_connect_host connect_addresses
accept_thread_fails_example = accept_thread_fails (answers false) new_pcb 8 refl refl refl refl

abbrev conn : Conn
conn = record { pcb = true; host_fd = some 8; alive = true }

abbrev spliced : Splice
spliced = record new_pcb { conn = some conn; has_arg = true; fds = 8 ∷ 3 ∷ [] }

spliced-IsStart : IsStart (3 ∷ []) spliced
spliced-IsStart = record {
  fd = 8;
  conn_is = refl;
  arg_set = refl;
  quiet = refl;
  fds_are = refl;
  nothing = refl;
}

abbrev chain : List (List ℕ)
chain = (1 ∷ 2 ∷ []) ∷ (3 ∷ []) ∷ []

-- Two bytes come from the host; lwIP has no memory at first, and a segment arrives in between.
abbrev some_steps : List Step
some_steps =
    by_thread (came 1 (2 ∷ [])) Err.err_ok true
    ∷ by_thread interrupted Err.err_mem true
    ∷ by_recv (accepts 2 ∷ []) (some ((9 ∷ 8 ∷ []) ∷ [])) Err.err_ok
    ∷ by_thread interrupted Err.err_ok true
    ∷ []

-- The same, and then the host closes its end, the thread ends, and another segment arrives before
-- `close_pcb_cb` runs.
abbrev late_steps : List Step
late_steps = some_steps ++ last_steps Err.err_ok true [] (some ((7 ∷ []) ∷ []))

-- The run up to the late segment.
abbrev last_run : Run
last_run = record {
  pc = Pc.ended;
  splice = record spliced {
    conn = none;
    close_queued = true;
    fds = 3 ∷ [];
    to_host = 9 ∷ 8 ∷ [];
    to_pcb = 1 ∷ 2 ∷ [];
    recved = 2;
  };
  taken = 1 ∷ 2 ∷ [];
}

run_steps-State_example :
    IsState (3 ∷ []) last_run × IsLate last_run (by_recv [] (some ((7 ∷ []) ∷ [])) Err.err_ok)
unfolding run_steps take_step thread_step with_conn after_read after_write finish netdev_recv
    forward_chain write_chain write_left close_socket
run_steps-State_example = run_steps-State (3 ∷ []) spliced late_steps spliced-IsStart

-- The run behind the first steps.
abbrev later : Run
later = record {
  pc = Pc.at_read;
  splice = record spliced { to_host = 9 ∷ 8 ∷ []; to_pcb = 1 ∷ 2 ∷ []; recved = 2 };
  taken = 1 ∷ 2 ∷ [];
}

later-reached : run_steps some_steps (begin spliced) ≡ went later
unfolding run_steps take_step thread_step with_conn after_read after_write finish netdev_recv
    forward_chain write_chain write_left
later-reached = refl

netdev_recv-ended_example :
    (t : Run) × (run_steps (last_steps Err.err_ok true [] (some chain)) later
      ≡ used_freed t (by_recv [] (some chain) Err.err_ok))
    × (t.splice.conn ≡ none)
netdev_recv-ended_example =
    netdev_recv-ended Err.err_ok true [] (some chain) (3 ∷ []) spliced some_steps later conn
      spliced-IsStart later-reached refl refl refl

netdev_recv-Written_example :
    (alive : Bool) × (t : Splice) × (netdev_recv
        (accepts 1 ∷ Grant.interrupted ∷ Grant.fault ∷ [])
        (some chain)
        Err.err_ok
        spliced
      ≡ some (Err.err_ok, t))
    × (t.conn ≡ some (record conn { alive = alive }))
    × (t.recved ≡ 0 + total chain)
    × Written (payload chain) [] alive t.to_host
netdev_recv-Written_example =
    netdev_recv-Written (accepts 1 ∷ Grant.interrupted ∷ Grant.fault ∷ []) chain conn 8 spliced refl
      refl refl refl
