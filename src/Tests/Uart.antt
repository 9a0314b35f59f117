-- ===== src/Tests/Uart.antt =====
-- The UART and its reconnects on concrete events.
use zigbee_remote.Prelude.{
  ℕ, ◌≤◌, ◌≡◌, ◌⊎◌, refl, true, none, some, List, [], ◌∷◌, ◌++◌, drop, take, arith,
}
use zigbee_remote.Fd.Output.{Written}
use zigbee_remote.Uart.{
  Idf, ip_event, ppp_status, handle_event, on_ip_event, on_ppp_status, request_reconnect,
  ppp_uart_is_connected,
}
use zigbee_remote.Uart.Transmit.{is_ok, written, failed, uart_transmit, uart_transmit-Written}
use zigbee_remote.Uart.Receive.{Rx, UartEvent, receive_event, Input, arrives, round, receive_run}
use zigbee_remote.Uart.Receive.Order.{concat, arrived, taken, receive_run-taken}
use zigbee_remote.Uart.Receive.Drain.{IsChunked, receive_event-drains}
use zigbee_remote.Uart.Reconnect.{
  System, Call, Entry, event, call, started, task_step, run_task, run_task_for, take_event, Reach,
  here, by_event, by_task, came_up, owes_restart,
}
use zigbee_remote.Uart.Reconnect.Pending.{is_busy}
use zigbee_remote.Uart.Restart.{
  last_call, is_connected-came_up, owes_restart-pending, IsOrdered, Reach-IsOrdered,
  run_task_restarts,
}

abbrev idf : Idf
idf = record {
  ip_event_ppp_got_ip = 6;
  ip_event_ppp_lost_ip = 7;
  netif_ppp_errornone = 0;
  netif_ppp_phase_dead = 256;
  netif_pp_phase_offset = 256;
  netif_ppp_internal_err_offset = 512;
  s_netif = 1;
}

-- The link comes up, is lost, and is reported dead.
abbrev lost : System
lost =
    take_event idf (ppp_status 256)
      (take_event idf (ip_event 7 (some 1)) (take_event idf (ip_event 6 (some 1)) started))

lost-Reach : Reach idf lost
lost-Reach =
    by_event (ppp_status 256) (by_event (ip_event 7 (some 1)) (by_event (ip_event 6 (some 1)) here))

is_connected-came_up_example : ppp_uart_is_connected (some lost.link) ≡ came_up idf lost.log
is_connected-came_up_example = is_connected-came_up idf lost-Reach

owes_restart-pending_example : (lost.link.notified ≡ true) ⊎ (is_busy lost.pc ≡ true)
unfolding owes_restart take_event
owes_restart-pending_example = owes_restart-pending idf lost-Reach refl

-- The task then goes through a whole reconnect.
abbrev restarted : System
restarted =
    run_task (run_task (run_task (run_task (run_task (run_task (run_task (run_task lost)))))))

restarted-Reach : Reach idf restarted
restarted-Reach =
    by_task (by_task (by_task (by_task (by_task (by_task (by_task (by_task lost-Reach)))))))

abbrev events : List Entry
events = event (ppp_status 256) ∷ event (ip_event 7 (some 1)) ∷ event (ip_event 6 (some 1)) ∷ []

Reach-IsOrdered_example : IsOrdered idf (
    call Call.connected
    ∷ call Call.start
    ∷ call Call.clear_dead
    ∷ call Call.stop
    ∷ call Call.disconnected
    ∷ events)
unfolding run_task task_step take_event handle_event on_ip_event on_ppp_status request_reconnect
Reach-IsOrdered_example = Reach-IsOrdered idf restarted-Reach

run_task_restarts_example :
    (n : ℕ) × (n ≤ 8) × (last_call (run_task_for n lost).log ≡ some Call.start)
unfolding owes_restart take_event handle_event on_ip_event on_ppp_status request_reconnect
run_task_restarts_example = run_task_restarts idf lost-Reach refl refl

uart_transmit-Written_example :
    Written
      (1 ∷ 2 ∷ 3 ∷ [])
      (9 ∷ [])
      (is_ok (uart_transmit (written 0 ∷ written 2 ∷ failed ∷ []) (1 ∷ 2 ∷ 3 ∷ []) (9 ∷ [])).0)
      (uart_transmit (written 0 ∷ written 2 ∷ failed ∷ []) (1 ∷ 2 ∷ 3 ∷ []) (9 ∷ [])).1
uart_transmit-Written_example =
    uart_transmit-Written (written 0 ∷ written 2 ∷ failed ∷ []) (1 ∷ 2 ∷ 3 ∷ []) (9 ∷ [])

abbrev idle_port : Rx
idle_port = record { buffered = 7 ∷ 8 ∷ 9 ∷ []; received = []; queue = [] }

abbrev inputs : List Input
inputs =
    arrives (1 ∷ 2 ∷ []) UartEvent.uart_data
    ∷ round (some 4) (some 3 ∷ none ∷ [])
    ∷ arrives (3 ∷ []) UartEvent.uart_data
    ∷ []

receive_run-taken_example : taken (receive_run inputs idle_port) ≡ taken idle_port ++ arrived inputs
receive_run-taken_example = receive_run-taken inputs idle_port (refl, (refl, tt)) tt

receive_event-drains_example :
    let t = receive_event (some 2) (some 1 ∷ []) UartEvent.uart_data idle_port in
    (t.buffered ≡ drop 2 (7 ∷ 8 ∷ 9 ∷ []))
    × (concat t.received ≡ concat [] ++ take 2 (7 ∷ 8 ∷ 9 ∷ []))
    × IsChunked t.received
receive_event-drains_example =
    receive_event-drains 2 (some 1 ∷ []) idle_port (omega arith) (omega arith, tt) tt
