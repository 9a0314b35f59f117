-- ===== src/Uart/Restart.antt =====
-- What `reconnect_task` of zb_rpc_server/main/ppp_uart.c does about a lost link, and in which order.
use zigbee_remote.Prelude.{ℕ, ◌≡◌, ◌≤◌, ◌⊎◌, true, false, Option, none, some, List, [], ◌∷◌, arith}
use zigbee_remote.Uart.{Idf, Link, Event, ppp_uart_is_connected}
use zigbee_remote.Uart.Reconnect.{
  Pc, Call, Entry, event, call, System, task_step, run_task, run_task_for, take_event, Reach, here,
  by_event, by_task, came_up, came_dead, reported_dead, owes_restart,
}
use zigbee_remote.Uart.Reconnect.Pending.{is_busy, IsPending, Reach-IsPending, owes_restart-down}

abbrev pub last_call : List Entry → Option Call
last_call [] = none
last_call (event e ∷ log) = last_call log
last_call (call c ∷ log) = some c

module _ (idf : Idf) where
  -- In reachable states the bits of the event group say what has happened: `ppp_uart_is_connected` holds exactly if the latest event that
  -- brought our link up or down brought it up.
  pub is_connected-came_up :
      {s : System} → Reach idf s → ppp_uart_is_connected (some s.link) ≡ came_up idf s.log
  is_connected-came_up r = (Reach-IsPending idf r).link_up

  -- However events and steps of the reconnect task interleave, as long as a request for a
  -- reconnect has not been followed by a restart of the session or by the link coming up, the task
  -- has a notification or is at work on an earlier one.
  pub owes_restart-pending :
      {s : System}
      → Reach idf s
      → owes_restart idf s.log ≡ true
      → (s.link.notified ≡ true) ⊎ (is_busy s.pc ≡ true)
  owes_restart-pending r = (Reach-IsPending idf r).pending

  came_dead-reported_dead :
      (log : List Entry) → came_dead idf log ≡ true → reported_dead idf log ≡ true
  unfolding came_dead reported_dead
  came_dead-reported_dead [] h = cc
  came_dead-reported_dead (event e ∷ log) h = ground (arith, came_dead-reported_dead log)
  came_dead-reported_dead (call c ∷ log) h = ground (arith, came_dead-reported_dead log)

  -- Each call of the task comes where it may: `follows` is what the call is made after.
  abbrev pub IsAllowed : Call → List Entry → Type 0
  IsAllowed Call.disconnected log =
      (last_call log ≡ none)
      ⊎ ((last_call log ≡ some Call.connected) ⊎ (last_call log ≡ some Call.disconnected))
  IsAllowed Call.stop log =
      (last_call log ≡ some Call.disconnected) × (reported_dead idf log ≡ true)
  IsAllowed Call.clear_dead log = last_call log ≡ some Call.stop
  IsAllowed Call.start log = last_call log ≡ some Call.clear_dead
  IsAllowed Call.connected log = last_call log ≡ some Call.start

  unfoldable pub IsOrdered : List Entry → Type 0
  IsOrdered [] = Unit {0}
  IsOrdered (event e ∷ log) = IsOrdered log
  IsOrdered (call c ∷ log) = IsAllowed c log × IsOrdered log

  abbrev IsPlace : Pc → List Entry → Type 0
  IsPlace Pc.waiting log = IsAllowed Call.disconnected log
  IsPlace Pc.delaying log = IsAllowed Call.disconnected log
  IsPlace Pc.stopping log = IsAllowed Call.disconnected log
  IsPlace Pc.awaiting_dead log = last_call log ≡ some Call.disconnected
  IsPlace Pc.dead_seen log = IsAllowed Call.stop log
  IsPlace Pc.clearing log = IsAllowed Call.clear_dead log
  IsPlace Pc.starting log = IsAllowed Call.start log
  IsPlace Pc.connecting log = IsAllowed Call.connected log

  abbrev IsRestart : System → Type 0
  IsRestart s = IsPlace s.pc s.log × IsOrdered s.log

  take_event-IsRestart : (e : Event) (s : System) → IsRestart s → IsRestart (take_event idf e s)
  unfolding take_event IsOrdered reported_dead
  take_event-IsRestart e s h = ground arith

  run_task-IsRestart : (s : System) → IsPending idf s → IsRestart s → IsRestart (run_task s)
  unfolding run_task task_step IsOrdered
  run_task-IsRestart s p h = ground (arith, came_dead-reported_dead s.log)

  Reach-IsRestart : {s : System} → Reach idf s → IsRestart s
  unfolding IsOrdered
  Reach-IsRestart here = ground arith
  Reach-IsRestart (by_event {s} e r) = take_event-IsRestart e s (Reach-IsRestart r)
  Reach-IsRestart (by_task {s} r) = run_task-IsRestart s (Reach-IsPending idf r) (Reach-IsRestart r)

  -- However events and steps of the reconnect task interleave, the task stops the session only
  -- behind its own disconnect and after the dead phase has been reported since the bit was last
  -- reset, resets the bit only behind the stop, starts the session only behind the reset, connects
  -- only behind the start, and begins again only behind a connect or a disconnect.
  pub Reach-IsOrdered : {s : System} → Reach idf s → IsOrdered s.log
  Reach-IsOrdered r = (Reach-IsRestart r).1

  -- The steps that the task still makes before it starts the session again.
  abbrev to_start : Pc → ℕ
  to_start Pc.starting = 1
  to_start Pc.clearing = 2
  to_start Pc.dead_seen = 3
  to_start Pc.awaiting_dead = 4
  to_start Pc.stopping = 5
  to_start Pc.delaying = 6
  to_start Pc.waiting = 7
  to_start Pc.connecting = 8

  restarts_in :
      (pc : Pc) (link : Link) (log : List Entry)
      → link.link_up ≡ false
      → link.phase_dead ≡ true
      → (link.notified ≡ true) ⊎ (is_busy pc ≡ true)
      → last_call (run_task_for (to_start pc) (record { pc = pc; link = link; log = log })).log
        ≡ some Call.start
  unfolding run_task_for run_task task_step
  restarts_in pc link log down dead due = ground arith

  -- In every reachable state that owes a restart, once the dead phase has been reported, the
  -- reconnect task starts the session again within eight of its own steps.
  pub run_task_restarts :
      {s : System}
      → Reach idf s
      → owes_restart idf s.log ≡ true
      → s.link.phase_dead ≡ true
      → (n : ℕ) × (n ≤ 8) × (last_call (run_task_for n s).log ≡ some Call.start)
  run_task_restarts {s} r owed dead = (
    to_start s.pc,
    ground arith,
    restarts_in s.pc s.link s.log (owes_restart-down idf r owed) dead (owes_restart-pending r owed),
  )
