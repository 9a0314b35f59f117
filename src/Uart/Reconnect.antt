-- ===== src/Uart/Reconnect.antt =====
-- `reconnect_task` of zb_rpc_server/main/ppp_uart.c beside the event handlers, and what a record of
-- the events and of its calls tells.
pub mod Pending
use zigbee_remote.Prelude.{
  ℕ, zero, suc, Bool, true, false, not, ◌&&◌, ◌||◌, Option, none, some, List, [], ◌∷◌, leb, ltb,
  ◌==◌, if◌then◌else◌,
}
use zigbee_remote.Uart.{
  Idf, Link, Event, ip_event, ppp_status, event_is_for_our_netif, handle_event,
  ppp_uart_is_connected,
}

-- Where the task stands: at the wait for a notification, in the delay, before the call that takes
-- the session down, in the wait for the dead phase, and before each of the calls that follow.
pub data Pc : Type 0 where
  waiting delaying stopping awaiting_dead dead_seen clearing starting connecting : Pc

-- `esp_netif_action_...`, and the reset of the dead-phase bit.
pub data Call : Type 0 where
  disconnected stop clear_dead start connected : Call

-- One step of the task. The waits end by their condition or by their timeout; where there is no
-- notification, the task stands still.
unfoldable pub task_step : Pc → Link → Option Call × Pc × Link
task_step Pc.waiting s =
    if s.notified then (none, Pc.delaying, record s { notified = false }) else (none, Pc.waiting, s)
task_step Pc.delaying s =
    if ppp_uart_is_connected (some s) then (none, Pc.waiting, s) else (none, Pc.stopping, s)
task_step Pc.stopping s = (some Call.disconnected, Pc.awaiting_dead, s)
task_step Pc.awaiting_dead s =
    if s.phase_dead
    then (none, Pc.dead_seen, s)
    else (none, Pc.waiting, record s { notified = true })
task_step Pc.dead_seen s = (some Call.stop, Pc.clearing, s)
task_step Pc.clearing s = (some Call.clear_dead, Pc.starting, record s { phase_dead = false })
task_step Pc.starting s = (some Call.start, Pc.connecting, s)
task_step Pc.connecting s = (some Call.connected, Pc.waiting, s)

pub data Entry : Type 0 where
  event : Event → Entry
  call : Call → Entry

-- The link and the task, with what has happened since `ppp_uart_start` returned, the latest first.
pub record System : Type 0 where
  pub pc : Pc
  pub link : Link
  pub log : List Entry

-- The state that a successful `ppp_uart_start` leaves.
abbrev pub started : System
started = record {
  pc = Pc.waiting;
  link = record { link_up = false; phase_dead = false; has_task = true; notified = false };
  log = [];
}

abbrev pub add_call : Option Call → List Entry → List Entry
add_call none log = log
add_call (some c) log = call c ∷ log

unfoldable pub run_task : System → System
unfolding task_step
run_task s =
    let (made, pc, link) = task_step s.pc s.link in
    record { pc = pc; link = link; log = add_call made s.log }

unfoldable pub run_task_for : ℕ → System → System
run_task_for zero s = s
run_task_for (suc n) s = run_task_for n (run_task s)

module _ (idf : Idf) where
  unfoldable pub take_event : Event → System → System
  unfolding handle_event
  take_event e s = record s { link = handle_event idf e s.link; log = event e ∷ s.log }

  -- The events come in any order, and at any place between two steps of the task.
  pub data Reach : System → Type 0 where
    here : Reach started
    by_event : {s : System} (e : Event) → Reach s → Reach (take_event e s)
    by_task : {s : System} → Reach s → Reach (run_task s)

  -- An event that brings the link up, one that asks for a reconnect, one that reports the dead
  -- phase.
  abbrev pub is_up : Event → Bool
  is_up (ip_event event_id netif) =
      event_is_for_our_netif idf netif && (event_id == idf.ip_event_ppp_got_ip)
  is_up (ppp_status event_id) = false

  abbrev pub is_dead : Event → Bool
  is_dead (ip_event event_id netif) = false
  is_dead (ppp_status event_id) = event_id == idf.netif_ppp_phase_dead

  abbrev pub is_loss : Event → Bool
  is_loss (ip_event event_id netif) =
      event_is_for_our_netif idf netif
      && not (event_id == idf.ip_event_ppp_got_ip)
      && (event_id == idf.ip_event_ppp_lost_ip)
  is_loss (ppp_status event_id) =
      not (event_id == idf.netif_ppp_phase_dead)
      && not (event_id == idf.netif_ppp_errornone)
      && not
          (leb idf.netif_pp_phase_offset event_id && ltb event_id idf.netif_ppp_internal_err_offset)

  -- Whether the latest of the events that bring the link up or down brought it up.
  unfoldable pub came_up : List Entry → Bool
  came_up [] = false
  came_up (event e ∷ log) = if is_up e then true else if is_loss e then false else came_up log
  came_up (call c ∷ log) = came_up log

  abbrev pub clears : Call → Bool
  clears Call.clear_dead = true
  clears _ = false

  abbrev pub starts : Call → Bool
  starts Call.start = true
  starts _ = false

  -- Whether the dead phase has been reported since the link came up or the bit was reset.
  unfoldable pub came_dead : List Entry → Bool
  came_dead [] = false
  came_dead (event e ∷ log) = if is_dead e then true else if is_up e then false else came_dead log
  came_dead (call c ∷ log) = if clears c then false else came_dead log

  -- Whether it has been reported since the task last reset the bit.
  unfoldable pub reported_dead : List Entry → Bool
  reported_dead [] = false
  reported_dead (event e ∷ log) = if is_dead e then true else reported_dead log
  reported_dead (call c ∷ log) = if clears c then false else reported_dead log

  -- Whether a reconnect has been asked for, and since then the link has neither come up nor been
  -- restarted.
  unfoldable pub owes_restart : List Entry → Bool
  owes_restart [] = false
  owes_restart (event e ∷ log) =
      if is_up e then false else if is_loss e then true else owes_restart log
  owes_restart (call c ∷ log) = if starts c then false else owes_restart log
