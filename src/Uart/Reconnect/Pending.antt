-- ===== src/Uart/Reconnect/Pending.antt =====
-- No request for a reconnect is lost: zb_rpc_server/main/ppp_uart.c.
use zigbee_remote.Prelude.{◌≡◌, refl, ◌⊎◌, Bool, true, false, List, [], ◌∷◌, arith}
use zigbee_remote.Uart.{Idf, Event, ip_event, ppp_status, handle_event, request_reconnect}
use zigbee_remote.Uart.Reconnect.{
  Pc, Entry, event, call, System, task_step, run_task, take_event, Reach, here, by_event, by_task,
  came_up, came_dead, owes_restart,
}

-- The task has taken a notification and not yet restarted the session.
abbrev pub is_busy : Pc → Bool
is_busy Pc.waiting = false
is_busy Pc.connecting = false
is_busy _ = true

module _ (idf : Idf) where
  came_up-owes_restart : (log : List Entry) → came_up idf log ≡ true → owes_restart idf log ≡ false
  unfolding came_up owes_restart
  came_up-owes_restart [] h = refl
  came_up-owes_restart (event e ∷ log) h = ground (arith, came_up-owes_restart log)
  came_up-owes_restart (call c ∷ log) h = ground (arith, came_up-owes_restart log h)

  -- The bits of the event group say what the record of events says, and a request is pending.
  pub record IsPending (s : System) : Type 0 where
    pub has_task : s.link.has_task ≡ true
    pub link_up : s.link.link_up ≡ came_up idf s.log
    pub phase_dead : s.link.phase_dead ≡ came_dead idf s.log
    pub pending : owes_restart idf s.log ≡ true → (s.link.notified ≡ true) ⊎ (is_busy s.pc ≡ true)

  take_event-IsPending : (e : Event) (s : System) → IsPending s → IsPending (take_event idf e s)
  unfolding take_event handle_event request_reconnect came_up came_dead owes_restart
  take_event-IsPending (ip_event event_id netif) s h = ground arith
  take_event-IsPending (ppp_status event_id) s h = ground arith

  run_task-IsPending : (s : System) → IsPending s → IsPending (run_task s)
  unfolding run_task task_step came_up came_dead owes_restart
  run_task-IsPending s h = ground (arith, came_up-owes_restart s.log)

  pub Reach-IsPending : {s : System} → Reach idf s → IsPending s
  unfolding came_up came_dead owes_restart
  Reach-IsPending here = ground arith
  Reach-IsPending (by_event {s} e r) = take_event-IsPending e s (Reach-IsPending r)
  Reach-IsPending (by_task {s} r) = run_task-IsPending s (Reach-IsPending r)

  pub owes_restart-down :
      {s : System} → Reach idf s → owes_restart idf s.log ≡ true → s.link.link_up ≡ false
  owes_restart-down {s} r owed =
      ground (arith, (Reach-IsPending r).link_up, came_up-owes_restart s.log)
