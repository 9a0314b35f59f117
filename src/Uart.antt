-- ===== src/Uart.antt =====
-- zb_rpc_server/main/ppp_uart.c: PPP over a UART, and the task that brings a lost link up again.
pub mod Transmit
pub mod Receive
pub mod Reconnect
pub mod Restart
pub mod Start
use zigbee_remote.Prelude.{
  ℕ, Bool, true, false, ◌&&◌, ◌||◌, Option, none, some, leb, ltb, ◌==◌, if◌then◌else◌,
}

-- The event identifiers of ESP-IDF, and `s_netif` as a handle.
pub record Idf : Type 0 where
  pub ip_event_ppp_got_ip : ℕ
  pub ip_event_ppp_lost_ip : ℕ
  pub netif_ppp_errornone : ℕ
  pub netif_ppp_phase_dead : ℕ
  pub netif_pp_phase_offset : ℕ
  pub netif_ppp_internal_err_offset : ℕ
  pub s_netif : ℕ

-- The bits of `s_link_events`, whether `s_reconnect_task` is there, and whether it has a
-- notification: the count is reset when it is taken.
pub record Link : Type 0 where
  pub link_up : Bool
  pub phase_dead : Bool
  pub has_task : Bool
  pub notified : Bool

-- What the event loop hands to the handlers: the event's identifier, and for an IP event the
-- netif of its data, if it has any.
pub data Event : Type 0 where
  ip_event : ℕ → Option ℕ → Event
  ppp_status : ℕ → Event

abbrev pub event_is_for_our_netif : Idf → Option ℕ → Bool
event_is_for_our_netif idf none = false
event_is_for_our_netif idf (some netif) = netif == idf.s_netif

unfoldable pub request_reconnect : Link → Link
request_reconnect s =
    let down = record s { link_up = false } in
    if s.has_task then record down { notified = true } else down

unfoldable pub on_ip_event : Idf → ℕ → Option ℕ → Link → Link
unfolding request_reconnect
on_ip_event idf event_id netif s =
    if event_is_for_our_netif idf netif
    then (if event_id == idf.ip_event_ppp_got_ip
        then record s { phase_dead = false; link_up = true }
        else if event_id == idf.ip_event_ppp_lost_ip
        then request_reconnect s
        else s)
    else s

unfoldable pub on_ppp_status : Idf → ℕ → Link → Link
unfolding request_reconnect
on_ppp_status idf event_id s =
    if event_id == idf.netif_ppp_phase_dead
    then record s { phase_dead = true }
    else if (event_id == idf.netif_ppp_errornone)
        || (leb idf.netif_pp_phase_offset event_id
            && ltb event_id idf.netif_ppp_internal_err_offset)
    then s
    else request_reconnect s

unfoldable pub handle_event : Idf → Event → Link → Link
unfolding on_ip_event on_ppp_status
handle_event idf (ip_event event_id netif) s = on_ip_event idf event_id netif s
handle_event idf (ppp_status event_id) s = on_ppp_status idf event_id s

-- Before `ppp_uart_start` there is no event group.
abbrev pub ppp_uart_is_connected : Option Link → Bool
ppp_uart_is_connected none = false
ppp_uart_is_connected (some s) = s.link_up

-- The state is the one in which the wait for the bit ends, by the bit or by the timeout.
abbrev pub ppp_uart_wait_connected : Option Link → Bool
ppp_uart_wait_connected none = false
ppp_uart_wait_connected (some s) = s.link_up
