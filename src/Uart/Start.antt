-- ===== src/Uart/Start.antt =====
-- `ppp_uart_start` of zb_rpc_server/main/ppp_uart.c.
use zigbee_remote.Prelude.{◌≡◌, ◌⊎◌, Bool, true, false, List, [], ◌∷◌, if◌then◌else◌, arith}
use zigbee_remote.Uart.Transmit.{EspErr, is_ok}

-- The calls that the function makes. Those that return an `esp_err_t` return it; of the others,
-- success stands for a pointer that is not NULL, or `pdPASS`.
pub data Setup : Type 0 where
  event_group_create driver_install param_config set_pin set_rx_timeout netif_new : Setup
  configure_ppp_timers get_params set_params register_got_ip register_lost_ip : Setup
  register_ppp_status create_receive_task create_reconnect_task action_start : Setup
  action_connected : Setup

-- `ESP_RETURN_ON_ERROR` of a call, with what comes after it; the second component has the calls made.
unfoldable pub return_on_error : EspErr → Setup → EspErr × List Setup → EspErr × List Setup
return_on_error err c rest = if is_ok err then (rest.0, c ∷ rest.1) else (err, c ∷ [])

-- A call whose failure is reported as `ESP_ERR_NO_MEM`.
unfoldable pub return_no_mem : EspErr → Setup → EspErr × List Setup → EspErr × List Setup
return_no_mem err c rest =
    if is_ok err then (rest.0, c ∷ rest.1) else (EspErr.esp_err_no_mem, c ∷ [])

-- A call whose result is not looked at.
abbrev and_then : Setup → EspErr × List Setup → EspErr × List Setup
and_then c rest = (rest.0, c ∷ rest.1)

-- `answer` is what each call returns.
unfoldable pub ppp_uart_start : (Setup → EspErr) → EspErr × List Setup
unfolding return_on_error return_no_mem
ppp_uart_start answer = no_mem Setup.event_group_create (
    on_error Setup.driver_install (
      on_error Setup.param_config (
        on_error Setup.set_pin (
          on_error Setup.set_rx_timeout (
            no_mem Setup.netif_new (
              and_then Setup.configure_ppp_timers (
                on_error Setup.get_params (
                  on_error Setup.set_params (
                    on_error Setup.register_got_ip (
                      on_error Setup.register_lost_ip (
                        on_error Setup.register_ppp_status (
                          no_mem Setup.create_receive_task (
                            no_mem Setup.create_reconnect_task (
                              and_then Setup.action_start
                                (and_then Setup.action_connected (EspErr.esp_ok, []))))))))))))))))
  where
    on_error : Setup → EspErr × List Setup → EspErr × List Setup
    on_error c rest = return_on_error (answer c) c rest

    no_mem : Setup → EspErr × List Setup → EspErr × List Setup
    no_mem c rest = return_no_mem (answer c) c rest

-- All the calls, in their order.
abbrev pub setup_calls : List Setup
setup_calls =
    Setup.event_group_create ∷ Setup.driver_install ∷ Setup.param_config ∷ Setup.set_pin
    ∷ Setup.set_rx_timeout ∷ Setup.netif_new ∷ Setup.configure_ppp_timers ∷ Setup.get_params
    ∷ Setup.set_params ∷ Setup.register_got_ip ∷ Setup.register_lost_ip ∷ Setup.register_ppp_status
    ∷ Setup.create_receive_task ∷ Setup.create_reconnect_task ∷ Setup.action_start
    ∷ Setup.action_connected ∷ []

abbrev pub starts_ppp : List Setup → Bool
starts_ppp [] = false
starts_ppp (Setup.action_start ∷ cs) = true
starts_ppp (Setup.action_connected ∷ cs) = true
starts_ppp (c ∷ cs) = starts_ppp cs

-- `ppp_uart_start` succeeds having made all of its calls in their order, or fails with an error and
-- without having started PPP.
pub ppp_uart_start_lem :
    (answer : Setup → EspErr)
    → (ppp_uart_start answer ≡ (EspErr.esp_ok, setup_calls))
      ⊎ ((is_ok (ppp_uart_start answer).0 ≡ false) × (starts_ppp (ppp_uart_start answer).1 ≡ false))
unfolding ppp_uart_start return_on_error return_no_mem
ppp_uart_start_lem answer = ground arith
