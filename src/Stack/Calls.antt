-- ===== src/Stack/Calls.antt =====
-- The API functions of zb_rpc_server/main/zigbee_stack.c. `err` is what the request function of the
-- SDK returns, and `events` are the callbacks that come before the timeout; those that a function
-- does not wait for are left.
use zigbee_remote.Prelude.{
  ℕ, Bool, true, false, not, Option, none, some, List, [], ◌∷◌, if◌then◌else◌,
}
use zigbee_remote.Prelude.Int.{ℤ, is_zero, pos, negsuc}
use zigbee_remote.Zigbee.{ZigbeeAddr, ZigbeeBasic, ZigbeeTemp}
use zigbee_remote.Stack.{Sdk, Stack, no_names, no_temps, same_int}
use zigbee_remote.Stack.Events.{Event, handle}

module _ (sdk : Sdk) where
  -- `xQueueReceive` on the announcements: the first one, once there is one.
  unfoldable pub await_annce : List Event → Stack → Option ℕ × List Event × Stack
  await_annce [] s = elim s.s_annce_q [
    | [] ↦ (none, [], s)
    | a ∷ rest ↦ (some a, [], record s { s_annce_q = rest })
  ]
  await_annce (event ∷ events) s =
      let next = await_annce events (handle sdk event s) in
      elim s.s_annce_q [
        | [] ↦ next
        | a ∷ rest ↦ (some a, event ∷ events, record s { s_annce_q = rest })
      ]

  unfoldable pub await_match : List Event → Stack → Option ZigbeeAddr × List Event × Stack
  await_match [] s = elim s.s_match_q [
    | [] ↦ (none, [], s)
    | a ∷ rest ↦ (some a, [], record s { s_match_q = rest })
  ]
  await_match (event ∷ events) s =
      let next = await_match events (handle sdk event s) in
      elim s.s_match_q [
        | [] ↦ next
        | a ∷ rest ↦ (some a, event ∷ events, record s { s_match_q = rest })
      ]

  -- `xSemaphoreTake` on the semaphore that `flag` reads and `taken` clears.
  unfoldable pub await_flag :
      (flag : Stack → Bool) (taken : Stack → Stack) → List Event → Stack → Bool × List Event × Stack
  await_flag flag taken [] s = if flag s then (true, [], taken s) else (false, [], s)
  await_flag flag taken (event ∷ events) s =
      let next = await_flag flag taken events (handle sdk event s) in
      if flag s then (true, event ∷ events, taken s) else next

  unfoldable pub stack_get_sensor_addr : Stack → ℕ
  stack_get_sensor_addr s = s.s_last_sensor_addr

  -- `err` is what `ezb_bdb_open_network` returns.
  unfoldable pub stack_open_network : (err : ℤ) → ℤ
  stack_open_network err = if same_int err sdk.err_none then pos 0 else err

  unfoldable pub stack_wait_annce : List Event → Stack → ℕ × List Event × Stack
  unfolding await_annce
  stack_wait_annce events s =
      let (received, left, s') = await_annce events s in
      elim received [ none ↦ (0, left, s') | some short_addr ↦ (short_addr, left, s') ]

  -- What follows the wait: a sensor that was found is remembered.
  unfoldable pub found : Option ZigbeeAddr × List Event × Stack → ZigbeeAddr × List Event × Stack
  found (none, left, s) = (record { err = negsuc 1; short_addr = 0; ep = 0 }, left, s)
  found (some out, left, s) =
      if is_zero out.err
      then (out, left, record s { s_last_sensor_addr = out.short_addr })
      else (out, left, s)

  unfoldable pub stack_find_sensor :
      (err : ℤ) → List Event → Stack → ZigbeeAddr × List Event × Stack
  unfolding await_match found
  stack_find_sensor err events s =
      let reset : Stack = record s { s_match_q = [] } in
      let waited = found (await_match events reset) in
      if not (same_int err sdk.err_none)
      then (record { err = err; short_addr = 0; ep = 0 }, events, reset)
      else waited

  -- The shape that the other functions share: the semaphore is emptied, the request is made, and
  -- the semaphore awaited; then the result is in the cache. `failing` gives the result for an error.
  unfoldable pub command :
      {A : Type 0} (flag : Stack → Bool) (taken : Stack → Stack) (failing : ℤ → A)
      (cache : Stack → A)
      → (err : ℤ) → List Event
      → Stack
      → A × List Event × Stack
  unfolding await_flag
  command flag taken failing cache err events s =
      let (done, left, s') = await_flag flag taken events (taken s) in
      if not (same_int err sdk.err_none)
      then (failing err, events, taken s)
      else if done
      then (cache s', left, s')
      else (failing (negsuc 1), left, s')

  unfoldable pub stack_read_basic :
      (err : ℤ) → List Event → Stack → ZigbeeBasic × List Event × Stack
  unfolding command
  stack_read_basic =
      command (λ s. s.s_basic_done) (λ s. record s { s_basic_done = false })
        (λ err. record no_names { err = err }) (λ s. s.s_basic_cache)

  -- `zigbee_bind_common` once the sensor's extended address is known; without one it returns -1.
  unfoldable pub zigbee_bind_common :
      (known : Bool) (err : ℤ) → List Event → Stack → ℤ × List Event × Stack
  unfolding command
  zigbee_bind_common known err events s =
      let emptied : Stack = record s { s_bind_done = false } in
      let bound =
        command (λ s. s.s_bind_done) (λ s. record s { s_bind_done = false }) (λ err. err)
          (λ s. s.s_bind_err) err events s in
      if known then bound else (negsuc 0, events, emptied)

  unfoldable pub stack_config_report : (err : ℤ) → List Event → Stack → ℤ × List Event × Stack
  unfolding command
  stack_config_report =
      command (λ s. s.s_report_done) (λ s. record s { s_report_done = false }) (λ err. err)
        (λ s. s.s_report_err)

  unfoldable pub stack_read_temp : (err : ℤ) → List Event → Stack → ZigbeeTemp × List Event × Stack
  unfolding command
  stack_read_temp =
      command (λ s. s.s_temp_done) (λ s. record s { s_temp_done = false })
        (λ err. record no_temps { err = err }) (λ s. s.s_temp_cache)

  unfoldable pub stack_get_last_temp : Stack → ℤ
  stack_get_last_temp s = s.s_last_temp
