-- ===== src/Server/Handlers.antt =====
-- The handlers of zb_rpc_server/main/rpc_server.cpp, one for each call, and the connection check
-- that the long-running one makes.
use mathlib.Core.Logic.{dite}
use mathlib.Core.WellFounded.{Acc}
use native.Mathlib.Decide.{dec_lt}
use zigbee_remote.Prelude.{ℕ, ◌-◌, ◌<◌, Bool, true, false, arith, ltb, ◌==◌, if◌then◌else◌}
use zigbee_remote.Prelude.Int.{ℤ, pos, negsuc}
use zigbee_remote.Prelude.WellFounded.{lt_wf}
use zigbee_remote.Protocol.Endian.{to_le16, from_le16, to_le16_s, to_le32_s}
use zigbee_remote.Protocol.Payloads.{
  EmptyReq, U8Resp, U16Resp, I16Resp, I32Resp, OpenNetworkReq, FindSensorReq, ZbAddr, ZbBasic,
  ZbTemp,
}
use zigbee_remote.Zigbee.{ZigbeeApi}

abbrev pub k_rpc_timeout_ms : ℕ
k_rpc_timeout_ms = 15000

abbrev pub k_annce_timeout_ms : ℕ
k_annce_timeout_ms = 180000

abbrev pub k_annce_slice_ms : ℕ
k_annce_slice_ms = 250

-- What `recv(..., MSG_PEEK | MSG_DONTWAIT)` answers: data pending, 0, -1 with EAGAIN, EWOULDBLOCK
-- or EINTR, or -1 with another errno.
pub data Peek : Type 0 where
  pending shut again broken : Peek

-- What the server uses of the rest of the firmware.
pub record Firmware (W : Type 0) : Type 0 where
  pub zigbee : ZigbeeApi W
  pub ppp_uart_is_connected : W → Bool × W
  pub peek : W → Peek × W

pub record Server (W : Type 0) : Type 0 where
  pub s_client_fd : ℤ
  pub world : W

module _ {W : Type 0} where
  -- A call of the firmware changes the world only.
  abbrev pub firmware_call : {A : Type 0} → (W → A × W) → Server W → A × Server W
  firmware_call f s = let (a, w) = f s.world in (a, record s { world = w })

abbrev pub is_connected : Peek → Bool
is_connected pending = true
is_connected shut = false
is_connected again = true
is_connected broken = false

abbrev pub is_open_fd : ℤ → Bool
is_open_fd (pos n) = true
is_open_fd (negsuc n) = false

-- `remaining < k_annce_slice_ms ? remaining : k_annce_slice_ms`
abbrev pub slice_of : ℕ → ℕ
slice_of remaining = if ltb remaining k_annce_slice_ms then remaining else k_annce_slice_ms

pub slice_shrinks : (remaining : ℕ) → 0 < remaining → remaining - slice_of remaining < remaining
slice_shrinks remaining h = ground arith

module _ {W : Type 0} (fw : Firmware W) where
  unfoldable pub client_connected : Server W → Bool × Server W
  client_connected s =
      if is_open_fd s.s_client_fd
      then (let (result, s') = firmware_call fw.peek s in (is_connected result, s'))
      else (false, s)

  -- `ppp_uart_is_connected() && client_connected()`, the second only if the first holds.
  unfoldable pub still_there : Server W → Bool × Server W
  unfolding client_connected
  still_there s =
      let (up, s') = firmware_call fw.ppp_uart_is_connected s in
      if up then client_connected s' else (false, s')

  unfoldable pub handle_get_short_addr : EmptyReq → Server W → U16Resp × Server W
  handle_get_short_addr _ s =
      let (v, s') = firmware_call fw.zigbee.get_short_addr s in (record { value = to_le16 v }, s')

  unfoldable pub handle_get_panid : EmptyReq → Server W → U16Resp × Server W
  handle_get_panid _ s =
      let (v, s') = firmware_call fw.zigbee.get_panid s in (record { value = to_le16 v }, s')

  unfoldable pub handle_get_channel : EmptyReq → Server W → U8Resp × Server W
  handle_get_channel _ s =
      let (v, s') = firmware_call fw.zigbee.get_channel s in (record { value = v }, s')

  unfoldable pub handle_open_network : OpenNetworkReq → Server W → I32Resp × Server W
  handle_open_network request s =
      let (v, s') = firmware_call (fw.zigbee.open_network request.duration) s in
      (record { value = to_le32_s v }, s')

  -- The wait in slices; `remaining` falls by a slice each round.
  unfoldable pub annce_loop : (remaining : ℕ) → Acc ◌<◌ remaining → Server W → ℕ × Server W
  unfolding still_there dec_lt slice_shrinks
  annce_loop remaining (Acc.intro _ smaller) s =
      dite (dec_lt 0 remaining)
        (λ more.
          let (there, s1) = still_there s in
          elim there [
            | false ↦ (0, s1)
            | true ↦
                let (short_addr, s2) =
                  firmware_call (fw.zigbee.wait_annce (slice_of remaining)) s1 in
                elim (short_addr == 0) [
                  | false ↦ (short_addr, s2)
                  | true ↦
                      annce_loop (remaining - slice_of remaining)
                        (smaller _ (slice_shrinks remaining more)) s2
                ]
          ])
        (λ _. (0, s))

  unfoldable pub handle_wait_annce : EmptyReq → Server W → U16Resp × Server W
  unfolding annce_loop lt_wf
  handle_wait_annce _ s =
      let (v, s') = annce_loop k_annce_timeout_ms (lt_wf.apply k_annce_timeout_ms) s in
      (record { value = to_le16 v }, s')

  unfoldable pub handle_get_sensor_addr : EmptyReq → Server W → U16Resp × Server W
  handle_get_sensor_addr _ s =
      let (v, s') = firmware_call fw.zigbee.get_sensor_addr s in (record { value = to_le16 v }, s')

  unfoldable pub handle_find_sensor : FindSensorReq → Server W → ZbAddr × Server W
  handle_find_sensor request s =
      let (found, s') =
        firmware_call (fw.zigbee.find_sensor (from_le16 request.short_addr) k_rpc_timeout_ms) s in
      (
        record { err = to_le32_s found.err; short_addr = to_le16 found.short_addr; ep = found.ep },
        s',
      )

  unfoldable pub handle_read_basic : ZbAddr → Server W → ZbBasic × Server W
  handle_read_basic request s =
      let (basic, s') =
        firmware_call
          (fw.zigbee.read_basic (from_le16 request.short_addr) request.ep k_rpc_timeout_ms) s in
      (
        record {
          err = to_le32_s basic.err;
          manufacturer = basic.manufacturer;
          model = basic.model;
        },
        s',
      )

  unfoldable pub handle_bind_sensor : ZbAddr → Server W → I32Resp × Server W
  handle_bind_sensor request s =
      let (v, s') =
        firmware_call
          (fw.zigbee.bind_sensor (from_le16 request.short_addr) request.ep k_rpc_timeout_ms) s in
      (record { value = to_le32_s v }, s')

  unfoldable pub handle_subscribe_sensor : ZbAddr → Server W → I32Resp × Server W
  handle_subscribe_sensor request s =
      let (v, s') =
        firmware_call
          (fw.zigbee.subscribe_sensor (from_le16 request.short_addr) request.ep k_rpc_timeout_ms)
          s in
      (record { value = to_le32_s v }, s')

  unfoldable pub handle_config_report : ZbAddr → Server W → I32Resp × Server W
  handle_config_report request s =
      let (v, s') =
        firmware_call
          (fw.zigbee.config_report (from_le16 request.short_addr) request.ep k_rpc_timeout_ms) s in
      (record { value = to_le32_s v }, s')

  unfoldable pub handle_read_temp : ZbAddr → Server W → ZbTemp × Server W
  handle_read_temp request s =
      let (temp, s') =
        firmware_call
          (fw.zigbee.read_temp (from_le16 request.short_addr) request.ep k_rpc_timeout_ms) s in
      (
        record {
          err = to_le32_s temp.err;
          measured = to_le16_s temp.measured;
          min_measured = to_le16_s temp.min_measured;
          max_measured = to_le16_s temp.max_measured;
          tolerance = to_le16_s temp.tolerance;
        },
        s',
      )

  unfoldable pub handle_get_last_temp : EmptyReq → Server W → I16Resp × Server W
  handle_get_last_temp _ s =
      let (v, s') = firmware_call fw.zigbee.get_last_temp s in (record { value = to_le16_s v }, s')
