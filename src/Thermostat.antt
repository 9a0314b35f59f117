-- ===== src/Thermostat.antt =====
-- zb_rpc_client/include/thermostat_app.hpp: the portable commissioning sequence, over any
-- implementation of the Zigbee API. Logging and the sleeps between temperature reads are left out,
-- and with them `to_celsius` and `print_temp_attrs`, whose only output is the log.
pub mod Outcome
pub mod Commissioning
pub mod Steps
pub mod Simulation
pub mod Agreement
use zigbee_remote.Prelude.{
  ℕ, zero, suc, Bool, true, false, not, ◌&&◌, Option, none, some, ◌==◌, if◌then◌else◌,
}
use zigbee_remote.Prelude.Int.{ℤ, is_zero}
use zigbee_remote.Zigbee.{ZigbeeAddr, ZigbeeBasic, ZigbeeTemp, ZigbeeApi}

abbrev pub k_request_timeout_ms : ℕ
k_request_timeout_ms = 15000

abbrev pub k_annce_timeout_ms : ℕ
k_annce_timeout_ms = 180000

abbrev pub k_open_network_seconds : ℕ
k_open_network_seconds = 180

abbrev pub k_invalid_short_addr : ℕ
k_invalid_short_addr = 0xFFFF

pub data Result : Type 0 where
  success failure retry_without_cache : Result

-- How the probe for a sensor that the server already knows ends.
pub data Probe : Type 0 where
  no_api : Probe
  known : ZigbeeAddr → Probe
  unknown : Probe

module _ {W : Type 0} (api : ZigbeeApi W) where
  -- `find_sensor` on the known address; a sensor that does not answer is commissioned anew.
  unfoldable pub try_known : ℕ → W → Probe × W
  try_known address w =
      let (sensor, w') = api.find_sensor address k_request_timeout_ms w in
      (if is_zero sensor.err then known sensor else unknown, w')

  unfoldable pub probe_sensor : W → Probe × W
  unfolding try_known
  probe_sensor w =
      let (address, w') = api.get_sensor_addr w in
      if address == k_invalid_short_addr
      then (no_api, w')
      else if address == 0
      then (unknown, w')
      else try_known address w'

  -- The five reads of the last reported temperature.
  unfoldable pub last_temps : ℕ → W → W
  last_temps zero w = w
  last_temps (suc n) w = last_temps n (api.get_last_temp w).1

  -- The steps behind `find_sensor`, each of which fails on a nonzero status; `none` is
  -- `Result::failure`.
  unfoldable pub configure : ZigbeeAddr → W → Option ZigbeeAddr × W
  unfolding last_temps
  configure sensor w =
      let (basic, w1) = api.read_basic sensor.short_addr sensor.ep k_request_timeout_ms w in
      if not (is_zero basic.err)
      then (none, w1)
      else (let (bind_status, w2) =
            api.bind_sensor sensor.short_addr sensor.ep k_request_timeout_ms w1 in
          if not (is_zero bind_status)
          then (none, w2)
          else (let (subscribe_status, w3) =
                api.subscribe_sensor sensor.short_addr sensor.ep k_request_timeout_ms w2 in
              if not (is_zero subscribe_status)
              then (none, w3)
              else (let (report_status, w4) =
                    api.config_report sensor.short_addr sensor.ep k_request_timeout_ms w3 in
                  if not (is_zero report_status)
                  then (none, w4)
                  else (some sensor, last_temps 5 w4))))

  unfoldable pub commission : W → Option ZigbeeAddr × W
  unfolding configure
  commission w =
      let (open_status, w1) = api.open_network k_open_network_seconds w in
      if not (is_zero open_status)
      then (none, w1)
      else (let (peer, w2) = api.wait_annce k_annce_timeout_ms w1 in
          if peer == 0
          then (none, w2)
          else (let (sensor, w3) = api.find_sensor peer k_request_timeout_ms w2 in
              if not (is_zero sensor.err) then (none, w3) else configure sensor w3))

  unfoldable pub read_attrs : ZigbeeAddr → W → Result × W
  read_attrs sensor w =
      let (attrs, w') = api.read_temp sensor.short_addr sensor.ep k_request_timeout_ms w in
      (if is_zero attrs.err then success else failure, w')

  -- What follows the probe.
  unfoldable pub after_probe : Probe × W → Result × W
  unfolding commission read_attrs
  after_probe (no_api, w) = (retry_without_cache, w)
  after_probe (known sensor, w) = read_attrs sensor w
  after_probe (unknown, w) =
      let (sensor, w') = commission w in
      elim sensor [ none ↦ (failure, w') | some found ↦ read_attrs found w' ]

  unfoldable pub run : Bool → W → Result × W
  unfolding after_probe probe_sensor
  run probe_cached_sensor w =
      let (panid, w1) = api.get_panid w in
      let (channel, w2) = api.get_channel w1 in
      if probe_cached_sensor && not (panid == 0)
      then after_probe (probe_sensor w2)
      else after_probe (unknown, w2)
