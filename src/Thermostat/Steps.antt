-- ===== src/Thermostat/Steps.antt =====
-- The steps of `run` in zb_rpc_client/include/thermostat_app.hpp, and what each outcome of one says.
use zigbee_remote.Prelude.{
  Option-cases, ℕ, ◌≡◌, ◌≢◌, refl, sym, ap, ◌∙◌, Bool, true, false, inl, inr, not, ◌&&◌, none, some,
  ◌==◌,
}
use zigbee_remote.Prelude.Int.{is_zero}
use zigbee_remote.Zigbee.{ZigbeeAddr, ZigbeeTemp, ZigbeeApi}
use zigbee_remote.Thermostat.{
  Result, success, failure, retry_without_cache, known, unknown, k_request_timeout_ms,
  k_invalid_short_addr, try_known, probe_sensor, commission, read_attrs, after_probe, run,
}
use zigbee_remote.Thermostat.Commissioning.{IsCommissioned, commission-some, read_attrs_success}

module _ {W : Type 0} (api : ZigbeeApi W) where
  -- The state after the two queries that each run starts with, and the cached address.
  abbrev pub started : W → W
  started w = (api.get_channel (api.get_panid w).1).1

  abbrev pub cached_addr : W → ℕ × W
  cached_addr w = api.get_sensor_addr (started w)

  -- How a run comes by its sensor: the server knows its address, and it answers there, or it is
  -- commissioned.
  pub data Source (w : W) (sensor : ZigbeeAddr) : Type 0 where
    cached :
        (cached_addr w).0 ≢ 0
        → (cached_addr w).0 ≢ k_invalid_short_addr
        → (api.find_sensor (cached_addr w).0 k_request_timeout_ms (cached_addr w).1).0 ≡ sensor
        → is_zero sensor.err ≡ true
        → Source w sensor
    commissioned : (start : W) → IsCommissioned api start sensor → Source w sensor

  abbrev pub temp_read : ZigbeeAddr → W → ZigbeeTemp × W
  temp_read sensor w = api.read_temp sensor.short_addr sensor.ep k_request_timeout_ms w

  -- The outcome `r` is that of reading a sensor of the run that starts in `w`, without an error.
  pub record IsRead (w : W) (r : Result × W) : Type 0 where
    pub sensor : ZigbeeAddr
    pub before : W
    pub source : Source w sensor
    pub no_error : is_zero (temp_read sensor before).0.err ≡ true
    pub last : r.1 ≡ (temp_read sensor before).1

  read_attrs-state :
      (sensor : ZigbeeAddr) (w : W) → (read_attrs api sensor w).1 ≡ (temp_read sensor w).1
  unfolding read_attrs
  read_attrs-state sensor w = refl

  pub after_unknown_none :
      (start : W)
      → (commission api start).0 ≡ none
      → after_probe api (unknown, start) ≡ (failure, (commission api start).1)
  unfolding after_probe
  after_unknown_none start h = rw (h, after_probe)

  pub after_unknown_some :
      (start : W) (sensor : ZigbeeAddr)
      → (commission api start).0 ≡ some sensor
      → after_probe api (unknown, start) ≡ read_attrs api sensor (commission api start).1
  unfolding after_probe
  after_unknown_some start sensor h = rw (h, after_probe)

  pub IsRead-success :
      (w : W) (sensor : ZigbeeAddr) (before : W) (r : Result × W)
      → Source w sensor
      → r ≡ read_attrs api sensor before
      → r.0 ≡ success
      → IsRead w r
  IsRead-success w sensor before r source same ends = record {
    sensor = sensor;
    before = before;
    source = source;
    no_error =
        read_attrs_success api sensor before (ap (λ (p : Result × W). p.0) (sym same) ∙ ends);
    last = ap (λ (p : Result × W). p.1) same ∙ read_attrs-state sensor before;
  }

  pub unknown_success :
      (w start : W)
      → (after_probe api (unknown, start)).0 ≡ success
      → IsRead w (after_probe api (unknown, start))
  unknown_success w start h = elim (Option-cases (commission api start).0) [
    | inl nothing ↦
        let failed : failure ≡ success =
          ap (λ (p : Result × W). p.0) (sym (after_unknown_none start nothing)) ∙ h in
        absurd cc
    | inr (sensor, found) ↦
        IsRead-success w sensor (commission api start).1 _
          (commissioned start (commission-some api start sensor found))
          (after_unknown_some start sensor found) h
  ]

  -- Which way a run goes.
  abbrev pub probes : Bool → W → Bool
  probes probe_cached_sensor w = probe_cached_sensor && not ((api.get_panid w).0 == 0)

  abbrev pub tried : W → ZigbeeAddr × W
  tried w = api.find_sensor (cached_addr w).0 k_request_timeout_ms (cached_addr w).1

  pub run_plain :
      (probe_cached_sensor : Bool) (w : W)
      → probes probe_cached_sensor w ≡ false
      → run api probe_cached_sensor w ≡ after_probe api (unknown, started w)
  unfolding run
  run_plain probe_cached_sensor w h = rw (h, run)

  pub run_probe :
      (probe_cached_sensor : Bool) (w : W)
      → probes probe_cached_sensor w ≡ true
      → run api probe_cached_sensor w ≡ after_probe api (probe_sensor api (started w))
  unfolding run
  run_probe probe_cached_sensor w h = rw (h, run)

  pub probe_missing :
      (w : W)
      → ((cached_addr w).0 == k_invalid_short_addr) ≡ true
      → after_probe api (probe_sensor api (started w)) ≡ (retry_without_cache, (cached_addr w).1)
  unfolding after_probe probe_sensor
  probe_missing w h = rw (h, probe_sensor)

  pub probe_empty :
      (w : W)
      → ((cached_addr w).0 == k_invalid_short_addr) ≡ false
      → ((cached_addr w).0 == 0) ≡ true
      → probe_sensor api (started w) ≡ (unknown, (cached_addr w).1)
  unfolding probe_sensor
  probe_empty w h h' = rw (h, h', probe_sensor)

  pub probe_known :
      (w : W)
      → ((cached_addr w).0 == k_invalid_short_addr) ≡ false
      → ((cached_addr w).0 == 0) ≡ false
      → is_zero (tried w).0.err ≡ true
      → probe_sensor api (started w) ≡ (known (tried w).0, (tried w).1)
  unfolding probe_sensor try_known
  probe_known w h h' answers = rw (h, h', answers, probe_sensor)

  pub probe_stale :
      (w : W)
      → ((cached_addr w).0 == k_invalid_short_addr) ≡ false
      → ((cached_addr w).0 == 0) ≡ false
      → is_zero (tried w).0.err ≡ false
      → probe_sensor api (started w) ≡ (unknown, (tried w).1)
  unfolding probe_sensor try_known
  probe_stale w h h' silent = rw (h, h', silent, probe_sensor)
