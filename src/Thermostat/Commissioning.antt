-- ===== src/Thermostat/Commissioning.antt =====
-- The commissioning part of `run` in zb_rpc_client/include/thermostat_app.hpp.
use mathlib.Core.Path.{subst}
use zigbee_remote.Prelude.{ℕ, ◌≡◌, ◌≢◌, sym, ap, ◌∙◌, true, some, arith}
use zigbee_remote.Prelude.Int.{ℤ, is_zero}
use zigbee_remote.Zigbee.{ZigbeeAddr, ZigbeeBasic, ZigbeeApi}
use zigbee_remote.Thermostat.{
  success, k_request_timeout_ms, k_open_network_seconds, k_annce_timeout_ms, configure, commission,
  read_attrs,
}

module _ {W : Type 0} (api : ZigbeeApi W) where
  -- The states between the steps behind `find_sensor`.
  module _ (sensor : ZigbeeAddr) (w : W) where
    abbrev basic_read : ZigbeeBasic × W
    basic_read = api.read_basic sensor.short_addr sensor.ep k_request_timeout_ms w

    abbrev bound : ℤ × W
    bound = api.bind_sensor sensor.short_addr sensor.ep k_request_timeout_ms basic_read.1

    abbrev subscribed : ℤ × W
    subscribed = api.subscribe_sensor sensor.short_addr sensor.ep k_request_timeout_ms bound.1

    abbrev reporting : ℤ × W
    reporting = api.config_report sensor.short_addr sensor.ep k_request_timeout_ms subscribed.1

    -- Every step of the configuration succeeds.
    pub record IsConfigured : Type 0 where
      pub basic : is_zero basic_read.0.err ≡ true
      pub bind : is_zero bound.0 ≡ true
      pub subscribe : is_zero subscribed.0 ≡ true
      pub report : is_zero reporting.0 ≡ true

  configure-some :
      (sensor found : ZigbeeAddr) (w : W)
      → (configure api sensor w).0 ≡ some found
      → (found ≡ sensor) × IsConfigured sensor w
  unfolding configure
  configure-some sensor found w h = (
    ground arith,
    record {
      basic = ground arith;
      bind = ground arith;
      subscribe = ground arith;
      report = ground arith;
    },
  )

  -- The sensor of a run that is configured anew: the network opened, a peer announced itself, and
  -- the sensor was found on it and configured.
  module _ (w : W) where
    abbrev opened : ℤ × W
    opened = api.open_network k_open_network_seconds w

    abbrev joined : ℕ × W
    joined = api.wait_annce k_annce_timeout_ms opened.1

    abbrev located : ZigbeeAddr × W
    located = api.find_sensor joined.0 k_request_timeout_ms joined.1

    pub record IsCommissioned (sensor : ZigbeeAddr) : Type 0 where
      pub network : is_zero opened.0 ≡ true
      pub announced : joined.0 ≢ 0
      pub found : located.0 ≡ sensor
      pub answered : is_zero sensor.err ≡ true
      pub configured : IsConfigured sensor located.1

  commission_steps :
      (w : W) (sensor : ZigbeeAddr)
      → (commission api w).0 ≡ some sensor
      → (is_zero (opened w).0 ≡ true)
        × ((joined w).0 ≢ 0)
        × (is_zero (located w).0.err ≡ true)
        × ((configure api (located w).0 (located w).1).0 ≡ some sensor)
  unfolding commission
  commission_steps w sensor h = ground arith

  pub read_attrs_success :
      (sensor : ZigbeeAddr) (w : W)
      → (read_attrs api sensor w).0 ≡ success
      → is_zero (api.read_temp sensor.short_addr sensor.ep k_request_timeout_ms w).0.err ≡ true
  unfolding read_attrs
  read_attrs_success sensor w h = ground arith

  pub commission-some :
      (w : W) (sensor : ZigbeeAddr) → (commission api w).0 ≡ some sensor → IsCommissioned w sensor
  commission-some w sensor h =
      let (network, announced, found, done) = commission_steps w sensor h in
      let (same, configured) = configure-some (located w).0 sensor (located w).1 done in
      record {
        network = network;
        announced = announced;
        found = sym same;
        answered = ap (λ (a : ZigbeeAddr). is_zero a.err) same ∙ found;
        configured = subst (λ (a : ZigbeeAddr). IsConfigured a (located w).1) (sym same) configured;
      }
