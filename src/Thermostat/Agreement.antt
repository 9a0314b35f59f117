-- ===== src/Thermostat/Agreement.antt =====
-- The sequence of zb_rpc_client/include/thermostat_app.hpp gives the same over two implementations of
-- the API that agree call by call.
use mathlib.Core.Path.{subst}
use zigbee_remote.Prelude.{
  ℕ, zero, suc, ◌^◌, ◌<◌, ◌≡◌, refl, sym, ap, ◌∙◌, Bool, Bool-cases, Option-cases, inl, inr, not,
  ◌&&◌, Option, none, some, ◌==◌, if◌then◌else◌,
}
use zigbee_remote.Prelude.Int.{ℤ, is_zero}
use zigbee_remote.Zigbee.{ZigbeeAddr, ZigbeeBasic, ZigbeeTemp, ZigbeeApi}
use zigbee_remote.Thermostat.{
  k_request_timeout_ms, k_open_network_seconds, k_invalid_short_addr, success, failure, Probe,
  no_api, known, unknown, try_known, probe_sensor, last_temps, configure, commission, read_attrs,
  after_probe, run,
}
use zigbee_remote.Thermostat.Steps.{after_unknown_none, after_unknown_some}
use zigbee_remote.Thermostat.Simulation.{Matches, Any, AddrIsShort, Simulates, Matches-if}

module _ {V W : Type 0} (R : V → W → Type 0) (far : ZigbeeApi V) (near : ZigbeeApi W)
    (sim : Simulates R far near) where
  last_temps-related :
      (n : ℕ) (v : V) (w : W) → R v w → R (last_temps far n v) (last_temps near n w)
  unfolding last_temps
  last_temps-related zero v w r = r
  last_temps-related (suc n) v w r =
      last_temps-related n (far.get_last_temp v).1 (near.get_last_temp w).1
        (sim.get_last_temp v w r).2

  abbrev MaybeShort : Option ZigbeeAddr → Type 0
  MaybeShort none = Unit {0}
  MaybeShort (some a) = a.short_addr < 2 ^ 16

  configure-matches :
      (s : ZigbeeAddr) (v : V) (w : W)
      → s.short_addr < 2 ^ 16
      → R v w
      → Matches R MaybeShort (configure far s v) (configure near s w)
  unfolding configure
  configure-matches s v w small r =
      let m1 = sim.read_basic s.short_addr s.ep v w small r in
      let m2 = sim.bind_sensor s.short_addr s.ep _ _ small m1.2 in
      let m3 = sim.subscribe_sensor s.short_addr s.ep _ _ small m2.2 in
      let m4 = sim.config_report s.short_addr s.ep _ _ small m3.2 in
      Matches-if R MaybeShort _ _ _ _ _ _ (ap (λ (b : ZigbeeBasic). not (is_zero b.err)) m1.0)
        (refl, tt, m1.2)
        (Matches-if R MaybeShort _ _ _ _ _ _ (ap (λ (z : ℤ). not (is_zero z)) m2.0) (refl, tt, m2.2)
          (Matches-if R MaybeShort _ _ _ _ _ _ (ap (λ (z : ℤ). not (is_zero z)) m3.0)
            (refl, tt, m3.2)
            (Matches-if R MaybeShort _ _ _ _ _ _ (ap (λ (z : ℤ). not (is_zero z)) m4.0)
              (refl, tt, m4.2) (refl, small, last_temps-related 5 _ _ m4.2))))

  find_sensor_at :
      (a b : ℕ) (v : V) (w : W)
      → a ≡ b
      → b < 2 ^ 16
      → R v w
      → Matches R
          (AddrIsShort R)
          (far.find_sensor a k_request_timeout_ms v)
          (near.find_sensor b k_request_timeout_ms w)
  find_sensor_at a b v w e small r = rw e (sim.find_sensor b v w small r)

  configure_at :
      (s t : ZigbeeAddr) (v : V) (w : W)
      → s ≡ t
      → t.short_addr < 2 ^ 16
      → R v w
      → Matches R MaybeShort (configure far s v) (configure near t w)
  configure_at s t v w e small r =
      subst (λ (u : ZigbeeAddr). Matches R MaybeShort (configure far u v) (configure near t w))
        (sym e) (configure-matches t v w small r)

  commission-matches :
      (v : V) (w : W) → R v w → Matches R MaybeShort (commission far v) (commission near w)
  unfolding commission
  commission-matches v w r =
      let m1 = sim.open_network k_open_network_seconds v w r in
      let m2 = sim.wait_annce _ _ m1.2 in
      let m3 = find_sensor_at _ _ _ _ m2.0 m2.1 m2.2 in
      Matches-if R MaybeShort _ _ _ _ _ _ (ap (λ (z : ℤ). not (is_zero z)) m1.0) (refl, tt, m1.2)
        (Matches-if R MaybeShort _ _ _ _ _ _ (ap (λ (n : ℕ). n == 0) m2.0) (refl, tt, m2.2)
          (Matches-if R MaybeShort _ _ _ _ _ _ (ap (λ (a : ZigbeeAddr). not (is_zero a.err)) m3.0)
            (refl, tt, m3.2) (configure_at _ _ _ _ m3.0 m3.1 m3.2)))

  abbrev ProbeIsShort : Probe → Type 0
  ProbeIsShort no_api = Unit {0}
  ProbeIsShort (known a) = a.short_addr < 2 ^ 16
  ProbeIsShort unknown = Unit {0}

  try_known-matches :
      (a b : ℕ) (v : V) (w : W)
      → a ≡ b
      → b < 2 ^ 16
      → R v w
      → Matches R ProbeIsShort (try_known far a v) (try_known near b w)
  unfolding try_known
  try_known-matches a b v w e small r =
      let m = find_sensor_at a b v w e small r in
      let near_sensor = (near.find_sensor b k_request_timeout_ms w).0 in
      (
        ap (λ (s : ZigbeeAddr). if is_zero s.err then known s else unknown) m.0,
        probe_short near_sensor m.1,
        m.2,
      )
    where
      probe_short :
          (s : ZigbeeAddr)
          → s.short_addr < 2 ^ 16
          → ProbeIsShort (if is_zero s.err then known s else unknown)
      probe_short s h = elim (Bool-cases (is_zero s.err)) [ inl z ↦ rw z h | inr z ↦ rw z tt ]

  probe_sensor-matches :
      (v : V) (w : W) → R v w → Matches R ProbeIsShort (probe_sensor far v) (probe_sensor near w)
  unfolding probe_sensor
  probe_sensor-matches v w r =
      let m = sim.get_sensor_addr v w r in
      Matches-if R ProbeIsShort _ _ _ _ _ _ (ap (λ (n : ℕ). n == k_invalid_short_addr) m.0)
        (refl, tt, m.2)
        (Matches-if R ProbeIsShort _ _ _ _ _ _ (ap (λ (n : ℕ). n == 0) m.0) (refl, tt, m.2)
          (try_known-matches _ _ _ _ m.0 m.1 m.2))

  read_attrs-matches :
      (s : ZigbeeAddr) (v : V) (w : W)
      → s.short_addr < 2 ^ 16
      → R v w
      → Matches R (Any R) (read_attrs far s v) (read_attrs near s w)
  unfolding read_attrs
  read_attrs-matches s v w small r =
      let m = sim.read_temp s.short_addr s.ep v w small r in
      (ap (λ (t : ZigbeeTemp). if is_zero t.err then success else failure) m.0, tt, m.2)

  unknown-matches :
      (v : V) (w : W)
      → R v w
      → Matches R (Any R) (after_probe far (unknown, v)) (after_probe near (unknown, w))
  unknown-matches v w r =
      let (same, small, after) = commission-matches v w r in
      elim (Option-cases (commission near w).0) [
        | inl n ↦
            rw (after_unknown_none far v (same ∙ n), after_unknown_none near w n) (refl, tt, after)
        | inr (s, e) ↦
            rw (after_unknown_some far v s (same ∙ e), after_unknown_some near w s e)
              (read_attrs-matches s _ _ (subst MaybeShort e small) after)
      ]

  after_probe-matches :
      (p : Probe) (v : V) (w : W)
      → ProbeIsShort p
      → R v w
      → Matches R (Any R) (after_probe far (p, v)) (after_probe near (p, w))
  after_probe-matches no_api v w small r = unfold after_probe in (refl, tt, r)
  after_probe-matches (known s) v w small r = unfold after_probe in read_attrs-matches s v w small r
  after_probe-matches unknown v w small r = unknown-matches v w r

  probed-matches :
      (v : V) (w : W)
      → R v w
      → Matches R
          (Any R)
          (after_probe far (probe_sensor far v))
          (after_probe near (probe_sensor near w))
  probed-matches v w r =
      let (same, small, after) = probe_sensor-matches v w r in
      subst
        (λ (p : Probe).
          Matches R (Any R) (after_probe far (p, (probe_sensor far v).1))
            (after_probe near (probe_sensor near w)))
        (sym same) (after_probe-matches (probe_sensor near w).0 _ _ small after)

  -- Where two implementations of the API agree call by call, `run` gives the same result over both,
  -- and leaves them in related states.
  pub run-Matches :
      (probe_cached_sensor : Bool) (v : V) (w : W)
      → R v w
      → Matches R (Any R) (run far probe_cached_sensor v) (run near probe_cached_sensor w)
  unfolding run
  run-Matches probe_cached_sensor v w r =
      let m1 = sim.get_panid v w r in
      let m2 = sim.get_channel _ _ m1.2 in
      Matches-if R (Any R) _ _ _ _ _ _
        (ap (λ (panid : ℕ). probe_cached_sensor && not (panid == 0)) m1.0) (probed-matches _ _ m2.2)
        (unknown-matches _ _ m2.2)
