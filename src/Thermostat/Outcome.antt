-- ===== src/Thermostat/Outcome.antt =====
-- What the outcome of `run` in zb_rpc_client/include/thermostat_app.hpp says.
use mathlib.Core.Path.{subst}
use zigbee_remote.Prelude.{
  Option-cases, ◌≡◌, ◌≢◌, refl, sym, ap, ◌∙◌, Bool, true, Bool-cases, inl, inr, arith, ◌==◌,
}
use zigbee_remote.Prelude.Int.{is_zero}
use zigbee_remote.Zigbee.{ZigbeeAddr, ZigbeeApi}
use zigbee_remote.Thermostat.{
  Result, success, failure, retry_without_cache, known, unknown, k_invalid_short_addr, commission,
  read_attrs, after_probe, run,
}
use zigbee_remote.Thermostat.Steps.{
  started, cached_addr, Source, IsRead, probes, tried, run_plain, run_probe, probe_missing,
  probe_empty, probe_known, probe_stale, IsRead-success, unknown_success, after_unknown_none,
  after_unknown_some,
}

module _ {W : Type 0} (api : ZigbeeApi W) where
  -- The three ways that a run can go.
  data Way (probe_cached_sensor : Bool) (w : W) : Type 0 where
    missing :
        probes api probe_cached_sensor w ≡ true
        → ((cached_addr api w).0 == k_invalid_short_addr) ≡ true
        → Way probe_cached_sensor w
    reading :
        (sensor : ZigbeeAddr) (before : W)
        → Source api w sensor
        → run api probe_cached_sensor w ≡ read_attrs api sensor before
        → Way probe_cached_sensor w
    commissioning :
        (start : W)
        → run api probe_cached_sensor w ≡ after_probe api (unknown, start)
        → Way probe_cached_sensor w

  after_known :
      (sensor : ZigbeeAddr) (w : W) → after_probe api (known sensor, w) ≡ read_attrs api sensor w
  unfolding after_probe
  after_known sensor w = refl

  run-Way : (probe_cached_sensor : Bool) (w : W) → Way probe_cached_sensor w
  run-Way probe_cached_sensor w = elim (Bool-cases (probes api probe_cached_sensor w)) [
    | inr plain ↦ commissioning (started api w) (run_plain api probe_cached_sensor w plain)
    | inl probing ↦
        let goes = run_probe api probe_cached_sensor w probing in
        elim (Bool-cases ((cached_addr api w).0 == k_invalid_short_addr)) [
          | inl absent ↦ missing probing absent
          | inr there ↦ elim (Bool-cases ((cached_addr api w).0 == 0)) [
            | inl empty ↦
                commissioning (cached_addr api w).1
                  (goes ∙ ap (after_probe api) (probe_empty api w there empty))
            | inr set ↦ elim (Bool-cases (is_zero (tried api w).0.err)) [
              | inl answers ↦
                  reading (tried api w).0 (tried api w).1
                    (Source.cached (ground arith) (ground arith) refl answers)
                    (goes
                      ∙ ap (after_probe api) (probe_known api w there set answers)
                      ∙ after_known (tried api w).0 (tried api w).1)
              | inr silent ↦
                  commissioning (tried api w).1
                    (goes ∙ ap (after_probe api) (probe_stale api w there set silent))
            ]
          ]
        ]
  ]

  run_missing :
      (probe_cached_sensor : Bool) (w : W)
      → probes api probe_cached_sensor w ≡ true
      → ((cached_addr api w).0 == k_invalid_short_addr) ≡ true
      → run api probe_cached_sensor w ≡ (retry_without_cache, (cached_addr api w).1)
  run_missing probe_cached_sensor w probing absent =
      run_probe api probe_cached_sensor w probing ∙ probe_missing api w absent

  result_of : {a b : Result × W} → a ≡ b → a.0 ≡ b.0
  result_of e = ap (λ (p : Result × W). p.0) e

  -- A run that succeeds has, as its last step, read without an error the temperatures of a sensor
  -- that answered at the address that the server had cached, or that was commissioned by open,
  -- announcement, match, basic read, bind, subscription and reporting, each without an error.
  pub run_success :
      (probe_cached_sensor : Bool) (w : W)
      → (run api probe_cached_sensor w).0 ≡ success
      → IsRead api w (run api probe_cached_sensor w)
  run_success probe_cached_sensor w h = go (run-Way probe_cached_sensor w)
    where
      go : Way probe_cached_sensor w → IsRead api w (run api probe_cached_sensor w)
      go (missing probing absent) =
          let retried : retry_without_cache ≡ success =
            result_of (sym (run_missing probe_cached_sensor w probing absent)) ∙ h in
          absurd cc
      go (reading sensor before source same) = IsRead-success api w sensor before _ source same h
      go (commissioning start same) =
          subst (IsRead api w) (sym same) (unknown_success api w start (result_of (sym same) ∙ h))

  read_attrs_once :
      (sensor : ZigbeeAddr) (w : W) → (read_attrs api sensor w).0 ≢ retry_without_cache
  unfolding read_attrs
  read_attrs_once sensor w h = ground arith

  unknown_once : (start : W) → (after_probe api (unknown, start)).0 ≢ retry_without_cache
  unknown_once start h = elim (Option-cases (commission api start).0) [
    | inl nothing ↦
        let failed : failure ≡ retry_without_cache =
          result_of (sym (after_unknown_none api start nothing)) ∙ h in
        absurd cc
    | inr (sensor, found) ↦
        read_attrs_once sensor _ (result_of (sym (after_unknown_some api start sensor found)) ∙ h)
  ]

  -- A run asks for a second one only if it was to probe the cached sensor, the PAN identifier is
  -- not 0, and the server's answer for the cached address was 0xFFFF.
  pub run_retry :
      (probe_cached_sensor : Bool) (w : W)
      → (run api probe_cached_sensor w).0 ≡ retry_without_cache
      → (probe_cached_sensor ≡ true)
        × ((api.get_panid w).0 ≢ 0)
        × ((cached_addr api w).0 ≡ k_invalid_short_addr)
  run_retry probe_cached_sensor w h = elim (run-Way probe_cached_sensor w) [
    | missing probing absent ↦ (ground arith, ground arith, ground arith)
    | reading sensor before source same ↦
        absurd (read_attrs_once sensor before (result_of (sym same) ∙ h))
    | commissioning start same ↦ absurd (unknown_once start (result_of (sym same) ∙ h))
  ]
