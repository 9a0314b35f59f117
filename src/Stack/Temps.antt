-- ===== src/Stack/Temps.antt =====
-- `zigbee_read_temp` and the attribute responses of zb_rpc_server/main/zigbee_stack.c.
use zigbee_remote.Prelude.{ℕ, Bool, ◌≢◌, ◌&&◌, List, [], ◌∷◌, ◌==◌, if◌then◌else◌}
use zigbee_remote.Prelude.Int.{ℤ, pos}
use zigbee_remote.Zigbee.{ZigbeeTemp}
use zigbee_remote.Stack.{Sdk, Stack, Variable, int16_of}
use zigbee_remote.Stack.Events.{status_err}

-- The attributes and the two clusters have different numbers.
pub record IsDistinct (sdk : Sdk) : Type 0 where
  pub clusters : sdk.cluster_temp ≢ sdk.cluster_basic
  pub measured_min : sdk.attr_measured ≢ sdk.attr_min_measured
  pub measured_max : sdk.attr_measured ≢ sdk.attr_max_measured
  pub measured_tolerance : sdk.attr_measured ≢ sdk.attr_tolerance
  pub min_max : sdk.attr_min_measured ≢ sdk.attr_max_measured
  pub min_tolerance : sdk.attr_min_measured ≢ sdk.attr_tolerance
  pub max_tolerance : sdk.attr_max_measured ≢ sdk.attr_tolerance

module _ (sdk : Sdk) where
  -- What `var` says of the attribute `attr`, if it was read and is about it.
  abbrev pub said : (attr : ℕ) → Variable → ℤ → ℤ
  said attr var before =
      if (var.status == sdk.zcl_success) && (var.attr_id == attr)
      then int16_of var.attr_value
      else before

  -- The last thing that `vars` says of the attribute `attr`.
  unfoldable pub last_said : (attr : ℕ) → List Variable → ℤ → ℤ
  last_said attr [] before = before
  last_said attr (var ∷ vars) before = last_said attr vars (said attr var before)

  abbrev saying : ZigbeeTemp → ℤ → Stack → Stack
  saying temp last s = record s { s_temp_cache = temp; s_last_temp = last }

  -- What a response with this status and these attributes says.
  abbrev pub temps_said : (status : ℕ) → List Variable → ZigbeeTemp
  temps_said status vars = record {
    err = status_err sdk status;
    measured = last_said sdk.attr_measured vars (pos 0);
    min_measured = last_said sdk.attr_min_measured vars (pos 0);
    max_measured = last_said sdk.attr_max_measured vars (pos 0);
    tolerance = last_said sdk.attr_tolerance vars (pos 0);
  }

  -- The state once such a response has come in, with the semaphore of `zigbee_read_temp` given or
  -- taken.
  abbrev pub temps_received : (status : ℕ) → List Variable → (done : Bool) → Stack → Stack
  temps_received status vars done s = record s {
    s_temp_done = done;
    s_temp_cache = temps_said status vars;
    s_last_temp = last_said sdk.attr_measured vars s.s_last_temp;
  }
