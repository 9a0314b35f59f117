-- ===== src/Thermostat/Simulation.antt =====
-- The sequence of zb_rpc_client/include/thermostat_app.hpp over two implementations of the API that
-- agree call by call.
use zigbee_remote.Prelude.{ℕ, ◌^◌, ◌<◌, ◌≡◌, Bool, true, false, if◌then◌else◌}
use zigbee_remote.Zigbee.{ZigbeeAddr, ZigbeeApi}
use zigbee_remote.Thermostat.{k_request_timeout_ms, k_annce_timeout_ms}

module _ {V W : Type 0} (R : V → W → Type 0) where
  -- Two results that agree, of which `P` holds, in related states.
  abbrev pub Matches : {A : Type 0} (P : A → Type 0) → A × V → A × W → Type 0
  Matches P p q = (p.0 ≡ q.0) × P q.0 × R p.1 q.1

  abbrev pub Any : {A : Type 0} → A → Type 0
  Any a = Unit {0}

  abbrev pub IsShort : ℕ → Type 0
  IsShort a = a < 2 ^ 16

  abbrev pub AddrIsShort : ZigbeeAddr → Type 0
  AddrIsShort a = a.short_addr < 2 ^ 16

  -- Each call that the sequence makes, with its timeouts: from related states both give the same
  -- answer and go to related states. Addresses have 16 bits.
  pub record Simulates (far : ZigbeeApi V) (near : ZigbeeApi W) : Type 0 where
    pub get_panid : (v : V) (w : W) → R v w → Matches Any (far.get_panid v) (near.get_panid w)
    pub get_channel : (v : V) (w : W) → R v w → Matches Any (far.get_channel v) (near.get_channel w)
    pub get_sensor_addr :
        (v : V) (w : W) → R v w → Matches IsShort (far.get_sensor_addr v) (near.get_sensor_addr w)
    pub open_network :
        (d : ℕ) (v : V) (w : W) → R v w → Matches Any (far.open_network d v) (near.open_network d w)
    pub wait_annce :
        (v : V) (w : W)
        → R v w
        → Matches IsShort
            (far.wait_annce k_annce_timeout_ms v)
            (near.wait_annce k_annce_timeout_ms w)
    pub find_sensor :
        (a : ℕ) (v : V) (w : W)
        → a < 2 ^ 16
        → R v w
        → Matches AddrIsShort
            (far.find_sensor a k_request_timeout_ms v)
            (near.find_sensor a k_request_timeout_ms w)
    pub read_basic :
        (a ep : ℕ) (v : V) (w : W)
        → a < 2 ^ 16
        → R v w
        → Matches Any
            (far.read_basic a ep k_request_timeout_ms v)
            (near.read_basic a ep k_request_timeout_ms w)
    pub bind_sensor :
        (a ep : ℕ) (v : V) (w : W)
        → a < 2 ^ 16
        → R v w
        → Matches Any
            (far.bind_sensor a ep k_request_timeout_ms v)
            (near.bind_sensor a ep k_request_timeout_ms w)
    pub subscribe_sensor :
        (a ep : ℕ) (v : V) (w : W)
        → a < 2 ^ 16
        → R v w
        → Matches Any
            (far.subscribe_sensor a ep k_request_timeout_ms v)
            (near.subscribe_sensor a ep k_request_timeout_ms w)
    pub config_report :
        (a ep : ℕ) (v : V) (w : W)
        → a < 2 ^ 16
        → R v w
        → Matches Any
            (far.config_report a ep k_request_timeout_ms v)
            (near.config_report a ep k_request_timeout_ms w)
    pub read_temp :
        (a ep : ℕ) (v : V) (w : W)
        → a < 2 ^ 16
        → R v w
        → Matches Any
            (far.read_temp a ep k_request_timeout_ms v)
            (near.read_temp a ep k_request_timeout_ms w)
    pub get_last_temp :
        (v : V) (w : W) → R v w → Matches Any (far.get_last_temp v) (near.get_last_temp w)

  pub Matches-if :
      {A : Type 0} (P : A → Type 0) (b c : Bool) (p q : A × V) (p' q' : A × W)
      → b ≡ c
      → Matches P p p'
      → Matches P q q'
      → Matches P (if b then p else q) (if c then p' else q')
  Matches-if P b true p q p' q' e m n = rw e m
  Matches-if P b false p q p' q' e m n = rw e n
