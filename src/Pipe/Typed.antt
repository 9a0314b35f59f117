-- ===== src/Pipe/Typed.antt =====
-- What the firmware's functions return, and one call over the pipe as an agreement of both ends.
use mathlib.Core.Path.{subst}
use mathlib.Core.WellFounded.{Acc}
use zigbee_remote.Prelude.{
  ℕ, zero, suc, ◌-◌, Bool-cases, inl, inr, ◌^◌, ◌<◌, ◌≡◌, refl, ◌==◌, arith,
}
use zigbee_remote.Prelude.Int.{IsS16, IsS32}
use zigbee_remote.Protocol.Desc.{RpcDesc}
use zigbee_remote.Server.Handlers.{
  Firmware, Server, annce_loop, slice_of, slice_shrinks, still_there,
}
use zigbee_remote.Server.Annce.{waited, annce_gone, annce_found, annce_next, annce_done}
use zigbee_remote.Client.{Client}
use zigbee_remote.Client.Sensors.{AddrInRange, BasicInRange, TempInRange}
use zigbee_remote.Thermostat.Simulation.{Matches}
use zigbee_remote.Pipe.{Pipe, over_pipe}
use zigbee_remote.Pipe.Call.{IsSynced, Answered}

-- The firmware's functions return values of their C types.
pub record IsTyped {W : Type 0} (fw : Firmware W) : Type 0 where
  pub get_panid : (w : W) → (fw.zigbee.get_panid w).0 < 2 ^ 16
  pub get_sensor_addr : (w : W) → (fw.zigbee.get_sensor_addr w).0 < 2 ^ 16
  pub open_network : (d : ℕ) (w : W) → IsS32 (fw.zigbee.open_network d w).0
  pub wait_annce : (t : ℕ) (w : W) → (fw.zigbee.wait_annce t w).0 < 2 ^ 16
  pub find_sensor : (a t : ℕ) (w : W) → a < 2 ^ 16 → AddrInRange (fw.zigbee.find_sensor a t w).0
  pub read_basic : (a ep t : ℕ) (w : W) → BasicInRange (fw.zigbee.read_basic a ep t w).0
  pub bind_sensor : (a ep t : ℕ) (w : W) → IsS32 (fw.zigbee.bind_sensor a ep t w).0
  pub subscribe_sensor : (a ep t : ℕ) (w : W) → IsS32 (fw.zigbee.subscribe_sensor a ep t w).0
  pub config_report : (a ep t : ℕ) (w : W) → IsS32 (fw.zigbee.config_report a ep t w).0
  pub read_temp : (a ep t : ℕ) (w : W) → TempInRange (fw.zigbee.read_temp a ep t w).0
  pub get_last_temp : (w : W) → IsS16 (fw.zigbee.get_last_temp w).0

module _ {W : Type 0} (fw : Firmware W) (typed : IsTyped fw) where
  pub annce_loop-short :
      (remaining : ℕ) (w : Acc ◌<◌ remaining) (s : Server W)
      → (annce_loop fw remaining w s).0 < 2 ^ 16
  annce_loop-short zero (Acc.intro _ smaller) s = rw (annce_done fw smaller s) (omega arith)
  annce_loop-short (suc n) (Acc.intro _ smaller) s =
      let more : 0 < suc n = omega arith in
      let s1 = (still_there fw s).1 in
      elim (Bool-cases (still_there fw s).0) [
        | inr gone ↦
            rw (annce_gone fw (suc n) (Acc.intro (suc n) smaller) s more gone) (omega arith)
        | inl there ↦ elim (Bool-cases ((waited fw (suc n) s1).0 == 0)) [
          | inr found ↦
              rw (annce_found fw (suc n) smaller s more there found)
                (typed.wait_annce (slice_of (suc n)) s1.world)
          | inl quiet ↦ rw (annce_next fw (suc n) smaller s more there quiet) (
              annce_loop-short (suc n - slice_of (suc n)) (smaller _ (slice_shrinks (suc n) more))
                (waited fw (suc n) s1).1)
        ]
      ]

  -- Synchronised ends, and the server's state.
  abbrev pub Follows : Pipe W → Server W → Type 0
  Follows k s = IsSynced k × (k.server ≡ s)

  pub Answered-Matches :
      {Req Resp A : Type 0} (desc : RpcDesc Req Resp) (handler : Req → Server W → Resp × Server W)
      (r : Req) (function : Client → A × Client) (local : Server W → A × Server W) (P : A → Type 0)
      (k : Pipe W) (s : Server W)
      → k.server ≡ s
      → Answered fw desc handler r function local k
      → P (local k.server).0
      → Matches Follows P (over_pipe fw function k) (local s)
  Answered-Matches desc handler r function local P k s same answered holds =
      subst (λ (t : Server W). Matches Follows P (over_pipe fw function k) (local t)) same
        (rw answered.returned (refl, holds, (answered.synced, answered.server_is)))
