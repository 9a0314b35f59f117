-- ===== src/Simulator/Climate.antt =====
-- The temperature and the sensor of zb_rpc/src/sim_zigbee.cpp.
use mathlib.Core.Path.{subst}
use zigbee_remote.Prelude.{sym, ◌⊎◌, ◌%◌, ◌≤◌, ◌≡◌, refl, Bool-cases, inl, inr, arith, ltb, ◌==◌}
use zigbee_remote.Protocol.Endian.{from_le16}
use zigbee_remote.Protocol.Payloads.{EmptyReq, ZbAddr}
use zigbee_remote.Simulator.{Sim, bump_temp, read_temp, get_last_temp, g_sensor_short}

-- The temperature rises from 13 to 18 degrees in whole degrees.
abbrev pub IsWarming : Sim → Type 0
IsWarming s = (1300 ≤ s.g_temp) × (s.g_temp ≤ 1800) × (s.g_temp % 100 ≡ 0)

pub bump_temp-IsWarming : (s : Sim) → IsWarming s → IsWarming (bump_temp s)
unfolding bump_temp
bump_temp-IsWarming s (low, high, whole) = elim (Bool-cases (ltb s.g_temp 1800)) [
  | inl below ↦ rw below (omega arith, ground arith, omega arith)
  | inr above ↦ rw above (low, high, whole)
]

read_temp-bump :
    (addr : ZbAddr) (s : Sim) → ((read_temp addr s).1 ≡ s) ⊎ ((read_temp addr s).1 ≡ bump_temp s)
unfolding read_temp
read_temp-bump addr s = elim (Bool-cases (from_le16 addr.short_addr == g_sensor_short)) [
  | inl ours ↦ inr (rw (ours, read_temp) refl)
  | inr other ↦ inl (rw (other, read_temp) refl)
]

get_last_temp-bump : (r : EmptyReq) (s : Sim) → (get_last_temp r s).1 ≡ bump_temp s
unfolding get_last_temp
get_last_temp-bump r s = refl

-- From a temperature of whole degrees from 13 to 18, `read_temp` of any sensor and `get_last_temp`
-- leave such a temperature.
pub read_temp-IsWarming :
    (addr : ZbAddr) (r : EmptyReq) (s : Sim)
    → IsWarming s
    → IsWarming (read_temp addr s).1 × IsWarming (get_last_temp r s).1
read_temp-IsWarming addr r s warm =
    let bumped = bump_temp-IsWarming s warm in
    (
      elim (read_temp-bump addr s) [
        | inl same ↦ subst IsWarming (sym same) warm
        | inr rises ↦ subst IsWarming (sym rises) bumped
      ],
      subst IsWarming (sym (get_last_temp-bump r s)) bumped,
    )
