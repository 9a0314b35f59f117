-- ===== src/Tests/Wire.antt =====
-- The bytes on the wire, the descriptor and the engine on concrete inputs.
use zigbee_remote.Prelude.{ℕ, List, [], ◌∷◌}
use zigbee_remote.Fd.{accepts, Grant, Fd, write_all}
use zigbee_remote.Fd.Output.{Written, write_all-Written}

abbrev bytes : List ℕ
bytes = 1 ∷ 2 ∷ 3 ∷ 4 ∷ 5 ∷ 6 ∷ 7 ∷ 8 ∷ 9 ∷ []

-- A descriptor that takes two bytes, is interrupted, and then takes one.
abbrev slow : Fd
slow = record {
  arrivals = [];
  grants = accepts 2 ∷ Grant.interrupted ∷ accepts 1 ∷ [];
  sent = 7 ∷ [];
}

-- One that breaks after two bytes.
abbrev broken : Fd
broken = record { arrivals = []; grants = accepts 2 ∷ Grant.fault ∷ []; sent = 7 ∷ [] }

write_all-Written_example :
    Written bytes broken.sent (write_all broken bytes).0 (write_all broken bytes).1.sent
write_all-Written_example = write_all-Written broken bytes
