-- ===== src/Stack/Invariant.antt =====
-- The strings that are copied in zb_rpc_server/main/zigbee_stack.c.
use zigbee_remote.Prelude.{
  ℕ, zero, suc, ◌-◌, ◌≤◌, ◌<◌, ◌≡◌, refl, ap, false, Option, none, some, List, [], ◌∷◌, ◌++◌, leb,
  ◌==◌, if◌then◌else◌, arith, length, take, drop, replicate, get_or,
}
use zigbee_remote.Stack.{copy_zcl_string}

length-take_le {ℓ} : {A : Type ℓ} (n : ℕ) (xs : List A) → length (take n xs) ≤ n
length-take_le zero xs = omega arith
length-take_le (suc n) [] = omega arith
length-take_le (suc n) (x ∷ xs) = omega (arith, length-take_le n xs)

-- For a destination that is not empty, `copy_zcl_string` gives a text shorter than the destination
-- and zeros up to its size, whatever length the string claims.
pub copy_zcl_string_lem :
    (dst_size : ℕ) (zcl : Option (List ℕ))
    → 0 < dst_size
    → (text : List ℕ) × (length text < dst_size)
      × (copy_zcl_string dst_size zcl ≡ text ++ replicate (dst_size - length text) 0)
unfolding copy_zcl_string
copy_zcl_string_lem dst_size none more =
    ([], omega arith, ap (λ (n : ℕ). replicate n 0) (omega arith))
copy_zcl_string_lem dst_size (some zcl) more =
    let claimed = get_or zcl 0 0 in
    let count = if leb dst_size claimed then dst_size - 1 else claimed in
    let fits : count < dst_size = ground arith in
    let nonzero : (dst_size == 0) ≡ false = ground arith in
    (take count (drop 1 zcl), omega (arith, length-take_le count (drop 1 zcl)), rw nonzero refl)
