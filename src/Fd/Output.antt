-- ===== src/Fd/Output.antt =====
-- What `write_all` of zb_rpc_shared/include/zb_rpc/engine.hpp leaves in the output.
use zigbee_remote.Prelude.{
  ℕ, zero, suc, ◌+◌, ◌<◌, ◌≡◌, refl, sym, ap, ◌∙◌, ◌⊎◌, inl, inr, Bool, true, false, List, [], ◌∷◌,
  ◌++◌, append_assoc, append-nil, arith, length, take, drop, length-drop,
}
use zigbee_remote.Fd.{Grant, accepts, Fd, write_loop, write_all}

module _ {ℓ} {A : Type ℓ} where
  take-nil : (n : ℕ) → take {A = A} n [] ≡ []
  take-nil zero = refl
  take-nil (suc n) = refl

  take-append-take : (n k : ℕ) (xs : List A) → take n xs ++ take k (drop n xs) ≡ take (n + k) xs
  take-append-take zero k xs = ap (λ (m : ℕ). take m xs) zero_add
    where
      zero_add : k ≡ 0 + k
      zero_add = omega arith
  take-append-take (suc n) k [] = take-nil k ∙ sym (take-nil (suc n + k))
  take-append-take (suc n) k (x ∷ xs) =
      ap (◌∷◌ x) (take-append-take n k xs) ∙ ap (λ (m : ℕ). take m (x ∷ xs)) suc_add
    where
      suc_add : suc (n + k) ≡ suc n + k
      suc_add = omega arith

  take-append-drop : (n : ℕ) (xs : List A) → take n xs ++ drop n xs ≡ xs
  take-append-drop zero xs = refl
  take-append-drop (suc n) [] = refl
  take-append-drop (suc n) (x ∷ xs) = ap (◌∷◌ x) (take-append-drop n xs)

abbrev pub Written : List ℕ → List ℕ → Bool → List ℕ → Type 0
Written bytes before done after =
    ((done ≡ true) × (after ≡ before ++ bytes))
    ⊎ ((k : ℕ) × (k < length bytes) × (done ≡ false) × (after ≡ before ++ take k bytes))

pub Written-grant :
    (n : ℕ) (bytes before : List ℕ) (done : Bool) (after : List ℕ)
    → Written (drop n bytes) (before ++ take n bytes) done after
    → Written bytes before done after
Written-grant n bytes before done after (inl (ok, e)) =
    inl (
      ok,
      e ∙ append_assoc before _ _ ∙ ap (λ (r : List ℕ). before ++ r) (take-append-drop n bytes),
    )
Written-grant n bytes before done after (inr (k, h, failed, e)) = inr (
  n + k,
  omega (arith, length-drop n bytes),
  failed,
  e ∙ append_assoc before _ _ ∙ ap (λ (r : List ℕ). before ++ r) (take-append-take n k bytes),
)

write_loop_accepts :
    (n : ℕ) (rest : List Grant) (b : ℕ) (bs before : List ℕ)
    → write_loop (accepts (suc n) ∷ rest) (b ∷ bs) before
      ≡ write_loop rest (drop n bs) (before ++ (b ∷ take n bs))
unfolding write_loop
write_loop_accepts n rest b bs before = ground arith

write_loop-Written :
    (grants : List Grant) (bytes before : List ℕ)
    → Written bytes before (write_loop grants bytes before).0 (write_loop grants bytes before).2
unfolding write_loop
write_loop-Written [] bytes before = inl (refl, refl)
write_loop-Written (g ∷ rest) [] before = inl (refl, sym (append-nil before))
write_loop-Written (accepts zero ∷ rest) (b ∷ bs) before =
    inr (0, omega arith, refl, sym (append-nil before))
write_loop-Written (accepts (suc n) ∷ rest) (b ∷ bs) before =
    rw (write_loop_accepts n rest b bs before) (
      Written-grant (suc n) (b ∷ bs) before _ _
        (write_loop-Written rest (drop n bs) (before ++ (b ∷ take n bs))))
write_loop-Written (Grant.interrupted ∷ rest) (b ∷ bs) before =
    write_loop-Written rest (b ∷ bs) before
write_loop-Written (Grant.fault ∷ rest) (b ∷ bs) before =
    inr (0, omega arith, refl, sym (append-nil before))

-- Whatever the kernel answers, `write_all` either succeeds and appends all of its bytes to the
-- output, or fails and appends a proper prefix of them.
pub write_all-Written :
    (fd : Fd) (bytes : List ℕ)
    → Written bytes fd.sent (write_all fd bytes).0 (write_all fd bytes).1.sent
unfolding write_all
write_all-Written fd bytes = write_loop-Written fd.grants bytes fd.sent

-- The kernel takes something on every write and never fails.
abbrev pub IsOpen : List Grant → Type 0
IsOpen [] = Unit {0}
IsOpen (accepts n ∷ rest) = (0 < n) × IsOpen rest
IsOpen (Grant.interrupted ∷ rest) = IsOpen rest
IsOpen (Grant.fault ∷ rest) = ⊥

write_loop-IsOpen :
    (grants : List Grant) (bytes before : List ℕ)
    → IsOpen grants
    → ((write_loop grants bytes before).0 ≡ true) × IsOpen (write_loop grants bytes before).1
unfolding write_loop
write_loop-IsOpen [] bytes before h = (refl, tt)
write_loop-IsOpen (g ∷ rest) [] before h = (refl, h)
write_loop-IsOpen (accepts zero ∷ rest) (b ∷ bs) before h = absurd (omega arith)
write_loop-IsOpen (accepts (suc n) ∷ rest) (b ∷ bs) before h =
    rw (write_loop_accepts n rest b bs before)
      (write_loop-IsOpen rest (drop n bs) (before ++ (b ∷ take n bs)) h.1)
write_loop-IsOpen (Grant.interrupted ∷ rest) (b ∷ bs) before h =
    write_loop-IsOpen rest (b ∷ bs) before h
write_loop-IsOpen (Grant.fault ∷ rest) (b ∷ bs) before h = absurd h

-- Where no write fails or takes nothing, `write_all` succeeds: it appends exactly its bytes to the
-- output, leaves the input alone, and leaves the descriptor open.
pub write_all-IsOpen :
    (fd : Fd) (bytes : List ℕ)
    → IsOpen fd.grants
    → ((write_all fd bytes).0 ≡ true)
      × ((write_all fd bytes).1.sent ≡ fd.sent ++ bytes)
      × IsOpen (write_all fd bytes).1.grants
      × ((write_all fd bytes).1.arrivals ≡ fd.arrivals)
unfolding write_all
write_all-IsOpen fd bytes h =
    let (done, still) = write_loop-IsOpen fd.grants bytes fd.sent h in
    elim (write_loop-Written fd.grants bytes fd.sent) [
      | inl (_, e) ↦ (done, e, still, refl)
      | inr (k, _, failed, _) ↦ cc
    ]
