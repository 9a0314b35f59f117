-- ===== src/Engine/Discard.antt =====
-- `discard_payload` of zb_rpc_shared/include/zb_rpc/engine.hpp.
use mathlib.Core.Logic.{dif_pos, dif_neg}
use mathlib.Core.WellFounded.{Acc}
use native.Mathlib.Bridge.{le_prop}
use zigbee_remote.Prelude.{
  ℕ, zero, suc, ◌+◌, ◌-◌, ◌≤◌, ◌<◌, ◌≡◌, refl, sym, ap, ◌∙◌, Bool, true, false, none, some, List,
  [], ◌∷◌, arith, le-total, inl, inr, length, drop, length-drop,
}
use zigbee_remote.Prelude.WellFounded.{lt_wf}
use zigbee_remote.Fd.{Fd, read_all}
use zigbee_remote.Fd.Stream.{
  incoming, read_all_enough, read_all_lacking, read_all-sent, read_all-grants,
}
use zigbee_remote.Engine.{Engine, chunk_of, chunk_shrinks, discard_loop, discard_payload}

abbrev pub Skipped : ℕ → Fd → Bool × Fd → Type 0
Skipped size fd r =
    (r.1.sent ≡ fd.sent)
    × (r.1.grants ≡ fd.grants)
    × (size ≤ length (incoming fd) → (r.0 ≡ true) × (incoming r.1 ≡ drop size (incoming fd)))
    × (length (incoming fd) < size → r.0 ≡ false)

-- One round on a chunk that is there, and on one that is not.
pub discard_round :
    (size : ℕ) (smaller : (m : ℕ) → m < size → Acc ◌<◌ m) (fd : Fd) (more : 0 < size) (bs : List ℕ)
    → (read_all fd (chunk_of size)).0 ≡ some bs
    → discard_loop size (Acc.intro size smaller) fd
      ≡ discard_loop
          (size - chunk_of size)
          (smaller _ (chunk_shrinks size more))
          (read_all fd (chunk_of size)).1
unfolding discard_loop
discard_round size smaller fd more bs h = rw (dif_pos _ le_prop more, h)

pub discard_cut :
    (size : ℕ) (smaller : (m : ℕ) → m < size → Acc ◌<◌ m) (fd : Fd) (more : 0 < size)
    → (read_all fd (chunk_of size)).0 ≡ none
    → discard_loop size (Acc.intro size smaller) fd ≡ (false, (read_all fd (chunk_of size)).1)
unfolding discard_loop
discard_cut size smaller fd more h = rw (dif_pos _ le_prop more, h)

pub discard_done :
    (size : ℕ) (smaller : (m : ℕ) → m < size → Acc ◌<◌ m) (fd : Fd)
    → ¬ (0 < size)
    → discard_loop size (Acc.intro size smaller) fd ≡ (true, fd)
unfolding discard_loop
discard_done size smaller fd none_left = rw (dif_neg _ none_left)

pub chunk-le : (n : ℕ) → (0 < chunk_of (suc n)) × (chunk_of (suc n) ≤ suc n)
chunk-le n = ground arith

drop-drop {ℓ} : {A : Type ℓ} (n m k : ℕ) (xs : List A) → n + m ≡ k → drop m (drop n xs) ≡ drop k xs
drop-drop zero m k xs e = ap (λ (t : ℕ). drop t xs) (omega arith)
drop-drop {A} (suc n) m k [] e = drop-nil m ∙ sym (drop-nil k)
  where
    drop-nil : (t : ℕ) → drop {A = A} t [] ≡ []
    drop-nil zero = refl
    drop-nil (suc t) = refl
drop-drop (suc n) m zero (x ∷ xs) e = absurd (omega arith)
drop-drop (suc n) m (suc k) (x ∷ xs) e = drop-drop n m k xs (omega arith)

-- The induction step, over what the rest of the loop does on the descriptor after one chunk.
Skipped-chunk :
    (chunk size : ℕ) (fd fd' : Fd) (r : Bool × Fd)
    → chunk ≤ size
    → chunk ≤ length (incoming fd)
    → incoming fd' ≡ drop chunk (incoming fd)
    → fd'.sent ≡ fd.sent
    → fd'.grants ≡ fd.grants
    → Skipped (size - chunk) fd' r
    → Skipped size fd r
Skipped-chunk chunk size fd fd' r fits there left sent grants (sent', grants', enough, lacking) =
    let remaining : length (incoming fd') ≡ length (incoming fd) - chunk =
      ap length left ∙ length-drop chunk (incoming fd) in
    (
      sent' ∙ sent,
      grants' ∙ grants,
      λ h.
          let (done, rest) = enough (omega arith) in
          (
            done,
            rest
                ∙ ap (drop (size - chunk)) left
                ∙ drop-drop chunk (size - chunk) size (incoming fd) (omega arith),
          ),
      λ h. lacking (omega arith),
    )

discard_loop-Skipped :
    (size : ℕ) (w : Acc ◌<◌ size) (fd : Fd) → Skipped size fd (discard_loop size w fd)
discard_loop-Skipped zero (Acc.intro _ smaller) fd =
    rw (discard_done zero smaller fd (λ h. absurd (omega arith)))
      (refl, refl, λ h. (refl, refl), λ h. absurd (omega arith))
discard_loop-Skipped (suc n) (Acc.intro _ smaller) fd =
    let chunk = chunk_of (suc n) in
    let more : 0 < suc n = omega arith in
    let (_, fits) = chunk-le n in
    elim (le-total chunk (length (incoming fd))) [
      | inl there ↦
          let (bytes, left) = read_all_enough fd chunk there in
          rw (discard_round (suc n) smaller fd more _ bytes) (
            Skipped-chunk chunk (suc n) fd (read_all fd chunk).1 _ fits there left
              (read_all-sent fd chunk) (read_all-grants fd chunk)
              (discard_loop-Skipped (suc n - chunk) (smaller _ (chunk_shrinks (suc n) more))
                (read_all fd chunk).1))
      | inr short ↦
          rw (discard_cut (suc n) smaller fd more (read_all_lacking fd chunk short))
            (read_all-sent fd chunk, read_all-grants fd chunk, λ h. absurd (omega arith), λ h. refl)
    ]

pub discard_payload-Skipped :
    (size : ℕ) (e : Engine)
    → Skipped size e.fd ((discard_payload size e).0, (discard_payload size e).1.fd)
      × ((discard_payload size e).1.last_error ≡ e.last_error)
unfolding discard_payload
discard_payload-Skipped size e = (discard_loop-Skipped size (lt_wf.apply size) e.fd, refl)

-- Where the whole payload arrives, `discard_payload` succeeds, takes exactly its bytes from the
-- input and writes nothing.
pub discard_payload_skips :
    (size : ℕ) (e : Engine)
    → size ≤ length (incoming e.fd)
    → ((discard_payload size e).0 ≡ true)
      × (incoming (discard_payload size e).1.fd ≡ drop size (incoming e.fd))
      × ((discard_payload size e).1.fd.sent ≡ e.fd.sent)
discard_payload_skips size e there =
    let ((sent, _, enough, _), _) = discard_payload-Skipped size e in
    let (done, left) = enough there in (done, left, sent)
