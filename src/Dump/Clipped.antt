-- ===== src/Dump/Clipped.antt =====
-- The dump against the whole text of a value (zb_rpc_shared/include/zb_rpc/reflection.hpp).
use mathlib.Core.Path.{subst}
use zigbee_remote.Prelude.{
  ℕ, zero, suc, ◌+◌, ◌-◌, ◌≤◌, ◌≡◌, refl, sym, ap, ◌∙◌, Bool, true, false, List, [], ◌∷◌, ◌++◌,
  append-nil, append_assoc, ◌==◌, if◌then◌else◌, length, take, length-take, length-append,
  take-append_short, take-append_long, leb, ◌<◌, arith, le-total, inl, inr, Bool-cases,
}
use zigbee_remote.Protocol.Endian.{from_le16, from_le32}
use zigbee_remote.Dump.{
  DumpBuffer, blank, append, Value, Elements, Fields, empty_req, le32, le16, uint8, char, chars,
  array, struct, nil, cons, end, field, hex, decimal, dump_chars, separate, dump_value,
  dump_elements, dump_fields, dump,
}

-- A character array up to its zero.
abbrev pub c_string : List ℕ → List ℕ
c_string [] = []
c_string (c ∷ cs) = let rest = c_string cs in if c == 0 then [] else c ∷ rest

abbrev pub separator : (first : Bool) → List ℕ
separator true = []
separator false = 44 ∷ 32 ∷ []

-- The whole text of a value.
mutual
  pub text : Value → List ℕ
  text empty_req = 123 ∷ 125 ∷ []
  text (le32 v) = 48 ∷ 120 ∷ hex 8 (from_le32 v)
  text (le16 v) = 48 ∷ 120 ∷ hex 4 (from_le16 v)
  text (uint8 n) = decimal n
  text (char c) = 39 ∷ c ∷ 39 ∷ []
  text (chars cs) = 34 ∷ (c_string cs ++ (34 ∷ []))
  text (array vs) = 91 ∷ (elements true vs ++ (93 ∷ []))
  text (struct name fs) = name ++ (32 ∷ 123 ∷ 32 ∷ (fields true fs ++ (32 ∷ 125 ∷ [])))

  pub elements : (first : Bool) → Elements → List ℕ
  elements first nil = []
  elements first (cons v vs) = separator first ++ (text v ++ elements false vs)

  pub fields : (first : Bool) → Fields → List ℕ
  fields first end = []
  fields first (field name v fs) = separator first ++ (name ++ (61 ∷ (text v ++ fields false fs)))

take-all : (n : ℕ) (xs : List ℕ) → length xs ≤ n → take n xs ≡ xs
take-all zero [] h = refl
take-all zero (x ∷ xs) h = absurd (omega arith)
take-all (suc n) [] h = refl
take-all (suc n) (x ∷ xs) h = ap (◌∷◌ x) (take-all n xs (omega arith))

-- The buffer has the first bytes of `t`, as many as there is room for.
abbrev Holds : List ℕ → DumpBuffer → Type 0
Holds t b = (b.bytes ≡ take 383 t) × (b.size ≡ length b.bytes)

append_full : (s : List ℕ) (b : DumpBuffer) → 383 ≤ b.size → append s b ≡ b
unfolding append
append_full s b h = ground arith

append_bytes :
    (s : List ℕ) (b : DumpBuffer)
    → b.size < 383
    → (append s b).bytes ≡ take b.size b.bytes ++ take (383 - b.size) s
unfolding append
append_bytes s b h =
    let room : 384 - b.size - 1 ≡ 383 - b.size = omega arith in
    ground (arith, ap (λ (k : ℕ). take b.size b.bytes ++ take k s) room)

append_size :
    (s : List ℕ) (b : DumpBuffer)
    → b.size < 383
    → (append s b).size ≡ (if leb (383 - b.size) (length s) then 383 else b.size + length s)
unfolding append
append_size s b h = ground arith

append-Holds : (t s : List ℕ) (b : DumpBuffer) → Holds t b → Holds (t ++ s) (append s b)
append-Holds t s b (d, z) = elim (le-total 383 (length t)) [
  | inl full ↦
      let at_end : 383 ≤ b.size = rw (z, d, length-take 383 t full) (omega arith) in
      rw (append_full s b at_end) (d ∙ sym (take-append_short 383 t s full), z)
  | inr room ↦
      let whole : b.bytes ≡ t = d ∙ take-all 383 t (omega arith) in
      let size : b.size ≡ length t = z ∙ ap length whole in
      let fits : b.size < 383 = omega arith in
      let k = 383 - length t in
      let bytes : (append s b).bytes ≡ t ++ take k s =
        append_bytes s b fits
        ∙ rw (size, whole)
            (ap (λ (xs : List ℕ). xs ++ take k s) (take-all (length t) t (omega arith))) in
      let split : length t + k ≡ 383 = omega arith in
      let grown : length (append s b).bytes ≡ length t + length (take k s) =
        ap length bytes ∙ length-append t (take k s) in
      (
        bytes ∙ sym (take-append_long k t s) ∙ ap (λ (n : ℕ). take n (t ++ s)) split,
        elim (le-total k (length s)) [
          | inl cut ↦ ground (arith, append_size s b fits, length-take k s cut)
          | inr short ↦ ground (arith, append_size s b fits, ap length (take-all k s (omega arith)))
        ],
      )
]

Holds-subst : (t u : List ℕ) (b : DumpBuffer) → t ≡ u → Holds t b → Holds u b
Holds-subst t u b e h = subst (λ (xs : List ℕ). Holds xs b) e h

dump_chars-Holds :
    (cs t : List ℕ) (b : DumpBuffer) → Holds t b → Holds (t ++ c_string cs) (dump_chars cs b)
unfolding dump_chars
dump_chars-Holds [] t b h = Holds-subst t (t ++ []) b (sym (append-nil t)) h
dump_chars-Holds (c ∷ cs) t b h = elim (Bool-cases (c == 0)) [
  | inl ends ↦ rw ends (Holds-subst t (t ++ []) b (sym (append-nil t)) h)
  | inr on ↦ rw on (
      Holds-subst _ _ _ (append_assoc t (c ∷ []) (c_string cs))
        (dump_chars-Holds cs (t ++ (c ∷ [])) (append (c ∷ []) b) (append-Holds t (c ∷ []) b h)))
]

separate-Holds :
    (first : Bool) (t : List ℕ) (b : DumpBuffer)
    → Holds t b
    → Holds (t ++ separator first) (separate first b)
unfolding separate
separate-Holds true t b h = Holds-subst t (t ++ []) b (sym (append-nil t)) h
separate-Holds false t b h = append-Holds t (44 ∷ 32 ∷ []) b h

mutual
  unfolding dump_value text

  dump_value-Holds :
      (v : Value) (t : List ℕ) (b : DumpBuffer) → Holds t b → Holds (t ++ text v) (dump_value v b)
  dump_value-Holds empty_req t b h = append-Holds t _ b h
  dump_value-Holds (le32 v) t b h = append-Holds t _ b h
  dump_value-Holds (le16 v) t b h = append-Holds t _ b h
  dump_value-Holds (uint8 n) t b h = append-Holds t _ b h
  dump_value-Holds (char c) t b h = append-Holds t _ b h
  dump_value-Holds (chars cs) t b h =
      Holds-subst _ _ _ (simp (append_assoc) refl)
        (append-Holds _ (34 ∷ []) _ (dump_chars-Holds cs _ _ (append-Holds t (34 ∷ []) b h)))
  dump_value-Holds (array vs) t b h =
      Holds-subst _ _ _ (simp (append_assoc) refl) (
        append-Holds _ (93 ∷ []) _ (dump_elements-Holds vs true _ _ (append-Holds t (91 ∷ []) b h)))
  dump_value-Holds (struct name fs) t b h = Holds-subst _ _ _ (simp (append_assoc) refl) (
      append-Holds _ (32 ∷ 125 ∷ []) _
        (dump_fields-Holds fs true _ _ (append-Holds t (name ++ (32 ∷ 123 ∷ 32 ∷ [])) b h)))

  dump_elements-Holds :
      (vs : Elements) (first : Bool) (t : List ℕ) (b : DumpBuffer)
      → Holds t b
      → Holds (t ++ elements first vs) (dump_elements first vs b)
  dump_elements-Holds nil first t b h = Holds-subst t (t ++ []) b (sym (append-nil t)) h
  dump_elements-Holds (cons v vs) first t b h =
      Holds-subst _ _ _ (simp (append_assoc) refl)
        (dump_elements-Holds vs false _ _ (dump_value-Holds v _ _ (separate-Holds first t b h)))

  dump_fields-Holds :
      (fs : Fields) (first : Bool) (t : List ℕ) (b : DumpBuffer)
      → Holds t b
      → Holds (t ++ fields first fs) (dump_fields first fs b)
  dump_fields-Holds end first t b h = Holds-subst t (t ++ []) b (sym (append-nil t)) h
  dump_fields-Holds (field name v fs) first t b h = Holds-subst _ _ _ (simp (append_assoc) refl) (
      dump_fields-Holds fs false _ _ (
        dump_value-Holds v _ _ (append-Holds _ (name ++ (61 ∷ [])) _ (separate-Holds first t b h))))

-- The dump of a value is the first 383 bytes of its text, and the whole text where that is
-- shorter.
pub dump-text : (v : Value) → dump v ≡ take 383 (text v)
unfolding dump
dump-text v = (dump_value-Holds v [] blank (refl, refl)).0
