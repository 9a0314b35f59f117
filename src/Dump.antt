-- ===== src/Dump.antt =====
-- The bounded dump of a struct for the log, zb_rpc_shared/include/zb_rpc/reflection.hpp. What
-- reflection finds in a struct, its name and its members in their order, is part of the value.
pub mod Clipped
use zigbee_remote.Prelude.{
  ℕ, zero, suc, ◌+◌, ◌-◌, ◌*◌, ◌/◌, ◌%◌, Bool, true, false, List, [], ◌∷◌, ◌++◌, ltb, leb, ◌==◌,
  if◌then◌else◌, length, take,
}
use zigbee_remote.Protocol.Endian.{Le16, Le32, from_le16, from_le32}

-- `char data[384]`.
abbrev pub data_size : ℕ
data_size = 384

-- `bytes` is `data` up to its terminator.
pub record DumpBuffer : Type 0 where
  pub bytes : List ℕ
  pub size : ℕ

abbrev pub blank : DumpBuffer
blank = record { bytes = []; size = 0 }

-- `append` with the text that its format makes: `snprintf` writes as much of it as leaves room for the
-- terminator, and returns its whole length.
unfoldable pub append : List ℕ → DumpBuffer → DumpBuffer
append text b =
    if leb (data_size - 1) b.size
    then b
    else (let written = length text in
        let bytes = take b.size b.bytes ++ take (data_size - b.size - 1) text in
        if ltb 0 written
        then record {
          bytes = bytes;
          size = if leb data_size (b.size + written) then data_size - 1 else b.size + written;
        }
        else record b { bytes = bytes })

mutual
  pub data Value : Type 0 where
    empty_req : Value
    le32 : Le32 → Value
    le16 : Le16 → Value
    uint8 : ℕ → Value
    char : ℕ → Value
    chars : List ℕ → Value
    array : Elements → Value
    struct : (name : List ℕ) → Fields → Value

  pub data Elements : Type 0 where
    nil : Elements
    cons : Value → Elements → Elements

  pub data Fields : Type 0 where
    end : Fields
    field : (name : List ℕ) → Value → Fields → Fields

abbrev pub hex_digit : ℕ → ℕ
hex_digit n = if ltb n 10 then 48 + n else 87 + n

-- `n` digits, the last one first in the number.
abbrev pub hex : (digits : ℕ) → ℕ → List ℕ
hex zero n = []
hex (suc digits) n = hex digits (n / 16) ++ (hex_digit (n % 16) ∷ [])

-- "%u" of a byte.
abbrev pub decimal : ℕ → List ℕ
decimal n =
    if ltb n 10
    then ((48 + n) ∷ [])
    else if ltb n 100
    then ((48 + n / 10) ∷ (48 + n % 10) ∷ [])
    else ((48 + n / 100) ∷ (48 + (n / 10) % 10) ∷ (48 + n % 10) ∷ [])

-- The loop over a character array, which ends at a zero.
unfoldable pub dump_chars : List ℕ → DumpBuffer → DumpBuffer
unfolding append
dump_chars [] b = b
dump_chars (c ∷ cs) b = let rest = dump_chars cs (append (c ∷ []) b) in if c == 0 then b else rest

-- ", " before all but the first element or member.
unfoldable pub separate : (first : Bool) → DumpBuffer → DumpBuffer
unfolding append
separate true b = b
separate false b = append (44 ∷ 32 ∷ []) b

-- "0x", "[", "]", "\"", "'", "{}", " { ", "=" and " }" are written out.
unfoldable mutual
  unfolding append dump_chars separate

  pub dump_value : Value → DumpBuffer → DumpBuffer
  dump_value empty_req b = append (123 ∷ 125 ∷ []) b
  dump_value (le32 v) b = append (48 ∷ 120 ∷ hex 8 (from_le32 v)) b
  dump_value (le16 v) b = append (48 ∷ 120 ∷ hex 4 (from_le16 v)) b
  dump_value (uint8 n) b = append (decimal n) b
  dump_value (char c) b = append (39 ∷ c ∷ 39 ∷ []) b
  dump_value (chars cs) b = append (34 ∷ []) (dump_chars cs (append (34 ∷ []) b))
  dump_value (array vs) b = append (93 ∷ []) (dump_elements true vs (append (91 ∷ []) b))
  dump_value (struct name fs) b =
      append (32 ∷ 125 ∷ []) (dump_fields true fs (append (name ++ (32 ∷ 123 ∷ 32 ∷ [])) b))

  pub dump_elements : (first : Bool) → Elements → DumpBuffer → DumpBuffer
  dump_elements first nil b = b
  dump_elements first (cons v vs) b = dump_elements false vs (dump_value v (separate first b))

  pub dump_fields : (first : Bool) → Fields → DumpBuffer → DumpBuffer
  dump_fields first end b = b
  dump_fields first (field name v fs) b =
      dump_fields false fs (dump_value v (append (name ++ (61 ∷ [])) (separate first b)))

-- What `dump` hands to the log.
unfoldable pub dump : Value → List ℕ
unfolding dump_value
dump v = (dump_value v blank).bytes
