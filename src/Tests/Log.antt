-- ===== src/Tests/Log.antt =====
-- The dump of a struct on concrete values.
use zigbee_remote.Prelude.{◌≡◌, [], ◌∷◌, take, replicate}
use zigbee_remote.Protocol.Endian.{to_le16, to_le32}
use zigbee_remote.Dump.{Value, le16, le32, uint8, chars, struct, end, field, dump}
use zigbee_remote.Dump.Clipped.{text, dump-text}

-- "R { a=0x00000001, b=0x1956, c=10, d=" and four hundred characters.
abbrev record_value : Value
record_value = struct (82 ∷ []) (
    field (97 ∷ []) (le32 (to_le32 1)) (
      field (98 ∷ []) (le16 (to_le16 0x1956))
        (field (99 ∷ []) (uint8 10) (field (100 ∷ []) (chars (replicate 400 65)) end))))

dump-text_example : dump record_value ≡ take 383 (text record_value)
dump-text_example = dump-text record_value
