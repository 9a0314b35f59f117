-- ===== src/Protocol/Payloads.antt =====
-- The packed wire structs of zb_rpc_shared/include/zb_rpc/protocol.hpp, with the bytes that stand
-- for each in memory and on the wire. `WireType T` is what the engine needs of a payload type.
use zigbee_remote.Prelude.{
  ℕ, ◌+◌, ◌≤◌, ◌≡◌, Bool, true, false, ◌&&◌, List, [], ◌∷◌, ◌++◌, ◌==◌, length, take, drop, get_or,
}
use zigbee_remote.Protocol.Endian.{Le16, Le32}

pub record EmptyReq : Type 0 where

pub record ErrorResp : Type 0 where
  pub code : Le32

pub record U8Resp : Type 0 where
  pub value : ℕ

pub record U16Resp : Type 0 where
  pub value : Le16

pub record I16Resp : Type 0 where
  pub value : Le16

pub record I32Resp : Type 0 where
  pub value : Le32

pub record OpenNetworkReq : Type 0 where
  pub duration : ℕ

pub record FindSensorReq : Type 0 where
  pub short_addr : Le16

pub record ZbAddr : Type 0 where
  pub err : Le32
  pub short_addr : Le16
  pub ep : ℕ

-- `manufacturer` and `model` are `char[16]`.
pub record ZbBasic : Type 0 where
  pub err : Le32
  pub manufacturer : List ℕ
  pub model : List ℕ

pub record ZbTemp : Type 0 where
  pub err : Le32
  pub measured : Le16
  pub min_measured : Le16
  pub max_measured : Le16
  pub tolerance : Le16

-- `is_empty` is `is_same_v<T, EmptyReq>`, and `size` the bytes that the payload takes on the wire.
-- `fits` holds of the values of the C++ type: its arrays have their declared length.
pub record WireType (T : Type 0) : Type 0 where
  pub is_empty : Bool
  pub size : ℕ
  pub encode : T → List ℕ
  pub decode : List ℕ → T
  pub fits : T → Bool

-- What the engine relies on: fixed size, within the limit, and lossless.
pub record IsWireSafe {T : Type 0} (w : WireType T) : Type 0 where
  pub size_limit : w.size ≤ 64
  pub empty_size : w.is_empty ≡ true → w.size ≡ 0
  pub length-encode : (x : T) → w.fits x ≡ true → length (w.encode x) ≡ w.size
  pub decode-encode : (x : T) → w.fits x ≡ true → w.decode (w.encode x) ≡ x

abbrev pub le16_bytes : Le16 → List ℕ
le16_bytes x = x.byte0 ∷ x.byte1 ∷ []

abbrev pub le32_bytes : Le32 → List ℕ
le32_bytes x = x.byte0 ∷ x.byte1 ∷ x.byte2 ∷ x.byte3 ∷ []

abbrev pub le16_at : ℕ → List ℕ → Le16
le16_at i bs = record { byte0 = get_or bs i 0; byte1 = get_or bs (i + 1) 0 }

abbrev pub le32_at : ℕ → List ℕ → Le32
le32_at i bs = record {
  byte0 = get_or bs i 0;
  byte1 = get_or bs (i + 1) 0;
  byte2 = get_or bs (i + 2) 0;
  byte3 = get_or bs (i + 3) 0;
}

abbrev always {ℓ} : {T : Type ℓ} → T → Bool
always x = true

abbrev pub empty_req : WireType EmptyReq
empty_req = record {
  is_empty = true;
  size = 0;
  encode = λ x. [];
  decode = λ bs. record {};
  fits = always;
}

abbrev pub error_resp : WireType ErrorResp
error_resp = record {
  is_empty = false;
  size = 4;
  encode = λ x. le32_bytes x.code;
  decode = λ bs. record { code = le32_at 0 bs };
  fits = always;
}

abbrev pub u8_resp : WireType U8Resp
u8_resp = record {
  is_empty = false;
  size = 1;
  encode = λ x. x.value ∷ [];
  decode = λ bs. record { value = get_or bs 0 0 };
  fits = always;
}

abbrev pub u16_resp : WireType U16Resp
u16_resp = record {
  is_empty = false;
  size = 2;
  encode = λ x. le16_bytes x.value;
  decode = λ bs. record { value = le16_at 0 bs };
  fits = always;
}

abbrev pub i16_resp : WireType I16Resp
i16_resp = record {
  is_empty = false;
  size = 2;
  encode = λ x. le16_bytes x.value;
  decode = λ bs. record { value = le16_at 0 bs };
  fits = always;
}

abbrev pub i32_resp : WireType I32Resp
i32_resp = record {
  is_empty = false;
  size = 4;
  encode = λ x. le32_bytes x.value;
  decode = λ bs. record { value = le32_at 0 bs };
  fits = always;
}

abbrev pub open_network_req : WireType OpenNetworkReq
open_network_req = record {
  is_empty = false;
  size = 1;
  encode = λ x. x.duration ∷ [];
  decode = λ bs. record { duration = get_or bs 0 0 };
  fits = always;
}

abbrev pub find_sensor_req : WireType FindSensorReq
find_sensor_req = record {
  is_empty = false;
  size = 2;
  encode = λ x. le16_bytes x.short_addr;
  decode = λ bs. record { short_addr = le16_at 0 bs };
  fits = always;
}

abbrev pub zb_addr : WireType ZbAddr
zb_addr = record {
  is_empty = false;
  size = 7;
  encode = λ x. le32_bytes x.err ++ (le16_bytes x.short_addr ++ (x.ep ∷ []));
  decode = λ bs. record { err = le32_at 0 bs; short_addr = le16_at 4 bs; ep = get_or bs 6 0 };
  fits = always;
}

abbrev pub zb_basic : WireType ZbBasic
zb_basic = record {
  is_empty = false;
  size = 36;
  encode = λ x. le32_bytes x.err ++ (x.manufacturer ++ x.model);
  decode =
      λ bs. record { err = le32_at 0 bs; manufacturer = take 16 (drop 4 bs); model = drop 20 bs };
  fits = λ x. length x.manufacturer == 16 && length x.model == 16;
}

abbrev pub zb_temp : WireType ZbTemp
zb_temp = record {
  is_empty = false;
  size = 12;
  encode = λ x.
      le32_bytes x.err
      ++ (le16_bytes x.measured
          ++ (le16_bytes x.min_measured ++ (le16_bytes x.max_measured ++ le16_bytes x.tolerance)));
  decode = λ bs. record {
    err = le32_at 0 bs;
    measured = le16_at 4 bs;
    min_measured = le16_at 6 bs;
    max_measured = le16_at 8 bs;
    tolerance = le16_at 10 bs;
  };
  fits = always;
}
