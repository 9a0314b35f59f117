-- ===== src/Protocol/WireSafe.antt =====
-- `static_assert(wire_safe<T>())` and the `sizeof` assertions of
-- zb_rpc_shared/include/zb_rpc/protocol.hpp for the payload types.
use zigbee_remote.Prelude.{
  ◌≡◌, refl, sym, true, arith, length, length-append, take-append_at, drop-append_at,
}
use zigbee_remote.Protocol.Payloads.{
  ZbBasic, IsWireSafe, empty_req, error_resp, u8_resp, u16_resp, i16_resp, i32_resp,
  open_network_req, find_sensor_req, zb_addr, zb_basic, zb_temp,
}

pub empty_req-IsWireSafe : IsWireSafe empty_req
empty_req-IsWireSafe = record {
  size_limit = omega arith;
  empty_size = λ e. refl;
  length-encode = λ x e. refl;
  decode-encode = λ x e. refl;
}

pub error_resp-IsWireSafe : IsWireSafe error_resp
error_resp-IsWireSafe = record {
  size_limit = omega arith;
  empty_size = λ e. cc;
  length-encode = λ x e. refl;
  decode-encode = λ x e. refl;
}

pub u8_resp-IsWireSafe : IsWireSafe u8_resp
u8_resp-IsWireSafe = record {
  size_limit = omega arith;
  empty_size = λ e. cc;
  length-encode = λ x e. refl;
  decode-encode = λ x e. refl;
}

pub u16_resp-IsWireSafe : IsWireSafe u16_resp
u16_resp-IsWireSafe = record {
  size_limit = omega arith;
  empty_size = λ e. cc;
  length-encode = λ x e. refl;
  decode-encode = λ x e. refl;
}

pub i16_resp-IsWireSafe : IsWireSafe i16_resp
i16_resp-IsWireSafe = record {
  size_limit = omega arith;
  empty_size = λ e. cc;
  length-encode = λ x e. refl;
  decode-encode = λ x e. refl;
}

pub i32_resp-IsWireSafe : IsWireSafe i32_resp
i32_resp-IsWireSafe = record {
  size_limit = omega arith;
  empty_size = λ e. cc;
  length-encode = λ x e. refl;
  decode-encode = λ x e. refl;
}

pub open_network_req-IsWireSafe : IsWireSafe open_network_req
open_network_req-IsWireSafe = record {
  size_limit = omega arith;
  empty_size = λ e. cc;
  length-encode = λ x e. refl;
  decode-encode = λ x e. refl;
}

pub find_sensor_req-IsWireSafe : IsWireSafe find_sensor_req
find_sensor_req-IsWireSafe = record {
  size_limit = omega arith;
  empty_size = λ e. cc;
  length-encode = λ x e. refl;
  decode-encode = λ x e. refl;
}

pub zb_addr-IsWireSafe : IsWireSafe zb_addr
zb_addr-IsWireSafe = record {
  size_limit = omega arith;
  empty_size = λ e. cc;
  length-encode = λ x e. refl;
  decode-encode = λ x e. refl;
}

pub zb_temp-IsWireSafe : IsWireSafe zb_temp
zb_temp-IsWireSafe = record {
  size_limit = omega arith;
  empty_size = λ e. cc;
  length-encode = λ x e. refl;
  decode-encode = λ x e. refl;
}

-- The two arrays of a `zb_basic_t` have sixteen bytes each.
zb_basic_arrays :
    (x : ZbBasic) → zb_basic.fits x ≡ true → (length x.manufacturer ≡ 16) × (length x.model ≡ 16)
zb_basic_arrays x e = ground arith

zb_basic_length : (x : ZbBasic) → zb_basic.fits x ≡ true → length (zb_basic.encode x) ≡ 36
zb_basic_length x e = omega (arith, length-append x.manufacturer x.model, zb_basic_arrays x e)

zb_basic_decode : (x : ZbBasic) → zb_basic.fits x ≡ true → zb_basic.decode (zb_basic.encode x) ≡ x
zb_basic_decode x e =
    let first = sym (zb_basic_arrays x e).0 in
    rw (
      take-append_at 16 x.manufacturer x.model first,
      drop-append_at 16 x.manufacturer x.model first,
    )

-- `zb_basic_t` takes 36 bytes, within the limit of 64, and a value of it whose arrays have sixteen
-- bytes each is what its bytes decode to.
pub zb_basic-IsWireSafe : IsWireSafe zb_basic
zb_basic-IsWireSafe = record {
  size_limit = omega arith;
  empty_size = λ e. cc;
  length-encode = zb_basic_length;
  decode-encode = zb_basic_decode;
}
