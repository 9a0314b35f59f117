-- ===== src/Transport/Tun.antt =====
-- Packets between PPP and the TUN device: `tun_output`, `ip4_input`, `ip6_input` and
-- `ppp_link_tun_poll` of zb_rpc_client/ppp_lwip.c.
pub mod Packets
use zigbee_remote.Prelude.{
  ℕ, zero, suc, ◌+◌, ◌-◌, Bool, true, false, ◌&&◌, Option, none, some, List, [], ◌∷◌, ◌++◌, leb,
  ltb, ◌==◌, if◌then◌else◌, length, take, drop,
}
use zigbee_remote.Prelude.Int.{ℤ, pos, negsuc}
use zigbee_remote.Transport.{Link}

abbrev pub buf_size : ℕ
buf_size = 1518

pub data Family : Type 0 where
  ipv4 ipv6 : Family

-- `ip4_header` and `ip6_header`
abbrev pub tun_header : Family → List ℕ
tun_header Family.ipv4 = 0 ∷ 0 ∷ 0x08 ∷ 0 ∷ []
tun_header Family.ipv6 = 0 ∷ 0 ∷ 0x86 ∷ 0xdd ∷ []

-- `err_t`; `handed_on` is that of `lwip_ip4_input`, which takes the packet in forwarding mode.
pub data Err : Type 0 where
  err_ok err_arg err_abrt handed_on : Err

-- The copies into `in_buf`, which holds `filled` so far; `none` where one runs over its end.
unfoldable pub gather : List (List ℕ) → (filled : List ℕ) → Option (List ℕ)
gather [] filled = some filled
gather (p ∷ rest) filled =
    let next = gather rest (filled ++ p) in
    if ltb buf_size (length (filled ++ p)) then none else next

-- `whole` is whether `write` takes the whole packet. The second component is what it is given.
unfoldable pub write_tun : (whole : Bool) → Option (List ℕ) → Option (Err × List (List ℕ))
write_tun whole none = none
write_tun whole (some packet) = some (if whole then Err.err_ok else Err.err_abrt, packet ∷ [])

-- `io` is the link that `s_io` points into, or `none` for NULL; the list has the pbufs of a chain.
unfoldable pub tun_output :
    Family → (whole : Bool) → (io : Option Link) → List (List ℕ) → Option (Err × List (List ℕ))
unfolding gather write_tun
tun_output family whole none pbufs = some (Err.err_arg, [])
tun_output family whole (some l) pbufs = elim l.tun_fd [
  | none ↦ some (Err.err_ok, [])
  | some fd ↦ write_tun whole (gather pbufs (tun_header family))
]

unfoldable pub ip6_input :
    (whole : Bool) → Option Link → List (List ℕ) → Option (Err × List (List ℕ))
unfolding tun_output
ip6_input whole io pbufs = tun_output Family.ipv6 whole io pbufs

unfoldable pub ip4_input :
    (fwd whole : Bool) → Option Link → List (List ℕ) → Option (Err × List (List ℕ))
unfolding tun_output
ip4_input fwd whole io pbufs =
    if fwd then some (Err.handed_on, []) else tun_output Family.ipv4 whole io pbufs

abbrev pub is_prefix : List ℕ → List ℕ → Bool
is_prefix [] bs = true
is_prefix (x ∷ xs) [] = false
is_prefix (x ∷ xs) (b ∷ bs) = (x == b) && is_prefix xs bs

-- What `select` and `read` answer: nothing in a second, or an error of `select`; an error of
-- `read`; or a packet.
pub data TunAnswer : Type 0 where
  quiet read_error : TunAnswer
  packet : List ℕ → TunAnswer

abbrev family_of : List ℕ → Option Family
family_of bytes =
    if is_prefix (tun_header Family.ipv6) bytes
    then some Family.ipv6
    else if is_prefix (tun_header Family.ipv4) bytes
    then some Family.ipv4
    else none

-- The packet that goes to PPP, if its family is known.
unfoldable pub dispatch_packet : List ℕ → Option (Family × List ℕ)
dispatch_packet bytes = elim (family_of bytes) [
  | none ↦ none
  | some family ↦ some (family, drop 4 bytes)
]

-- A packet in `out_buf`. `allocated` is whether there is a pbuf for it.
unfoldable pub take_packet : (allocated : Bool) → List ℕ → ℤ × Option (Family × List ℕ)
unfolding dispatch_packet
take_packet allocated bytes =
    if leb (length bytes) 4
    then (pos 0, none)
    else if allocated
    then (pos 1, dispatch_packet bytes)
    else (negsuc 0, none)

-- The result and the packet that goes to PPP. The link is not NULL.
unfoldable pub ppp_link_tun_poll :
    (allocated : Bool) → Link → TunAnswer → ℤ × Option (Family × List ℕ)
unfolding take_packet
ppp_link_tun_poll allocated l answer = elim l.tun_fd [
  | none ↦ (pos 0, none)
  | some fd ↦ elim answer [
    | quiet ↦ (pos 0, none)
    | read_error ↦ (negsuc 0, none)
    | packet bytes ↦ take_packet allocated (take buf_size bytes)
  ]
]
