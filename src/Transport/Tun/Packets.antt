-- ===== src/Transport/Tun/Packets.antt =====
-- A packet that PPP writes to the TUN device is one that PPP can read from it, if it fits.
use zigbee_remote.Prelude.{
  ℕ, zero, suc, ◌+◌, ◌≤◌, ◌<◌, ◌≡◌, refl, ap, ◌∙◌, Bool, true, false, Bool-cases, inl, inr, none,
  some, List, [], ◌∷◌, ◌++◌, append-nil, append_assoc, leb, ltb, length, take, length-append, arith,
}
use zigbee_remote.Prelude.Int.{pos}
use zigbee_remote.Transport.{Link}
use zigbee_remote.Transport.Tun.{
  buf_size, Family, tun_header, Err, gather, write_tun, tun_output, take_packet, dispatch_packet,
  packet, ppp_link_tun_poll,
}

abbrev pub payload : List (List ℕ) → List ℕ
payload [] = []
payload (p ∷ rest) = p ++ payload rest

gather-payload :
    (pbufs : List (List ℕ)) (filled : List ℕ)
    → length filled + length (payload pbufs) ≤ buf_size
    → gather pbufs filled ≡ some (filled ++ payload pbufs)
unfolding gather
gather-payload [] filled h = rw append-nil refl
gather-payload (p ∷ rest) filled h =
    let sizes = length-append filled p in
    let all = length-append p (payload rest) in
    let fits : ltb buf_size (length (filled ++ p)) ≡ false = ground arith in
    rw fits (
      gather-payload rest (filled ++ p) (omega arith)
      ∙ ap some (append_assoc filled p (payload rest)))

gather_overrun :
    (pbufs : List (List ℕ)) (filled : List ℕ)
    → length filled ≤ buf_size
    → buf_size < length filled + length (payload pbufs)
    → gather pbufs filled ≡ none
unfolding gather
gather_overrun [] filled s h = absurd (omega arith)
gather_overrun (p ∷ rest) filled s h =
    let sizes = length-append filled p in
    let all = length-append p (payload rest) in
    elim (Bool-cases (ltb buf_size (length (filled ++ p)))) [
      | inl over ↦ rw over refl
      | inr fits ↦ rw fits (gather_overrun rest (filled ++ p) (ground arith) (omega arith))
    ]

-- With a TUN device, a chain of pbufs of more than 1,514 bytes in all makes `tun_output` copy past
-- the end of its buffer.
pub tun_output_overrun :
    (family : Family) (whole : Bool) (l : Link) (fd : ℕ) (pbufs : List (List ℕ))
    → l.tun_fd ≡ some fd
    → 1514 < length (payload pbufs)
    → tun_output family whole (some l) pbufs ≡ none
unfolding tun_output write_tun
tun_output_overrun family whole l fd pbufs tun h =
    let short : length (tun_header family) ≡ 4 = ground arith in
    rw (tun, gather_overrun pbufs (tun_header family) (omega arith) (omega arith)) refl

dispatch_packet-header :
    (family : Family) (bytes : List ℕ)
    → dispatch_packet (tun_header family ++ bytes) ≡ some (family, bytes)
unfolding dispatch_packet
dispatch_packet-header Family.ipv4 bytes = refl
dispatch_packet-header Family.ipv6 bytes = refl

take_short : (n : ℕ) (xs : List ℕ) → length xs ≤ n → take n xs ≡ xs
take_short zero [] h = refl
take_short zero (x ∷ xs) h = absurd (omega arith)
take_short (suc n) [] h = refl
take_short (suc n) (x ∷ xs) h = ap (◌∷◌ x) (take_short n xs (omega arith))

-- With a TUN device, a chain of pbufs of 1 to 1,514 bytes in all is written to the device as one
-- packet behind the header of its family; read from the device, that packet goes to PPP with the
-- same bytes and the same family.
pub ppp_link_tun_poll-tun_output :
    (family : Family) (l : Link) (fd : ℕ) (pbufs : List (List ℕ))
    → l.tun_fd ≡ some fd
    → 0 < length (payload pbufs)
    → length (payload pbufs) ≤ 1514
    → (tun_output family true (some l) pbufs
        ≡ some (Err.err_ok, (tun_header family ++ payload pbufs) ∷ []))
      × (ppp_link_tun_poll true l (packet (tun_header family ++ payload pbufs))
          ≡ (pos 1, some (family, payload pbufs)))
unfolding tun_output write_tun ppp_link_tun_poll take_packet
ppp_link_tun_poll-tun_output family l fd pbufs tun more h =
    let short : length (tun_header family) ≡ 4 = ground arith in
    let size = length-append (tun_header family) (payload pbufs) in
    let large : leb (length (tun_header family ++ payload pbufs)) 4 ≡ false = ground arith in
    (
      rw (tun, gather-payload pbufs (tun_header family) (omega arith)) refl,
      rw
          (
            tun,
            take_short buf_size (tun_header family ++ payload pbufs) (omega arith),
            large,
            dispatch_packet-header family (payload pbufs),
          )
          refl,
    )
