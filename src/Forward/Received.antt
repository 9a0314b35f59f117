-- ===== src/Forward/Received.antt =====
-- What `netdev_recv` of zb_rpc_client/netdev_fwd.c does with the bytes that come over the PPP link.
use zigbee_remote.Prelude.{
  ℕ, ◌+◌, ◌<◌, ◌≡◌, refl, sym, ◌∙◌, inl, inr, Bool, true, false, some, List, [], ◌∷◌, ◌++◌,
  append-nil, append_assoc, length, take, drop, length-append, take-append_long, take-append_short,
  arith,
}
use zigbee_remote.Fd.{Grant, accepts}
use zigbee_remote.Fd.Output.{Written, Written-grant}
use zigbee_remote.Forward.{
  Conn, Err, Splice, total, with_conn, write_left, write_chain, forward_chain, netdev_recv,
}

write_left-Written :
    (grants : List Grant) (bytes before : List ℕ)
    → Written bytes before (write_left grants bytes before).0 (write_left grants bytes before).2
unfolding write_left
write_left-Written [] bytes before = inl (refl, refl)
write_left-Written (g ∷ rest) [] before = inl (refl, sym (append-nil before))
write_left-Written (accepts n ∷ rest) (b ∷ bs) before =
    Written-grant n (b ∷ bs) before _ _
      (write_left-Written rest (drop n (b ∷ bs)) (before ++ take n (b ∷ bs)))
write_left-Written (Grant.interrupted ∷ rest) (b ∷ bs) before =
    write_left-Written rest (b ∷ bs) before
write_left-Written (Grant.fault ∷ rest) (b ∷ bs) before =
    inr (0, omega arith, refl, sym (append-nil before))

abbrev pub payload : List (List ℕ) → List ℕ
payload [] = []
payload (p ∷ ps) = p ++ payload ps

Written-next :
    (p bytes before : List ℕ) (done : Bool) (after : List ℕ)
    → Written bytes (before ++ p) done after
    → Written (p ++ bytes) before done after
Written-next p bytes before done after (inl (ok, e)) = inl (ok, e ∙ append_assoc before p bytes)
Written-next p bytes before done after (inr (k, short, failed, e)) = inr (
  length p + k,
  omega (arith, length-append p bytes),
  failed,
  rw (take-append_long k p bytes) (e ∙ append_assoc before p (take k bytes)),
)

Written-cut :
    (p bytes before : List ℕ) (k : ℕ) (after : List ℕ)
    → k < length p
    → after ≡ before ++ take k p
    → Written (p ++ bytes) before false after
Written-cut p bytes before k after short e = inr (
  k,
  omega (arith, length-append p bytes),
  refl,
  rw (take-append_short k p bytes (omega arith)) e,
)

write_chain-Written :
    (grants : List Grant) (pbufs : List (List ℕ)) (before : List ℕ)
    → Written
        (payload pbufs)
        before
        (write_chain grants pbufs before).0
        (write_chain grants pbufs before).1
unfolding write_chain
write_chain-Written grants [] before = inl (refl, sym (append-nil before))
write_chain-Written grants (p ∷ ps) before =
    let (alive, rest, out) = write_left grants p before in
    elim (write_left-Written grants p before) [
      | inl (ok, e) ↦
          rw (ok, e)
            (Written-next p (payload ps) before _ _
              (write_chain-Written (write_left grants p before).1 ps (before ++ p)))
      | inr (k, short, failed, e) ↦ rw failed (Written-cut p (payload ps) before k _ short e)
    ]

-- For a connection that is alive, with its descriptor, `netdev_recv` acknowledges all bytes of a
-- chain to lwIP, and either writes all of them to the host in their order and leaves the
-- connection alive, or writes a proper prefix of them and leaves it not alive.
pub netdev_recv-Written :
    (grants : List Grant) (pbufs : List (List ℕ)) (c : Conn) (fd : ℕ) (s : Splice)
    → s.conn ≡ some c
    → s.has_arg ≡ true
    → c.alive ≡ true
    → c.host_fd ≡ some fd
    → (alive : Bool) × (t : Splice) × (netdev_recv grants (some pbufs) Err.err_ok s
        ≡ some (Err.err_ok, t))
      × (t.conn ≡ some (record c { alive = alive }))
      × (t.recved ≡ s.recved + total pbufs)
      × Written (payload pbufs) s.to_host alive t.to_host
unfolding netdev_recv forward_chain with_conn
netdev_recv-Written grants pbufs c fd s conn arg alive host = (
  (write_chain grants pbufs s.to_host).0,
  forward_chain grants pbufs c s,
  ground arith,
  ground arith,
  ground arith,
  rw (alive, host) (write_chain-Written grants pbufs s.to_host),
)
