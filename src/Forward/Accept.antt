-- ===== src/Forward/Accept.antt =====
-- `linux_connect_host` and `netdev_accept` of zb_rpc_client/netdev_fwd.c. What the kernel and lwIP
-- answer is input.
use mathlib.Core.Path.{subst}
use zigbee_remote.Prelude.{
  ℕ, ◌≡◌, ◌⊎◌, refl, sym, inl, inr, Bool, true, false, Bool-cases, Option, none, some, List, [],
  ◌∷◌, if◌then◌else◌, arith,
}
use zigbee_remote.Main.Connect.{close_socket, close_socket_opened}
use zigbee_remote.Forward.{Err, Splice, with_conn, netdev_err}

-- An address of the host: `socket` fails, or `connect` fails or succeeds on the new socket.
pub data Address : Type 0 where
  no_socket : Address
  refused : ℕ → Address
  connected : ℕ → Address

unfoldable pub connect_addresses : List Address → List ℕ → Option ℕ × List ℕ
unfolding close_socket
connect_addresses [] fds = (none, fds)
connect_addresses (no_socket ∷ rest) fds = connect_addresses rest fds
connect_addresses (refused fd ∷ rest) fds = connect_addresses rest (close_socket fd (fd ∷ fds))
connect_addresses (connected fd ∷ rest) fds = (some fd, fd ∷ fds)

-- `addresses` is what `getaddrinfo` gives, or `none` where it fails.
unfoldable pub linux_connect_host : Option (List Address) → List ℕ → Option ℕ × List ℕ
unfolding connect_addresses
linux_connect_host none fds = (none, fds)
linux_connect_host (some addresses) fds = connect_addresses addresses fds

abbrev pub kept_fd : Option ℕ → List ℕ → List ℕ
kept_fd none fds = fds
kept_fd (some fd) fds = fd ∷ fds

connect_addresses-kept_fd :
    (addresses : List Address) (fds : List ℕ)
    → (connect_addresses addresses fds).1 ≡ kept_fd (connect_addresses addresses fds).0 fds
unfolding connect_addresses
connect_addresses-kept_fd [] fds = refl
connect_addresses-kept_fd (no_socket ∷ rest) fds = connect_addresses-kept_fd rest fds
connect_addresses-kept_fd (refused fd ∷ rest) fds =
    subst
      (λ (left : List ℕ).
        (connect_addresses rest left).1 ≡ kept_fd (connect_addresses rest left).0 fds)
      (sym (close_socket_opened fd fds)) (connect_addresses-kept_fd rest fds)
connect_addresses-kept_fd (connected fd ∷ rest) fds = refl

pub linux_connect_host-kept_fd :
    (addresses : Option (List Address)) (fds : List ℕ)
    → (linux_connect_host addresses fds).1 ≡ kept_fd (linux_connect_host addresses fds).0 fds
unfolding linux_connect_host
linux_connect_host-kept_fd none fds = refl
linux_connect_host-kept_fd (some addresses) fds = connect_addresses-kept_fd addresses fds

-- How the calls of `netdev_accept` go; `offered` is whether lwIP gives a new pcb without an error.
pub record AcceptAnswers : Type 0 where
  pub offered : Bool
  pub addresses : Option (List Address)
  pub allocated : Bool
  pub thread_made : Bool

-- `tcp_abort`, which calls the pcb's error callback where `calls_err`.
unfoldable pub tcp_abort : (calls_err : Bool) → Splice → Option Splice
unfolding netdev_err
tcp_abort calls_err s =
    let closed = record s { pcb_closed = true } in
    if calls_err then netdev_err closed else some closed

abbrev pub with_err : Err → Option Splice → Option (Err × Splice)
with_err err none = none
with_err err (some s) = some (err, s)

-- From the connection to the host on.
unfoldable pub accept_connected :
    (calls_err : Bool) → AcceptAnswers → ℕ → Splice → Option (Err × Splice)
unfolding tcp_abort
accept_connected calls_err a host_fd s =
    let closed = record s { fds = close_socket host_fd s.fds } in
    let spliced = record s {
      conn = some (record { pcb = true; host_fd = some host_fd; alive = true });
      has_arg = true;
    } in
    let freed = record spliced { fds = close_socket host_fd s.fds; conn = none } in
    if a.allocated
    then (if a.thread_made
        then some (Err.err_ok, spliced)
        else with_err Err.err_abrt (tcp_abort calls_err freed))
    else with_err Err.err_mem (tcp_abort calls_err closed)

unfoldable pub accept_host :
    (calls_err : Bool) → AcceptAnswers → Option ℕ → Splice → Option (Err × Splice)
unfolding accept_connected
accept_host calls_err a none s = with_err Err.err_abrt (tcp_abort calls_err s)
accept_host calls_err a (some fd) s = accept_connected calls_err a fd s

unfoldable pub netdev_accept : (calls_err : Bool) → AcceptAnswers → Splice → Option (Err × Splice)
unfolding accept_host
netdev_accept calls_err a s =
    let (host_fd, fds) = linux_connect_host a.addresses s.fds in
    if a.offered
    then accept_host calls_err a host_fd (record s { fds = fds })
    else some (Err.err_val, s)

-- A pcb that is new.
pub record IsNew (s : Splice) : Type 0 where
  pub no_conn : s.conn ≡ none
  pub no_arg : s.has_arg ≡ false
  pub is_open : s.pcb_closed ≡ false

-- The connection that a success makes.
abbrev pub IsSpliced : List ℕ → Splice → Type 0
IsSpliced fds t =
    (fd : ℕ) × (t.conn ≡ some (record { pcb = true; host_fd = some fd; alive = true }))
    × (t.has_arg ≡ true)
    × (t.fds ≡ fd ∷ fds)

abbrev pub IsRefused : List ℕ → Err → Splice → Type 0
IsRefused fds err t =
    (¬ (err ≡ Err.err_ok)) × (t.conn ≡ none) × (t.pcb_closed ≡ true) × (t.fds ≡ fds)

abbrev pub Accepts : Option (Err × Splice) → List ℕ → Type 0
Accepts r fds =
    (err : Err) × (t : Splice) × (r ≡ some (err, t))
    × (((err ≡ Err.err_ok) × IsSpliced fds t) ⊎ (IsRefused fds err t))

accept_connected_cases :
    (calls_err : Bool) (a : AcceptAnswers) (fd : ℕ) (fds : List ℕ) (s : Splice)
    → IsNew s
    → s.fds ≡ fd ∷ fds
    → (calls_err ≡ false) ⊎ (a.thread_made ≡ true)
    → Accepts (accept_connected calls_err a fd s) fds
unfolding accept_connected tcp_abort netdev_err
accept_connected_cases calls_err a fd fds s new e able =
    let closed = close_socket_opened fd fds in
    elim (Bool-cases a.allocated) [
      | inr g ↦ (
        Err.err_mem,
        record s { fds = close_socket fd s.fds; pcb_closed = true },
        ground arith,
        inr (ground arith),
      )
      | inl g ↦ elim (Bool-cases a.thread_made) [
        | inl m ↦ (
          Err.err_ok,
          record s {
            conn = some (record { pcb = true; host_fd = some fd; alive = true });
            has_arg = true;
          },
          ground arith,
          inl (refl, (fd, refl, refl, e)),
        )
        | inr m ↦ (
          Err.err_abrt,
          record s { conn = none; has_arg = true; fds = close_socket fd s.fds; pcb_closed = true },
          ground arith,
          inr (ground arith),
        )
      ]
    ]

accept_found :
    (calls_err : Bool) (a : AcceptAnswers) (host_fd : Option ℕ) (fds : List ℕ) (s : Splice)
    → IsNew s
    → (calls_err ≡ false) ⊎ (a.thread_made ≡ true)
    → Accepts (accept_host calls_err a host_fd (record s { fds = kept_fd host_fd fds })) fds
unfolding accept_host tcp_abort netdev_err
accept_found calls_err a none fds s new able =
    (Err.err_abrt, record s { fds = fds; pcb_closed = true }, ground arith, inr (ground arith))
accept_found calls_err a (some fd) fds s new able =
    accept_connected_cases calls_err a fd fds (record s { fds = fd ∷ fds }) (ground arith) refl able

-- For a new pcb that is offered without an error, where a thread can be made or `tcp_abort` does
-- not call the error callback, `netdev_accept` either succeeds with a connection to the host,
-- whose descriptor is the only one that it has opened, or fails with the pcb aborted, no
-- connection, and no descriptor left open.
pub netdev_accept_cases :
    (calls_err : Bool) (a : AcceptAnswers) (s : Splice)
    → IsNew s
    → a.offered ≡ true
    → (calls_err ≡ false) ⊎ (a.thread_made ≡ true)
    → Accepts (netdev_accept calls_err a s) s.fds
unfolding netdev_accept
netdev_accept_cases calls_err a s new offered able =
    let kept = linux_connect_host-kept_fd a.addresses s.fds in
    rw (offered, kept)
      (accept_found calls_err a (linux_connect_host a.addresses s.fds).0 s.fds s new able)

-- Where `tcp_abort` calls the pcb's error callback, a pcb that is accepted and connected to the
-- host, but whose thread cannot be made, makes `netdev_accept` use the connection after it has
-- freed it.
pub accept_thread_fails :
    (a : AcceptAnswers) (s : Splice) (fd : ℕ)
    → a.offered ≡ true
    → (linux_connect_host a.addresses s.fds).0 ≡ some fd
    → a.allocated ≡ true
    → a.thread_made ≡ false
    → netdev_accept true a s ≡ none
unfolding netdev_accept accept_host accept_connected tcp_abort netdev_err with_conn
accept_thread_fails a s fd offered found allocated failed =
    rw (offered, found, allocated, failed) refl
