-- ===== src/Main/Connect.antt =====
-- `wait_for_link` and `connect_rpc` of zb_rpc_client/main.cpp. What the kernel answers to each
-- attempt, and each read of `g_stop_requested`, is input.
use mathlib.Core.Path.{subst}
use zigbee_remote.Prelude.{
  ℕ, zero, suc, ◌*◌, ◌≡◌, refl, sym, Bool, true, false, none, some, List, [], ◌∷◌, ◌==◌,
  if◌then◌else◌, arith,
}
use zigbee_remote.Fd.{Fd}
use zigbee_remote.Main.{Connection}

-- One round of `wait_for_link`: whether a stop was requested, and whether the link is up.
pub record Poll : Type 0 where
  pub stop_requested : Bool
  pub is_up : Bool

-- `rounds` are left; the list has a poll for each.
unfoldable pub link_loop : (rounds : ℕ) → List Poll → Bool
link_loop zero polls = false
link_loop (suc rounds) [] = false
link_loop (suc rounds) (poll ∷ polls) =
    let rest = link_loop rounds polls in
    if poll.stop_requested then false else if poll.is_up then true else rest

unfoldable pub wait_for_link : (seconds : ℕ) → List Poll → Bool
unfolding link_loop
wait_for_link seconds polls = link_loop (seconds * 10) polls

-- How an attempt goes: a stop was requested before it; `socket` failed; `fcntl` failed on the new
-- socket; the connection was made, at once or after the poll; or it was not.
pub data Attempt : Type 0 where
  stopped no_socket : Attempt
  no_flags : ℕ → Attempt
  made : ℕ → Fd → Attempt
  refused : ℕ → Attempt

-- The open sockets; `close` takes one out.
unfoldable pub close_socket : ℕ → List ℕ → List ℕ
close_socket fd [] = []
close_socket fd (other ∷ rest) =
    let left = close_socket fd rest in if fd == other then rest else other ∷ left

unfoldable pub connect_loop : (attempts : ℕ) → List Attempt → List ℕ → Connection × List ℕ
unfolding close_socket
connect_loop zero answers sockets = (none, sockets)
connect_loop (suc attempts) [] sockets = (none, sockets)
connect_loop (suc attempts) (stopped ∷ answers) sockets = (none, sockets)
connect_loop (suc attempts) (no_socket ∷ answers) sockets = (none, sockets)
connect_loop (suc attempts) (no_flags fd ∷ answers) sockets = (none, close_socket fd (fd ∷ sockets))
connect_loop (suc attempts) (made fd held ∷ answers) sockets = (some (fd, held), fd ∷ sockets)
connect_loop (suc attempts) (refused fd ∷ answers) sockets =
    connect_loop attempts answers (close_socket fd (fd ∷ sockets))

-- `valid_host` is whether `inet_pton` reads the address.
unfoldable pub connect_rpc : (valid_host : Bool) → List Attempt → List ℕ → Connection × List ℕ
unfolding connect_loop
connect_rpc false answers sockets = (none, sockets)
connect_rpc true answers sockets = connect_loop 50 answers sockets

pub close_socket_opened : (fd : ℕ) (sockets : List ℕ) → close_socket fd (fd ∷ sockets) ≡ sockets
unfolding close_socket
close_socket_opened fd sockets = ground arith

-- The sockets that a result of `connect_rpc` leaves open.
abbrev pub kept : Connection → List ℕ → List ℕ
kept none sockets = sockets
kept (some (fd, held)) sockets = fd ∷ sockets

connect_loop-kept :
    (attempts : ℕ) (answers : List Attempt) (sockets : List ℕ)
    → (connect_loop attempts answers sockets).1
      ≡ kept (connect_loop attempts answers sockets).0 sockets
unfolding connect_loop
connect_loop-kept zero answers sockets = refl
connect_loop-kept (suc attempts) [] sockets = refl
connect_loop-kept (suc attempts) (stopped ∷ answers) sockets = refl
connect_loop-kept (suc attempts) (no_socket ∷ answers) sockets = refl
connect_loop-kept (suc attempts) (no_flags fd ∷ answers) sockets = close_socket_opened fd sockets
connect_loop-kept (suc attempts) (made fd held ∷ answers) sockets = refl
connect_loop-kept (suc attempts) (refused fd ∷ answers) sockets =
    subst
      (λ (left : List ℕ).
        (connect_loop attempts answers left).1
        ≡ kept (connect_loop attempts answers left).0 sockets)
      (sym (close_socket_opened fd sockets)) (connect_loop-kept attempts answers sockets)

-- However its attempts go, `connect_rpc` leaves open the socket that it returns, if any, and the
-- sockets that were open before it, and no other one.
pub connect_rpc-kept :
    (valid_host : Bool) (answers : List Attempt) (sockets : List ℕ)
    → (connect_rpc valid_host answers sockets).1
      ≡ kept (connect_rpc valid_host answers sockets).0 sockets
unfolding connect_rpc
connect_rpc-kept false answers sockets = refl
connect_rpc-kept true answers sockets = connect_loop-kept 50 answers sockets
