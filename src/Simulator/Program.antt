-- ===== src/Simulator/Program.antt =====
-- `main` of zb_rpc/src/server.cpp over any namespace of handlers, with `rpc_listen` and `rpc_accept` of
-- zb_rpc/include/zb_rpc/sock.hpp. What the kernel answers is input; the options, the default address
-- and the log have no effect on the state.
pub mod Ends
use zigbee_remote.Prelude.{
  ℕ, zero, suc, Bool, true, false, not, Option, none, some, List, ◌∷◌, if◌then◌else◌,
}
use zigbee_remote.Fd.{Fd}
use zigbee_remote.Fd.Backlog.{backlog}
use zigbee_remote.Protocol.Codes.{ErrorCode}
use zigbee_remote.Engine.{Engine}
use zigbee_remote.Main.Connect.{close_socket}
use zigbee_remote.Simulator.Serve.{Member, handle_commands}

-- How the calls of `rpc_listen` and `rpc_accept` go; a client comes with what the kernel holds for it.
pub record HostAnswers : Type 0 where
  pub made : Option ℕ
  pub valid_host : Bool
  pub bound : Bool
  pub listening : Bool
  pub client : Option (ℕ × Fd)

-- `rpc_listen` on the new socket; the list has the open descriptors.
unfoldable pub listen_on : HostAnswers → ℕ → List ℕ → Option ℕ × List ℕ
unfolding close_socket
listen_on a fd fds =
    if not a.valid_host
    then (none, close_socket fd (fd ∷ fds))
    else if not a.bound
    then (none, close_socket fd (fd ∷ fds))
    else if not a.listening
    then (none, close_socket fd (fd ∷ fds))
    else (some fd, fd ∷ fds)

unfoldable pub rpc_listen : HostAnswers → List ℕ → Option ℕ × List ℕ
unfolding listen_on
rpc_listen a fds = elim a.made [ none ↦ (none, fds) | some fd ↦ listen_on a fd fds ]

module _ {W : Type 0} (members : List (Member W)) where
  -- `while (handle_commands(engine))`; `none` means that the fuel ran out.
  unfoldable pub commands_loop : (fuel : ℕ) → Engine → W → Option (Engine × W)
  unfolding handle_commands
  commands_loop zero e w = none
  commands_loop (suc fuel) e w =
      let (goes_on, e', w') = handle_commands members e w in
      elim goes_on [ false ↦ some (e', w') | true ↦ commands_loop fuel e' w' ]

  -- The commands of the client; each takes twelve at least of the bytes that can still arrive.
  unfoldable pub over_client : ℕ → Fd → List ℕ → W → Option (ℕ × List ℕ × W)
  unfolding commands_loop
  over_client conn fd fds w =
      let run =
        commands_loop (suc (backlog fd.arrivals)) (record { fd = fd; last_error = ErrorCode.none })
          w in
      elim run [ none ↦ none | some (e, w') ↦ some (0, close_socket conn fds, w') ]

  -- `rpc_accept`, and the close of the listening socket that follows it.
  unfoldable pub accept_one : HostAnswers → Option ℕ × List ℕ → W → Option (ℕ × List ℕ × W)
  unfolding over_client
  accept_one a (none, fds) w = some (1, fds, w)
  accept_one a (some listener, fds) w = elim a.client [
    | none ↦ some (1, close_socket listener fds, w)
    | some (conn, fd) ↦ over_client conn fd (close_socket listener (conn ∷ fds)) w
  ]

  -- The exit status, the descriptors that are open at the end, and the state of the handlers.
  unfoldable pub main : HostAnswers → List ℕ → W → Option (ℕ × List ℕ × W)
  unfolding accept_one
  main a fds w = accept_one a (rpc_listen a fds) w
