-- ===== src/Server/Task.antt =====
-- `create_listener` and `server_task` of zb_rpc_server/main/rpc_server.cpp. What the kernel answers is
-- input; socket options, the wait for the link and the delay have no effect on the state.
use zigbee_remote.Prelude.{
  ℕ, ◌≡◌, refl, Bool, true, false, Bool-cases, Option-cases, inl, inr, ◌&&◌, Option, none, some,
  List, [], ◌∷◌, if◌then◌else◌, arith,
}
use zigbee_remote.Prelude.Int.{negsuc}
use zigbee_remote.Fd.{Fd}
use zigbee_remote.Main.Connect.{close_socket, close_socket_opened}
use zigbee_remote.Server.Handlers.{Firmware, Server, firmware_call}
use zigbee_remote.Server.Serve.{serve_client}
use zigbee_remote.Server.Termination.{serve_client_ends}

-- How the calls of `create_listener` go.
pub record ListenAnswers : Type 0 where
  pub made : Option ℕ
  pub bound : Bool
  pub listening : Bool

-- `bind` and `listen` on the new socket; the list has the open descriptors.
unfoldable pub bind_listener : ListenAnswers → ℕ → List ℕ → Option ℕ × List ℕ
unfolding close_socket
bind_listener a listener fds =
    if a.bound && a.listening
    then (some listener, listener ∷ fds)
    else (none, close_socket listener (listener ∷ fds))

unfoldable pub create_listener : ListenAnswers → List ℕ → Option ℕ × List ℕ
unfolding bind_listener
create_listener a fds = elim a.made [
  | none ↦ (none, fds)
  | some listener ↦ bind_listener a listener fds
]

-- The descriptors that a result of `create_listener` leaves open.
abbrev pub held : Option ℕ → List ℕ → List ℕ
held none fds = fds
held (some listener) fds = listener ∷ fds

create_listener-held :
    (a : ListenAnswers) (fds : List ℕ)
    → (create_listener a fds).1 ≡ held (create_listener a fds).0 fds
unfolding create_listener bind_listener
create_listener-held a fds = elim (Option-cases a.made) [
  | inl e ↦ rw e refl
  | inr (listener, e) ↦ elim (Bool-cases (a.bound && a.listening)) [
    | inl b ↦ rw (e, b) refl
    | inr b ↦ rw (e, b) (close_socket_opened listener fds)
  ]
]

-- What `accept` answers: a client with what the kernel holds for it, -1 after the timeout, or -1 with
-- another errno.
pub data Accepted : Type 0 where
  accepted : ℕ → Fd → Accepted
  again : Accepted
  fault : Accepted

-- Where the task stands when its input is used up: at the wait for the link, with no listener, or at
-- the test of the loop around `accept`, with one.
pub data Place : Type 0 where
  at_wait : Place
  at_test : ℕ → Place

-- The descriptors that are open there, besides those from the start.
abbrev pub open_at : Place → List ℕ → List ℕ
open_at at_wait fds = fds
open_at (at_test listener) fds = listener ∷ fds

module _ {W : Type 0} (fw : Firmware W) where
  -- One client. The shutdown and the close follow however the service ends.
  unfoldable pub serve_accepted : ℕ → Fd → List ℕ → Server W → Option (Server W × List ℕ)
  unfolding close_socket
  serve_accepted client fd fds s = elim (serve_client fw client fd s) [
    | none ↦ none
    | some (e, s') ↦ some (s', close_socket client (client ∷ fds))
  ]

  -- The loop around `accept`, a round for each answer; the answer is not looked at where the link is
  -- down. The result has `true` where the loop was left, `false` where it goes on with the next
  -- answer; `none` if a service does not end.
  unfoldable pub accept_loop : List Accepted → List ℕ → Server W → Option (Bool × Server W × List ℕ)
  accept_loop [] fds s = some (false, s, fds)
  accept_loop (a ∷ answers) fds s =
      let (up, s1) = firmware_call fw.ppp_uart_is_connected s in
      elim up [
        | false ↦ some (true, s1, fds)
        | true ↦ elim a [
          | again ↦ accept_loop answers fds s1
          | fault ↦ some (true, s1, fds)
          | accepted client fd ↦ elim (serve_accepted client fd fds s1) [
            | none ↦ none
            | some (s2, fds') ↦ accept_loop answers fds' s2
          ]
        ]
      ]

  -- The part of a round behind `create_listener`. The listener is closed behind the loop only.
  unfoldable pub over_listener :
      List Accepted → Option ℕ × List ℕ → Server W → Option (Place × Server W × List ℕ)
  unfolding accept_loop
  over_listener answers (none, fds) s = some (at_wait, s, fds)
  over_listener answers (some listener, fds) s = elim (accept_loop answers fds s) [
    | none ↦ none
    | some (left, s', fds') ↦
        some
          (if left then (at_wait, s', close_socket listener fds') else (at_test listener, s', fds'))
  ]

  -- The rounds of `server_task`, each with its answers. A round whose loop still goes on is the last.
  unfoldable pub server_task :
      List (ListenAnswers × List Accepted) → List ℕ → Server W → Option (Place × Server W × List ℕ)
  unfolding over_listener
  server_task [] fds s = some (at_wait, s, fds)
  server_task ((a, answers) ∷ rounds) fds s =
      elim (over_listener answers (create_listener a fds) s) [
        | none ↦ none
        | some (place, s', fds') ↦ elim place [
          | at_wait ↦ server_task rounds fds' s'
          | at_test listener ↦ some (at_test listener, s', fds')
        ]
      ]

  -- No client is attached.
  abbrev pub IsIdle : Server W → Type 0
  IsIdle s = s.s_client_fd ≡ negsuc 0

  serve_accepted-Returns :
      (client : ℕ) (fd : Fd) (fds : List ℕ) (s : Server W)
      → (s' : Server W) × (serve_accepted client fd fds s ≡ some (s', fds)) × IsIdle s'
  unfolding serve_accepted
  serve_accepted-Returns client fd fds s =
      let (r, ends, idle) = serve_client_ends fw client fd s in
      (r.1, ground (arith, close_socket_opened client fds), idle)

  abbrev LoopReturns : Option (Bool × Server W × List ℕ) → List ℕ → Type 0
  LoopReturns r fds = (left : Bool) × (s' : Server W) × (r ≡ some (left, s', fds)) × IsIdle s'

  accept_loop-Returns :
      (answers : List Accepted) (fds : List ℕ) (s : Server W)
      → IsIdle s
      → LoopReturns (accept_loop answers fds s) fds
  unfolding accept_loop
  accept_loop-Returns [] fds s idle = (false, s, refl, idle)
  accept_loop-Returns (again ∷ answers) fds s idle =
      let s1 : Server W = (firmware_call fw.ppp_uart_is_connected s).1 in
      elim (Bool-cases (firmware_call fw.ppp_uart_is_connected s).0) [
        | inl up ↦
            let (left, s2, ends, idle2) = accept_loop-Returns answers fds s1 idle in
            (left, s2, ground arith, idle2)
        | inr down ↦ (true, s1, ground arith, idle)
      ]
  accept_loop-Returns (fault ∷ answers) fds s idle =
      let s1 : Server W = (firmware_call fw.ppp_uart_is_connected s).1 in
      elim (Bool-cases (firmware_call fw.ppp_uart_is_connected s).0) [
        | inl up ↦ (true, s1, ground arith, idle)
        | inr down ↦ (true, s1, ground arith, idle)
      ]
  accept_loop-Returns (accepted client fd ∷ answers) fds s idle =
      let s1 : Server W = (firmware_call fw.ppp_uart_is_connected s).1 in
      elim (Bool-cases (firmware_call fw.ppp_uart_is_connected s).0) [
        | inl up ↦
            let (s2, served, idle2) = serve_accepted-Returns client fd fds s1 in
            let (left, s3, ends, idle3) = accept_loop-Returns answers fds s2 idle2 in
            (left, s3, ground arith, idle3)
        | inr down ↦ (true, s1, ground arith, idle)
      ]

  -- The descriptors at the place that is reached, and no client.
  abbrev pub Stands : Option (Place × Server W × List ℕ) → List ℕ → Type 0
  Stands r fds =
      (place : Place) × (s' : Server W) × (r ≡ some (place, s', open_at place fds)) × IsIdle s'

  over_listener-Stands :
      (answers : List Accepted) (listener : Option ℕ) (fds : List ℕ) (s : Server W)
      → IsIdle s
      → Stands (over_listener answers (listener, held listener fds) s) fds
  unfolding over_listener
  over_listener-Stands answers none fds s idle = (at_wait, s, refl, idle)
  over_listener-Stands answers (some listener) fds s idle =
      let (left, s1, ends, idle1) = accept_loop-Returns answers (listener ∷ fds) s idle in
      elim (Bool-cases left) [
        | inl was_left ↦ (at_wait, s1, ground (arith, close_socket_opened listener fds), idle1)
        | inr goes_on ↦ (at_test listener, s1, ground arith, idle1)
      ]

  -- From a state with no client attached, after any number of answers to the calls of the server's
  -- task, whatever they are and whatever the clients send: every client that was accepted has been
  -- served to the end, none is attached, and the open descriptors are those from the start and,
  -- while the task is in its loop around `accept`, the listener.
  pub server_task-Stands :
      (rounds : List (ListenAnswers × List Accepted)) (fds : List ℕ) (s : Server W)
      → IsIdle s
      → Stands (server_task rounds fds s) fds
  unfolding server_task
  server_task-Stands [] fds s idle = (at_wait, s, refl, idle)
  server_task-Stands ((a, answers) ∷ rounds) fds s idle =
      let made = create_listener-held a fds in
      let (place, s1, e1, idle1) =
        over_listener-Stands answers (create_listener a fds).0 fds s idle in
      elim place
          as (λ (q : Place). place ≡ q → Stands (server_task ((a, answers) ∷ rounds) fds s) fds) [
            | at_wait ↦ λ h.
                let (place2, s2, e2, idle2) = server_task-Stands rounds fds s1 idle1 in
                (place2, s2, ground arith, idle2)
            | at_test listener ↦ λ h. (at_test listener, s1, ground arith, idle1)
          ]
        refl
