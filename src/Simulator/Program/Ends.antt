-- ===== src/Simulator/Program/Ends.antt =====
-- `main` of zb_rpc/src/server.cpp ends and closes its descriptors.
use native.Mathlib.Nat.{le_refl}
use zigbee_remote.Prelude.{
  ℕ, zero, suc, ◌≤◌, ◌<◌, ◌≡◌, ap, ◌∙◌, true, Option, none, some, ◌&&◌, Option-cases, Bool-cases,
  inl, inr, List, [], ◌∷◌, ◌==◌, arith, if◌then◌else◌,
}
use zigbee_remote.Fd.{Fd}
use zigbee_remote.Fd.Backlog.{backlog}
use zigbee_remote.Protocol.Codes.{ErrorCode, unknown_api}
use zigbee_remote.Engine.{Engine, FrameHeader, receive_header, discard_payload}
use zigbee_remote.Engine.Progress.{
  pending, receive_header_takes, send_error-pending, discard_payload-pending, invoke_one-IsFrugal,
}
use zigbee_remote.Main.Connect.{close_socket, close_socket_opened}
use zigbee_remote.Simulator.Serve.{Member, member, dispatch_ns, handle_command, handle_commands}
use zigbee_remote.Simulator.Namespace.{ns_here, ns_next}
use zigbee_remote.Simulator.Program.{
  HostAnswers, rpc_listen, listen_on, commands_loop, over_client, accept_one, main,
}

module _ {W : Type 0} where
  dispatch_ns-pending :
      (members : List (Member W)) (h : FrameHeader) (e : Engine) (w : W)
      → pending (dispatch_ns members h e w).1 ≤ pending e
  dispatch_ns-pending [] h e w = unfold dispatch_ns in le_refl _
  dispatch_ns-pending (member desc function ∷ rest) h e w = elim (Bool-cases (h.id == desc.id)) [
    | inl here ↦
        rw (ns_here desc function rest h e w here) ((invoke_one-IsFrugal desc function h).bound e w)
    | inr other ↦ rw (ns_next desc function rest h e w other) (dispatch_ns-pending rest h e w)
  ]

  handle_command-pending :
      (members : List (Member W)) (h : FrameHeader) (e : Engine) (w : W)
      → pending (handle_command members h e w).1 ≤ pending e
  unfolding handle_command
  handle_command-pending members h e w =
      let rest = dispatch_ns members h e w in
      ground (
        arith,
        dispatch_ns-pending members h e w,
        discard_payload-pending h.size rest.1,
        send_error-pending unknown_api (discard_payload h.size rest.1).1,
      )

  handle_commands-pending :
      (members : List (Member W)) (e : Engine) (w : W)
      → (handle_commands members e w).0 ≡ true
      → pending (handle_commands members e w).1 < pending e
  unfolding handle_commands
  handle_commands-pending members e w on = elim (Option-cases (receive_header e).0) [
    | inl cut ↦ ground arith
    | inr (header, got) ↦ ground (
      arith,
      receive_header_takes e header got,
      handle_command-pending members header (receive_header e).1 w,
    )
  ]

  commands_loop_ends :
      (members : List (Member W)) (fuel : ℕ) (e : Engine) (w : W)
      → pending e < fuel
      → (r : Engine × W) × (commands_loop members fuel e w ≡ some r)
  unfolding commands_loop
  commands_loop_ends members zero e w h = absurd (omega arith)
  commands_loop_ends members (suc fuel) e w h =
      let next = handle_commands members e w in
      elim (Bool-cases next.0) [
        | inl on ↦
            let (r, ends) =
              commands_loop_ends members fuel next.1 next.2
                (omega (arith, handle_commands-pending members e w on)) in
            (r, ground arith)
        | inr off ↦ ((next.1, next.2), ground arith)
      ]

-- The exit status: 0 if a client was accepted.
abbrev pub exit_status : HostAnswers → ℕ
exit_status a = elim a.made [
  | none ↦ 1
  | some fd ↦ elim a.client [
    | none ↦ 1
    | some client ↦ if a.valid_host && (a.bound && a.listening) then 0 else 1
  ]
]

module _ {W : Type 0} (members : List (Member W)) where
  -- The program ends with the status of `exit_status`, and the descriptors are as at the start.
  abbrev pub Ends : HostAnswers → List ℕ → Option (ℕ × List ℕ × W) → Type 0
  Ends a fds r = (w' : W) × (r ≡ some (exit_status a, fds, w'))

  over_client_ends :
      (conn : ℕ) (fd : Fd) (fds : List ℕ) (w : W)
      → (w' : W) × (over_client members conn fd (conn ∷ fds) w ≡ some (0, fds, w'))
  unfolding over_client
  over_client_ends conn fd fds w =
      let e : Engine = record { fd = fd; last_error = ErrorCode.none } in
      let (r, ends) = commands_loop_ends members (suc (backlog fd.arrivals)) e w (omega arith) in
      (r.1, ground (arith, close_socket_opened conn fds))

  close_under :
      (listener conn : ℕ) (fds : List ℕ)
      → close_socket listener (conn ∷ listener ∷ fds) ≡ conn ∷ fds
  unfolding close_socket
  close_under listener conn fds = elim (Bool-cases (listener == conn)) [
    | inl same ↦ let e : listener ≡ conn = ground arith in rw (same) (ap (λ (x : ℕ). x ∷ fds) e)
    | inr other ↦ ground (arith, close_socket_opened listener fds)
  ]

  accept_one_ends :
      (a : HostAnswers) (listener : ℕ) (fds : List ℕ) (w : W)
      → (w' : W) × (accept_one members a (some listener, listener ∷ fds) w
          ≡ some ((elim a.client [ none ↦ 1 | some client ↦ 0 ]), fds, w'))
  unfolding accept_one
  accept_one_ends a listener fds w = elim (Option-cases a.client) [
    | inl none_came ↦ (w, ground (arith, close_socket_opened listener fds))
    | inr ((conn, fd), came) ↦
        let (w', ends) = over_client_ends conn fd fds w in
        (w', ground (arith, close_under listener conn fds))
  ]

  main_listens :
      (a : HostAnswers) (listener : ℕ) (fds : List ℕ) (w : W)
      → a.made ≡ some listener
      → (a.valid_host && (a.bound && a.listening)) ≡ true
      → main members a fds w ≡ accept_one members a (some listener, listener ∷ fds) w
  unfolding main rpc_listen listen_on
  main_listens a listener fds w made ready =
      let listening : rpc_listen a fds ≡ (some listener, listener ∷ fds) = ground arith in
      ap (λ (r : Option ℕ × List ℕ). accept_one members a r w) listening

  exit_status_ready :
      (a : HostAnswers) (listener : ℕ)
      → a.made ≡ some listener
      → (a.valid_host && (a.bound && a.listening)) ≡ true
      → (elim a.client [ none ↦ 1 | some client ↦ 0 ]) ≡ exit_status a
  exit_status_ready a listener made ready = ground arith

  -- Whatever the kernel answers and whatever the client sends, the simulated coordinator's program
  -- ends: with status 0 if it could listen and a client came, else with 1; every descriptor that
  -- it has opened is closed.
  pub main-Ends : (a : HostAnswers) (fds : List ℕ) (w : W) → Ends a fds (main members a fds w)
  unfolding main rpc_listen listen_on accept_one
  main-Ends a fds w = elim (Option-cases a.made) [
    | inl no_socket ↦ (w, ground arith)
    | inr (listener, made) ↦ elim (Bool-cases (a.valid_host && (a.bound && a.listening))) [
      | inl ready ↦
          let (w', ends) = accept_one_ends a listener fds w in
          (
            w',
            main_listens a listener fds w made ready
                ∙ ends
                ∙ ap (λ (n : ℕ). some (n, fds, w')) (exit_status_ready a listener made ready),
          )
      | inr refused ↦ (w, ground (arith, close_socket_opened listener fds))
    ]
  ]
