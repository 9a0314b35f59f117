-- ===== src/Server/Session.antt =====
-- A whole connection of `serve_client` in zb_rpc_server/main/rpc_server.cpp.
use zigbee_remote.Prelude.{
  ℕ, zero, suc, ◌<◌, ◌≡◌, refl, sym, ap, ◌∙◌, Bool, true, Bool-cases, inl, inr, some, List, [],
  ◌++◌, append_assoc, append-nil, arith,
}
use zigbee_remote.Prelude.Int.{negsuc}
use zigbee_remote.Fd.{Fd}
use zigbee_remote.Fd.Backlog.{backlog}
use zigbee_remote.Fd.Stream.{incoming}
use zigbee_remote.Fd.Output.{IsOpen}
use zigbee_remote.Protocol.Desc.{RpcDesc, IsDesc}
use zigbee_remote.Engine.{Engine}
use zigbee_remote.Engine.Send.{message}
use zigbee_remote.Engine.Progress.{pending}
use zigbee_remote.Server.Handlers.{Firmware, Server, firmware_call}
use zigbee_remote.Server.Serve.{serve_loop, serve_client}
use zigbee_remote.Server.Errors.{serve_frame_short}
use zigbee_remote.Server.Rounds.{
  polled, serve_loop_down, serve_loop_stop, serve_loop_next, fresh, attached, serve_client_done,
}
use zigbee_remote.Server.Termination.{serve_frame-pending}
use zigbee_remote.Server.Routes.{Route}
use zigbee_remote.Server.Remote.{serve_frame_answers}

module _ {W : Type 0} (fw : Firmware W) where
  -- A run of requests: the server in state `s` gets the bytes `inputs`, answers `outputs` and is
  -- left in `s'`. Each request is one of a call whose frames reach `function`, and the link is up
  -- before it; the state carries what the polls of the link change.
  pub data Session : Server W → List ℕ → List ℕ → Server W → Type 1 where
    ended : {s : Server W} → Session s [] [] s
    served :
        {s s' : Server W} {inputs outputs : List ℕ} {Req Resp : Type 0} (desc : RpcDesc Req Resp)
        (function : Req → Server W → Resp × Server W) (r : Req)
        → IsDesc desc
        → Route fw desc function
        → (firmware_call fw.ppp_uart_is_connected s).0 ≡ true
        → desc.req.fits r ≡ true
        → desc.resp.fits (function r (polled fw s)).0 ≡ true
        → Session (function r (polled fw s)).1 inputs outputs s'
        → Session s
            (message desc.req desc.id r ++ inputs)
            (message desc.resp desc.id (function r (polled fw s)).0 ++ outputs)
            s'

  -- After the last request the client has closed: the loop ends with nothing more sent.
  serve_loop_end :
      (fuel : ℕ) (e : Engine) (s : Server W)
      → incoming e.fd ≡ []
      → (e' : Engine) × (serve_loop fw (suc fuel) e s ≡ some (e', polled fw s))
        × (e'.fd.sent ≡ e.fd.sent)
  serve_loop_end fuel e s h = elim (Bool-cases (firmware_call fw.ppp_uart_is_connected s).0) [
    | inl up ↦
        let (e', ends, sent) = serve_frame_short fw e (polled fw s) (rw h (omega arith)) in
        (e', serve_loop_stop fw fuel e e' s (polled fw s) up ends, sent)
    | inr down ↦ (e, serve_loop_down fw fuel e s down, refl)
  ]

  serve_loop-Session :
      {s s' : Server W} {inputs outputs : List ℕ}
      → Session s inputs outputs s'
      → (fuel : ℕ) (e : Engine) → pending e < fuel
      → IsOpen e.fd.grants
      → incoming e.fd ≡ inputs
      → (e' : Engine) × (serve_loop fw fuel e s ≡ some (e', polled fw s'))
        × (e'.fd.sent ≡ e.fd.sent ++ outputs)
  serve_loop-Session session zero e enough writable h = absurd (omega arith)
  serve_loop-Session (ended {s}) (suc fuel) e enough writable h =
      let (e', ends, sent) = serve_loop_end fuel e s h in
      (e', ends, sent ∙ sym (append-nil e.fd.sent))
  serve_loop-Session {s'}
        (served {s} {inputs = ins} {outputs} desc function r valid route up fit_req fit_resp rest)
        (suc fuel) e enough writable h =
      let s1 = polled fw s in
      let answer = message desc.resp desc.id (function r s1).0 in
      let (e1, serves, swapped) =
        serve_frame_answers fw desc valid function route r e s1 ins fit_req fit_resp writable h in
      let fewer = serve_frame-pending fw e s1 (ap (λ (t : Bool × Engine × Server W). t.0) serves) in
      let shrunk : pending e1 < fuel =
        omega (arith, fewer, ap (λ (t : Bool × Engine × Server W). pending t.1) serves) in
      let (e', ends, sent) =
        serve_loop-Session {s = (function r s1).1} {s' = s'} {inputs = ins} {outputs = outputs} rest
          fuel e1 shrunk swapped.still_open swapped.left in
      (
        e',
        serve_loop_next fw fuel e e1 s _ up serves ∙ ends,
        sent
            ∙ ap (λ (l : List ℕ). l ++ outputs) swapped.sent
            ∙ append_assoc e.fd.sent answer outputs,
      )

  -- For a client that sends any sequence of well-formed requests and then closes, with the link up
  -- before each of them and writes that succeed, `serve_client` ends having sent exactly the
  -- handlers' responses, in the order of the requests; the server goes through the states of the
  -- handlers, and no client is attached at the end.
  pub serve_client-Session :
      (client_fd : ℕ) (fd : Fd) (s s' : Server W) (inputs outputs : List ℕ)
      → Session (attached fw client_fd s) inputs outputs s'
      → incoming fd ≡ inputs
      → IsOpen fd.grants
      → (e' : Engine) × (serve_client fw client_fd fd s
          ≡ some (e', record (polled fw s') { s_client_fd = negsuc 0 }))
        × (e'.fd.sent ≡ fd.sent ++ outputs)
  serve_client-Session client_fd fd s s' inputs outputs session here writable =
      let (e', ends, sent) =
        serve_loop-Session session (suc (backlog fd.arrivals)) (fresh fw fd) (omega arith) writable
          here in
      (e', serve_client_done fw client_fd fd s (polled fw s') e' ends, sent)
