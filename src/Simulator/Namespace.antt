-- ===== src/Simulator/Namespace.antt =====
-- `dispatch_ns` of zb_rpc/include/zb_rpc/auto_rpc.hpp against the fold of
-- zb_rpc/include/zb_rpc/dispatch.hpp.
use zigbee_remote.Prelude.{
  ◌≡◌, ◌⊎◌, refl, sym, ap, ◌∙◌, true, false, Bool-cases, Option-cases, inl, inr, List, [], ◌∷◌,
  ◌==◌, map,
}
use zigbee_remote.Protocol.Desc.{RpcDesc}
use zigbee_remote.Engine.{Engine, FrameHeader, receive_payload, send}
use zigbee_remote.Engine.Exchange.{invoke_one_other}
use zigbee_remote.Engine.Rpc.{
  no_match, handled, failed, Outcome, Invoke, answer, invoke_one, or_else, dispatch_from, dispatch,
}
use zigbee_remote.Simulator.Serve.{Member, member, dispatch_ns}

module _ {W : Type 0} where
  -- The fold's entry for a member.
  abbrev pub entry : FrameHeader → Member W → Invoke W
  entry header (member desc function) = invoke_one desc function header

  dispatch_from_handled :
      (hs : List (Invoke W)) (e : Engine) (w : W)
      → dispatch_from (handled, e, w) hs ≡ (handled, e, w)
  unfolding dispatch_from
  dispatch_from_handled [] e w = refl
  dispatch_from_handled (h ∷ hs) e w = dispatch_from_handled hs e w

  dispatch_from_failed :
      (hs : List (Invoke W)) (e : Engine) (w : W) → dispatch_from (failed, e, w) hs ≡ (failed, e, w)
  unfolding dispatch_from
  dispatch_from_failed [] e w = refl
  dispatch_from_failed (h ∷ hs) e w = dispatch_from_failed hs e w

  dispatch_from_stays :
      (hs : List (Invoke W)) (r : Outcome W)
      → (r.0 ≡ handled) ⊎ (r.0 ≡ failed)
      → dispatch_from r hs ≡ r
  dispatch_from_stays hs (handled, e, w) settled = dispatch_from_handled hs e w
  dispatch_from_stays hs (failed, e, w) settled = dispatch_from_failed hs e w
  dispatch_from_stays hs (no_match, e, w) (inl same) = absurd cc
  dispatch_from_stays hs (no_match, e, w) (inr same) = absurd cc

  module _ {Req Resp : Type 0} (desc : RpcDesc Req Resp) (function : Req → W → Resp × W)
      (rest : List (Member W)) (header : FrameHeader) (e : Engine) (w : W) where
    fold_next :
        (header.id == desc.id) ≡ false
        → dispatch (map (entry header) (member desc function ∷ rest)) e w
          ≡ dispatch (map (entry header) rest) e w
    unfolding dispatch dispatch_from
    fold_next other =
        ap
          (λ (r : Outcome W).
            dispatch_from (or_else (no_match, e, w) (λ e' w'. r)) (map (entry header) rest))
          (invoke_one_other desc function header e w other)

    -- A member with the frame's identifier handles the frame or refuses it.
    invoke_one_matched :
        (header.id == desc.id) ≡ true
        → ((invoke_one desc function header e w).0 ≡ handled)
          ⊎ ((invoke_one desc function header e w).0 ≡ failed)
    unfolding invoke_one answer
    invoke_one_matched here =
        let read = receive_payload desc.req header e in
        elim (Option-cases read.0) [
          | inl nothing ↦ inr (rw (here, nothing) refl)
          | inr (r, got) ↦
              let done = send desc.resp desc.id (function r w).0 read.1 in
              elim (Bool-cases done.0) [
                | inl went ↦ inl (rw (here, got, went) refl)
                | inr stuck ↦ inr (rw (here, got, stuck) refl)
              ]
        ]

    pub ns_here :
        (header.id == desc.id) ≡ true
        → dispatch_ns (member desc function ∷ rest) header e w ≡ invoke_one desc function header e w
    unfolding dispatch_ns invoke_one
    ns_here here = rw (here, dispatch_ns, invoke_one)

    fold_here :
        (header.id == desc.id) ≡ true
        → dispatch (map (entry header) (member desc function ∷ rest)) e w
          ≡ dispatch_ns (member desc function ∷ rest) header e w
    unfolding dispatch dispatch_from
    fold_here here =
        dispatch_from_stays (map (entry header) rest) (invoke_one desc function header e w)
          (invoke_one_matched here)
        ∙ sym (ns_here here)

    pub ns_next :
        (header.id == desc.id) ≡ false
        → dispatch_ns (member desc function ∷ rest) header e w ≡ dispatch_ns rest header e w
    unfolding dispatch_ns
    ns_next other = rw (other, dispatch_ns)

  -- The dispatch over a namespace, which stops at the first member with the frame's identifier, is
  -- the fold over the same handlers in the same order, for every frame, engine and state.
  pub dispatch_ns-dispatch :
      (members : List (Member W)) (header : FrameHeader) (e : Engine) (w : W)
      → dispatch_ns members header e w ≡ dispatch (map (entry header) members) e w
  dispatch_ns-dispatch [] header e w = unfold dispatch_ns dispatch dispatch_from in refl
  dispatch_ns-dispatch (member desc function ∷ rest) header e w =
      elim (Bool-cases (header.id == desc.id)) [
        | inl here ↦ sym (fold_here desc function rest header e w here)
        | inr other ↦
            ns_next desc function rest header e w other
            ∙ dispatch_ns-dispatch rest header e w
            ∙ sym (fold_next desc function rest header e w other)
      ]
