-- ===== src/Stack/Match.antt =====
-- `zigbee_find_sensor` and `zdo_match_result` of zb_rpc_server/main/zigbee_stack.c.
use zigbee_remote.Prelude.{
  Bool-cases, inl, inr, ℕ, ◌≡◌, refl, ◌∙◌, true, Option, some, List, [], ◌∷◌, if◌then◌else◌, arith,
}
use zigbee_remote.Prelude.Int.{ℤ, pos, negsuc, is_zero}
use zigbee_remote.Zigbee.{ZigbeeAddr}
use zigbee_remote.Stack.{Sdk, Stack, MatchRsp, same_int, queue_send, match_item, zdo_match_result}
use zigbee_remote.Stack.Events.{Event, match_result, handle}
use zigbee_remote.Stack.Calls.{await_match, found, stack_find_sensor}

pub same_int_refl : (z : ℤ) → same_int z z ≡ true
same_int_refl (pos n) = ground arith
same_int_refl (negsuc n) = ground arith

-- The cached address after a result: that of the result, if it is no error.
abbrev pub remembered : ZigbeeAddr → ℕ → ℕ
remembered out before = if is_zero out.err then out.short_addr else before

module _ (sdk : Sdk) where
  await_match_there :
      (events : List Event) (a : ZigbeeAddr) (s : Stack)
      → await_match sdk events (record s { s_match_q = a ∷ [] })
        ≡ (some a, events, record s { s_match_q = [] })
  unfolding await_match
  await_match_there [] a s = refl
  await_match_there (event ∷ events) a s = refl

  await_match_next :
      (result : Option (ℤ × Option MatchRsp)) (events : List Event) (s : Stack)
      → await_match sdk (match_result result ∷ events) (record s { s_match_q = [] })
        ≡ await_match sdk events (record s { s_match_q = match_item sdk result ∷ [] })
  unfolding await_match handle zdo_match_result queue_send
  await_match_next result events s = refl

  find_sensor_received :
      (events left : List Event) (out : ZigbeeAddr) (s s' : Stack)
      → await_match sdk events (record s { s_match_q = [] }) ≡ (some out, left, s')
      → stack_find_sensor sdk sdk.err_none events s
        ≡ (out, left, record s' { s_last_sensor_addr = remembered out s'.s_last_sensor_addr })
  unfolding stack_find_sensor found
  find_sensor_received events left out s s' h = elim (Bool-cases (is_zero out.err)) [
    | inl fine ↦ rw (same_int_refl sdk.err_none, h, fine)
    | inr failing ↦ rw (same_int_refl sdk.err_none, h, failing)
  ]

  -- A match result that comes in first while `zigbee_find_sensor` waits for an accepted request is
  -- what it returns, whatever an earlier request has left in the queue; its address is cached if
  -- its status is 0, and nothing else of the state changes but the queue, which is empty.
  pub find_sensor_answer :
      (result : Option (ℤ × Option MatchRsp)) (events : List Event) (s : Stack)
      → stack_find_sensor sdk sdk.err_none (match_result result ∷ events) s ≡ (
        match_item sdk result,
        events,
        record s {
          s_match_q = [];
          s_last_sensor_addr = remembered (match_item sdk result) s.s_last_sensor_addr;
        },
      )
  find_sensor_answer result events s =
      find_sensor_received (match_result result ∷ events) events (match_item sdk result) s _
        (await_match_next result events s ∙ await_match_there events (match_item sdk result) s)

  match_item_empty :
      (rsp : MatchRsp)
      → rsp.match_list ≡ []
      → match_item sdk (some (sdk.err_none, some rsp))
        ≡ record { err = sdk.err_none; short_addr = 0; ep = 0 }
  unfolding match_item
  match_item_empty rsp empty = ground arith

  -- A match response without an endpoint is reported as success where the SDK's code for no error
  -- is 0: `zigbee_find_sensor` returns the status 0, and the cached address becomes 0.
  pub find_sensor_empty :
      (rsp : MatchRsp) (events : List Event) (s : Stack)
      → is_zero sdk.err_none ≡ true
      → rsp.match_list ≡ []
      → (is_zero
            (stack_find_sensor sdk sdk.err_none
              (match_result (some (sdk.err_none, some rsp)) ∷ events)
              s).0.err
          ≡ true)
        × ((stack_find_sensor sdk sdk.err_none
              (match_result (some (sdk.err_none, some rsp)) ∷ events)
              s).2.s_last_sensor_addr
            ≡ 0)
  find_sensor_empty rsp events s zero empty =
      rw
        (
          find_sensor_answer (some (sdk.err_none, some rsp)) events s,
          match_item_empty rsp empty,
          zero,
        )
        (refl, refl)
