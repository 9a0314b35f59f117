-- ===== src/Server/Routes.antt =====
-- Which handler `dispatch` of zb_rpc_server/main/rpc_server.cpp runs for a frame of each call.
use zigbee_remote.Prelude.{
  ℕ, ◌≡◌, refl, sym, ap, ◌∙◌, Bool, true, false, Bool-cases, Option-cases, inl, inr, ◌==◌,
}
use zigbee_remote.Protocol.Desc
use zigbee_remote.Protocol.Desc.{RpcDesc}
use zigbee_remote.Engine.{Engine, receive_payload, send}
use zigbee_remote.Engine.Rpc.{
  InvokeResult, no_match, handled, failed, Outcome, answer, report_error, invoke_one,
}
use zigbee_remote.Server.Handlers.{
  Firmware, Server, handle_get_short_addr, handle_get_panid, handle_get_channel,
  handle_open_network, handle_wait_annce, handle_find_sensor, handle_read_basic, handle_bind_sensor,
  handle_subscribe_sensor, handle_config_report, handle_read_temp, handle_get_last_temp,
  handle_get_sensor_addr,
}
use zigbee_remote.Server.Dispatch.{dispatch}

-- The two outcomes of an invocation that matched.
abbrev pub verdict : Bool → InvokeResult
verdict true = handled
verdict false = failed

abbrev is_handled : InvokeResult → Bool
is_handled no_match = false
is_handled handled = true
is_handled failed = false

module _ {W : Type 0} where
  -- The connection is kept exactly if the request was handled.
  abbrev pub settled : Outcome (Server W) → Bool × Engine × Server W
  settled (result, e, s) = (is_handled result, e, s)

  -- The handler of the frame's own call is run, or its request is refused.
  invoke_one_match :
      {Req Resp : Type 0} (desc : RpcDesc Req Resp) (function : Req → Server W → Resp × Server W)
      (size : ℕ) (e : Engine) (s : Server W)
      → (desc.id == desc.id) ≡ true
      → (kept : Bool) × (e' : Engine) × (s' : Server W) × (invoke_one desc function
            (record { id = desc.id; size = size })
            e
            s
          ≡ (verdict kept, e', s'))
  unfolding invoke_one answer
  invoke_one_match desc function size e s same =
      let read = receive_payload desc.req (record { id = desc.id; size = size }) e in
      elim (Option-cases read.0) [
        | inl nothing ↦ (false, report_error read.1, s, rw (same, nothing))
        | inr (r, got) ↦
            let done = send desc.resp desc.id (function r s).0 read.1 in
            elim (Bool-cases done.0) [
              | inl went ↦ (true, done.1, (function r s).1, rw (same, got, went))
              | inr stuck ↦ (false, done.1, (function r s).1, rw (same, got, stuck))
            ]
      ]

module _ {W : Type 0} (fw : Firmware W) where
  -- A request of `desc`, of whatever size, ends the dispatch with the outcome of this handler.
  abbrev pub Route :
      {Req Resp : Type 0} → RpcDesc Req Resp → (Req → Server W → Resp × Server W) → Type 0
  Route desc function =
      (size : ℕ) (e : Engine) (s : Server W)
      → dispatch fw (record { id = desc.id; size = size }) e s
        ≡ settled (invoke_one desc function (record { id = desc.id; size = size }) e s)

  -- The same, with the outcome at hand.
  abbrev Decided :
      {Req Resp : Type 0} → RpcDesc Req Resp → (Req → Server W → Resp × Server W) → Type 0
  Decided desc function =
      (size : ℕ) (e e' : Engine) (s s' : Server W) (kept : Bool)
      → invoke_one desc function (record { id = desc.id; size = size }) e s ≡ (verdict kept, e', s')
      → dispatch fw (record { id = desc.id; size = size }) e s ≡ (kept, e', s')

  settled-verdict :
      (kept : Bool) (e : Engine) (s : Server W) → settled (verdict kept, e, s) ≡ (kept, e, s)
  settled-verdict true e s = refl
  settled-verdict false e s = refl

  Route-of :
      {Req Resp : Type 0} (desc : RpcDesc Req Resp) (function : Req → Server W → Resp × Server W)
      → (desc.id == desc.id) ≡ true
      → Decided desc function
      → Route desc function
  Route-of desc function same decided size e s =
      let (kept, e', s', ends) = invoke_one_match desc function size e s same in
      decided size e e' s s' kept ends ∙ sym (ap settled ends ∙ settled-verdict kept e' s')

  Decided-get_short_addr : Decided Desc.get_short_addr (handle_get_short_addr fw)
  unfolding dispatch invoke_one
  Decided-get_short_addr size e e' s s' true h = rw h
  Decided-get_short_addr size e e' s s' false h = rw h

  Decided-get_panid : Decided Desc.get_panid (handle_get_panid fw)
  unfolding dispatch invoke_one
  Decided-get_panid size e e' s s' true h = rw h
  Decided-get_panid size e e' s s' false h = rw h

  Decided-get_channel : Decided Desc.get_channel (handle_get_channel fw)
  unfolding dispatch invoke_one
  Decided-get_channel size e e' s s' true h = rw h
  Decided-get_channel size e e' s s' false h = rw h

  Decided-open_network : Decided Desc.open_network (handle_open_network fw)
  unfolding dispatch invoke_one
  Decided-open_network size e e' s s' true h = rw h
  Decided-open_network size e e' s s' false h = rw h

  Decided-wait_annce : Decided Desc.wait_annce (handle_wait_annce fw)
  unfolding dispatch invoke_one
  Decided-wait_annce size e e' s s' true h = rw h
  Decided-wait_annce size e e' s s' false h = rw h

  Decided-find_sensor : Decided Desc.find_sensor (handle_find_sensor fw)
  unfolding dispatch invoke_one
  Decided-find_sensor size e e' s s' true h = rw h
  Decided-find_sensor size e e' s s' false h = rw h

  Decided-read_basic : Decided Desc.read_basic (handle_read_basic fw)
  unfolding dispatch invoke_one
  Decided-read_basic size e e' s s' true h = rw h
  Decided-read_basic size e e' s s' false h = rw h

  Decided-bind_sensor : Decided Desc.bind_sensor (handle_bind_sensor fw)
  unfolding dispatch invoke_one
  Decided-bind_sensor size e e' s s' true h = rw h
  Decided-bind_sensor size e e' s s' false h = rw h

  Decided-subscribe_sensor : Decided Desc.subscribe_sensor (handle_subscribe_sensor fw)
  unfolding dispatch invoke_one
  Decided-subscribe_sensor size e e' s s' true h = rw h
  Decided-subscribe_sensor size e e' s s' false h = rw h

  Decided-config_report : Decided Desc.config_report (handle_config_report fw)
  unfolding dispatch invoke_one
  Decided-config_report size e e' s s' true h = rw h
  Decided-config_report size e e' s s' false h = rw h

  Decided-read_temp : Decided Desc.read_temp (handle_read_temp fw)
  unfolding dispatch invoke_one
  Decided-read_temp size e e' s s' true h = rw h
  Decided-read_temp size e e' s s' false h = rw h

  Decided-get_last_temp : Decided Desc.get_last_temp (handle_get_last_temp fw)
  unfolding dispatch invoke_one
  Decided-get_last_temp size e e' s s' true h = rw h
  Decided-get_last_temp size e e' s s' false h = rw h

  Decided-get_sensor_addr : Decided Desc.get_sensor_addr (handle_get_sensor_addr fw)
  unfolding dispatch invoke_one
  Decided-get_sensor_addr size e e' s s' true h = rw h
  Decided-get_sensor_addr size e e' s s' false h = rw h

  pub Route-get_short_addr : Route Desc.get_short_addr (handle_get_short_addr fw)
  Route-get_short_addr =
      Route-of Desc.get_short_addr (handle_get_short_addr fw) refl Decided-get_short_addr

  pub Route-get_panid : Route Desc.get_panid (handle_get_panid fw)
  Route-get_panid = Route-of Desc.get_panid (handle_get_panid fw) refl Decided-get_panid

  pub Route-get_channel : Route Desc.get_channel (handle_get_channel fw)
  Route-get_channel = Route-of Desc.get_channel (handle_get_channel fw) refl Decided-get_channel

  pub Route-open_network : Route Desc.open_network (handle_open_network fw)
  Route-open_network = Route-of Desc.open_network (handle_open_network fw) refl Decided-open_network

  pub Route-wait_annce : Route Desc.wait_annce (handle_wait_annce fw)
  Route-wait_annce = Route-of Desc.wait_annce (handle_wait_annce fw) refl Decided-wait_annce

  pub Route-find_sensor : Route Desc.find_sensor (handle_find_sensor fw)
  Route-find_sensor = Route-of Desc.find_sensor (handle_find_sensor fw) refl Decided-find_sensor

  pub Route-read_basic : Route Desc.read_basic (handle_read_basic fw)
  Route-read_basic = Route-of Desc.read_basic (handle_read_basic fw) refl Decided-read_basic

  pub Route-bind_sensor : Route Desc.bind_sensor (handle_bind_sensor fw)
  Route-bind_sensor = Route-of Desc.bind_sensor (handle_bind_sensor fw) refl Decided-bind_sensor

  pub Route-subscribe_sensor : Route Desc.subscribe_sensor (handle_subscribe_sensor fw)
  Route-subscribe_sensor =
      Route-of Desc.subscribe_sensor (handle_subscribe_sensor fw) refl Decided-subscribe_sensor

  pub Route-config_report : Route Desc.config_report (handle_config_report fw)
  Route-config_report =
      Route-of Desc.config_report (handle_config_report fw) refl Decided-config_report

  pub Route-read_temp : Route Desc.read_temp (handle_read_temp fw)
  Route-read_temp = Route-of Desc.read_temp (handle_read_temp fw) refl Decided-read_temp

  pub Route-get_last_temp : Route Desc.get_last_temp (handle_get_last_temp fw)
  Route-get_last_temp =
      Route-of Desc.get_last_temp (handle_get_last_temp fw) refl Decided-get_last_temp

  pub Route-get_sensor_addr : Route Desc.get_sensor_addr (handle_get_sensor_addr fw)
  Route-get_sensor_addr =
      Route-of Desc.get_sensor_addr (handle_get_sensor_addr fw) refl Decided-get_sensor_addr
