-- ===== src/Stack/Events.antt =====
-- The callbacks of zb_rpc_server/main/zigbee_stack.c for whole messages, and the event that each of
-- them is.
use zigbee_remote.Prelude.{ℕ, true, Option, none, some, List, [], ◌∷◌, ◌==◌, if◌then◌else◌}
use zigbee_remote.Prelude.Int.{ℤ, pos, negsuc}
use zigbee_remote.Zigbee.{ZigbeeBasic}
use zigbee_remote.Stack.{
  Sdk, Stack, Variable, MatchRsp, no_names, no_temps, int16_of, queue_send, basic_variable,
  temp_variable, zdo_match_result, zdo_bind_result,
}

-- `ezb_zcl_cmd_read_attr_rsp_message_t`
pub record ReadAttrRsp : Type 0 where
  pub cluster_id : ℕ
  pub status : ℕ
  pub variables : List Variable

-- `ezb_zcl_cmd_report_attr_message_t`; the source address if it is a short one.
pub record ReportAttr : Type 0 where
  pub cluster_id : ℕ
  pub src_short_addr : Option ℕ
  pub variables : List Variable

module _ (sdk : Sdk) where
  unfoldable pub basic_variables : List Variable → ZigbeeBasic → ZigbeeBasic
  basic_variables [] cache = cache
  basic_variables (var ∷ vars) cache = basic_variables vars (basic_variable sdk var cache)

  unfoldable pub temp_variables : List Variable → Stack → Stack
  temp_variables [] s = s
  temp_variables (var ∷ vars) s = temp_variables vars (temp_variable sdk var s)

  abbrev pub status_err : ℕ → ℤ
  status_err status = if status == sdk.zcl_success then pos 0 else negsuc 0

  unfoldable pub zcl_read_attr_rsp : Option ReadAttrRsp → Stack → Stack
  unfolding basic_variables temp_variables
  zcl_read_attr_rsp none s = s
  zcl_read_attr_rsp (some message) s =
      let basic =
        basic_variables message.variables (record no_names { err = status_err message.status }) in
      let temp =
        temp_variables message.variables
          (record s { s_temp_cache = record no_temps { err = status_err message.status } }) in
      if message.cluster_id == sdk.cluster_basic
      then record s { s_basic_cache = basic; s_basic_done = true }
      else if message.cluster_id == sdk.cluster_temp
      then record temp { s_temp_done = true }
      else s

  unfoldable pub report_variables : List Variable → Stack → Stack
  report_variables [] s = s
  report_variables (var ∷ vars) s = report_variables vars (
      if var.attr_id == sdk.attr_measured
      then record s { s_last_temp = int16_of var.attr_value }
      else s)

  unfoldable pub zcl_report_attr : Option ReportAttr → Stack → Stack
  unfolding report_variables
  zcl_report_attr none s = s
  zcl_report_attr (some message) s =
      let sourced : Stack = elim message.src_short_addr [
        | none ↦ s
        | some short_addr ↦ record s { s_last_sensor_addr = short_addr }
      ] in
      if message.cluster_id == sdk.cluster_temp
      then report_variables message.variables sourced
      else s

  -- Of the message only the status is read.
  unfoldable pub zcl_config_report_rsp : Option ℕ → Stack → Stack
  zcl_config_report_rsp none s = record s { s_report_err = negsuc 0; s_report_done = true }
  zcl_config_report_rsp (some status) s = record s {
    s_report_err = status_err status;
    s_report_done = true;
  }

  -- The announcement of `zigbee_app_signal_handler`: four fit into the queue.
  unfoldable pub device_annce : ℕ → Stack → Stack
  device_annce short_addr s = record s { s_annce_q = queue_send 4 s.s_annce_q short_addr }

-- One callback of the SDK.
pub data Event : Type 0 where
  annce : ℕ → Event
  match_result : Option (ℤ × Option MatchRsp) → Event
  bind_result : Option (ℤ × Option ℕ) → Event
  read_attr_rsp : Option ReadAttrRsp → Event
  report_attr : Option ReportAttr → Event
  config_report_rsp : Option ℕ → Event

module _ (sdk : Sdk) where
  unfoldable pub handle : Event → Stack → Stack
  unfolding device_annce zcl_read_attr_rsp zcl_report_attr zcl_config_report_rsp
  handle (annce short_addr) s = device_annce sdk short_addr s
  handle (match_result result) s = zdo_match_result sdk result s
  handle (bind_result result) s = zdo_bind_result sdk result s
  handle (read_attr_rsp message) s = zcl_read_attr_rsp sdk message s
  handle (report_attr message) s = zcl_report_attr sdk message s
  handle (config_report_rsp status) s = zcl_config_report_rsp sdk status s
