-- ===== src/Stack/Requests.antt =====
-- The requests that the API functions of zb_rpc_server/main/zigbee_stack.c make of the SDK, and the
-- functions with them. Memory for a bind request is taken to be there.
use zigbee_remote.Prelude.{ℕ, Bool, true, false, Option, none, some, List, [], ◌∷◌}
use zigbee_remote.Prelude.Int.{ℤ, negsuc}
use zigbee_remote.Zigbee.{ZigbeeAddr, ZigbeeBasic, ZigbeeTemp}
use zigbee_remote.Stack.{Sdk, Stack}
use zigbee_remote.Stack.Events.{Event}
use zigbee_remote.Stack.Calls.{
  stack_find_sensor, stack_read_basic, zigbee_bind_common, stack_config_report, stack_read_temp,
}

-- `ESP_ZIGBEE_HA_THERMOSTAT_EP_ID`
abbrev pub thermostat_ep_id : ℕ
thermostat_ep_id = 1

-- `ezb_zdo_bind_req_t`; the addresses in `src_addr` and `dst_addr` are extended ones.
pub record BindReq : Type 0 where
  pub dst_nwk_addr : ℕ
  pub src_addr : ℕ
  pub src_ep : ℕ
  pub dst_addr : ℕ
  pub dst_ep : ℕ
  pub cluster_id : ℕ

-- `ezb_zcl_read_attr_cmd_t`
pub record ReadAttrCmd : Type 0 where
  pub short_addr : ℕ
  pub dst_ep : ℕ
  pub cluster_id : ℕ
  pub attr_field : List ℕ

-- What the SDK knows of the network, and what its request functions return.
pub record Radio : Type 0 where
  pub short_address : ℕ
  pub extended_address : ℕ
  pub extended_by_short : ℕ → Option ℕ
  pub match_desc_req : ℕ → ℤ
  pub read_attr_cmd_req : ReadAttrCmd → ℤ
  pub bind_req : BindReq → ℤ
  pub config_report_cmd_req : ℤ

module _ (sdk : Sdk) (radio : Radio) where
  -- The request of `zigbee_bind_common`; `none` if the sensor's extended address is not known.
  unfoldable pub bind_request : (remote_short remote_ep : ℕ) (to_local : Bool) → Option BindReq
  bind_request remote_short remote_ep to_local = elim (radio.extended_by_short remote_short) [
    | none ↦ none
    | some remote ↦ some (elim to_local [
      | true ↦ record {
        dst_nwk_addr = radio.short_address;
        src_addr = radio.extended_address;
        src_ep = thermostat_ep_id;
        dst_addr = remote;
        dst_ep = remote_ep;
        cluster_id = sdk.cluster_temp;
      }
      | false ↦ record {
        dst_nwk_addr = remote_short;
        src_addr = remote;
        src_ep = remote_ep;
        dst_addr = radio.extended_address;
        dst_ep = thermostat_ep_id;
        cluster_id = sdk.cluster_temp;
      }
    ])
  ]

  unfoldable pub request_bind :
      (remote_short remote_ep : ℕ) (to_local : Bool) → List Event → Stack → ℤ × List Event × Stack
  unfolding bind_request zigbee_bind_common
  request_bind remote_short remote_ep to_local events s =
      elim (bind_request remote_short remote_ep to_local) [
        | none ↦ zigbee_bind_common sdk false (negsuc 0) events s
        | some request ↦ zigbee_bind_common sdk true (radio.bind_req request) events s
      ]

  unfoldable pub request_bind_sensor :
      (short_addr ep : ℕ) → List Event → Stack → ℤ × List Event × Stack
  unfolding request_bind
  request_bind_sensor short_addr ep = request_bind short_addr ep true

  unfoldable pub request_subscribe_sensor :
      (short_addr ep : ℕ) → List Event → Stack → ℤ × List Event × Stack
  unfolding request_bind
  request_subscribe_sensor short_addr ep = request_bind short_addr ep false

  unfoldable pub request_find_sensor :
      (short_addr : ℕ) → List Event → Stack → ZigbeeAddr × List Event × Stack
  unfolding stack_find_sensor
  request_find_sensor short_addr = stack_find_sensor sdk (radio.match_desc_req short_addr)

  unfoldable pub request_read_basic :
      (short_addr ep : ℕ) → List Event → Stack → ZigbeeBasic × List Event × Stack
  unfolding stack_read_basic
  request_read_basic short_addr ep = stack_read_basic sdk (
      radio.read_attr_cmd_req (record {
        short_addr = short_addr;
        dst_ep = ep;
        cluster_id = sdk.cluster_basic;
        attr_field = sdk.attr_manufacturer ∷ sdk.attr_model ∷ [];
      }))

  -- The sensor's address is not used: the command goes to the bound device.
  unfoldable pub request_config_report :
      (short_addr ep : ℕ) → List Event → Stack → ℤ × List Event × Stack
  unfolding stack_config_report
  request_config_report short_addr ep = stack_config_report sdk radio.config_report_cmd_req

  unfoldable pub request_read_temp :
      (short_addr ep : ℕ) → List Event → Stack → ZigbeeTemp × List Event × Stack
  unfolding stack_read_temp
  request_read_temp short_addr ep = stack_read_temp sdk (
      radio.read_attr_cmd_req (record {
        short_addr = short_addr;
        dst_ep = ep;
        cluster_id = sdk.cluster_temp;
        attr_field =
            sdk.attr_measured ∷ sdk.attr_min_measured ∷ sdk.attr_max_measured ∷ sdk.attr_tolerance
            ∷ [];
      }))
