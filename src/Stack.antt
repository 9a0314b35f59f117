-- ===== src/Stack.antt =====
-- The firmware's Zigbee layer, zb_rpc_server/main/zigbee_stack.c: its queues, semaphores and caches,
-- the callbacks that fill them and the API functions that wait for them. The radio is input: what a
-- request function of the SDK returns, and the callbacks that come in while a function waits. The
-- lock, logging, the device's description and the BDB signals other than an announcement change none
-- of these variables.
pub mod Events
pub mod Calls
pub mod Requests
pub mod Invariant
pub mod Match
pub mod Temps
use zigbee_remote.Prelude.{
  ℕ, ◌-◌, ◌≤◌, Bool, true, false, not, ◌&&◌, Option, none, some, List, [], ◌∷◌, ◌++◌, ltb, leb,
  ◌==◌, if◌then◌else◌, length, take, drop, replicate, get_or,
}
use zigbee_remote.Prelude.Int.{ℤ, pos, negsuc}
use zigbee_remote.Protocol.Endian.{from_le16_s}
use zigbee_remote.Protocol.Payloads.{le16_at}
use zigbee_remote.Zigbee.{ZigbeeAddr, ZigbeeBasic, ZigbeeTemp}

-- The constants of the SDK that the code compares with.
pub record Sdk : Type 0 where
  pub err_none : ℤ
  pub zdp_success : ℕ
  pub zcl_success : ℕ
  pub cluster_basic : ℕ
  pub cluster_temp : ℕ
  pub attr_manufacturer : ℕ
  pub attr_model : ℕ
  pub attr_measured : ℕ
  pub attr_min_measured : ℕ
  pub attr_max_measured : ℕ
  pub attr_tolerance : ℕ

-- The queues with their items in order, and the binary semaphores.
pub record Stack : Type 0 where
  pub s_annce_q : List ℕ
  pub s_match_q : List ZigbeeAddr
  pub s_basic_done : Bool
  pub s_temp_done : Bool
  pub s_bind_done : Bool
  pub s_report_done : Bool
  pub s_basic_cache : ZigbeeBasic
  pub s_temp_cache : ZigbeeTemp
  pub s_last_temp : ℤ
  pub s_last_sensor_addr : ℕ
  pub s_bind_err : ℤ
  pub s_report_err : ℤ

abbrev pub no_names : ZigbeeBasic
no_names = record { err = pos 0; manufacturer = replicate 16 0; model = replicate 16 0 }

abbrev pub no_temps : ZigbeeTemp
no_temps = record {
  err = pos 0;
  measured = pos 0;
  min_measured = pos 0;
  max_measured = pos 0;
  tolerance = pos 0;
}

-- `zigbee_stack_start`, with its queues and semaphores made.
abbrev pub started : Stack
started = record {
  s_annce_q = [];
  s_match_q = [];
  s_basic_done = false;
  s_temp_done = false;
  s_bind_done = false;
  s_report_done = false;
  s_basic_cache = no_names;
  s_temp_cache = no_temps;
  s_last_temp = pos 0;
  s_last_sensor_addr = 0;
  s_bind_err = pos 0;
  s_report_err = pos 0;
}

module _ {A : Type 0} where
  -- `xQueueSend` without a timeout: a full queue drops the item.
  unfoldable pub queue_send : (capacity : ℕ) → List A → A → List A
  queue_send capacity q item = if ltb (length q) capacity then q ++ (item ∷ []) else q

-- `zcl` is null or its bytes, the length first; what the bytes lack stays zero.
unfoldable pub copy_zcl_string : (dst_size : ℕ) → Option (List ℕ) → List ℕ
copy_zcl_string dst_size none = replicate dst_size 0
copy_zcl_string dst_size (some zcl) =
    if dst_size == 0
    then []
    else let claimed = get_or zcl 0 0 in
      let count = if leb dst_size claimed then dst_size - 1 else claimed in
      let copied = take count (drop 1 zcl) in copied ++ replicate (dst_size - length copied) 0

-- Of a match response: its status, its address and its list of endpoints.
pub record MatchRsp : Type 0 where
  pub status : ℕ
  pub nwk_addr_of_interest : ℕ
  pub match_list : List ℕ

-- An attribute in a response or a report.
pub record Variable : Type 0 where
  pub status : ℕ
  pub attr_id : ℕ
  pub attr_value : Option (List ℕ)

-- `*(int16_t *)attr_value`; the SDK gives such an attribute its two bytes.
abbrev pub int16_of : Option (List ℕ) → ℤ
int16_of none = pos 0
int16_of (some bytes) = from_le16_s (le16_at 0 bytes)

abbrev pub same_int : ℤ → ℤ → Bool
same_int (pos a) (pos b) = a == b
same_int (pos a) (negsuc b) = false
same_int (negsuc a) (pos b) = false
same_int (negsuc a) (negsuc b) = a == b

module _ (sdk : Sdk) where
  abbrev pub match_success : ℤ → Option MatchRsp → Option ZigbeeAddr
  match_success error none = none
  match_success error (some rsp) =
      if same_int error sdk.err_none && (rsp.status == sdk.zdp_success)
      then elim rsp.match_list [
        | [] ↦ none
        | ep ∷ eps ↦ some (record { err = pos 0; short_addr = rsp.nwk_addr_of_interest; ep = ep })
      ]
      else none

  -- The item that `zdo_match_result` sends. `none` is a null result.
  unfoldable pub match_item : Option (ℤ × Option MatchRsp) → ZigbeeAddr
  match_item none = record { err = negsuc 0; short_addr = 0; ep = 0 }
  match_item (some (error, rsp)) = elim (match_success error rsp) [
    | none ↦ record { err = error; short_addr = 0; ep = 0 }
    | some out ↦ out
  ]

  unfoldable pub zdo_match_result : Option (ℤ × Option MatchRsp) → Stack → Stack
  unfolding match_item queue_send
  zdo_match_result result s = record s { s_match_q = queue_send 1 s.s_match_q (match_item result) }

  -- Of a bind response only the status is read. A result without an error has one: the source reads
  -- it without a check.
  unfoldable pub bind_err : Option (ℤ × Option ℕ) → ℤ
  bind_err none = negsuc 0
  bind_err (some (error, none)) = error
  bind_err (some (error, some status)) =
      if same_int error sdk.err_none
      then if status == sdk.zdp_success then pos 0 else pos status
      else error

  unfoldable pub zdo_bind_result : Option (ℤ × Option ℕ) → Stack → Stack
  unfolding bind_err
  zdo_bind_result result s = record s { s_bind_err = bind_err result; s_bind_done = true }

  unfoldable pub basic_variable : Variable → ZigbeeBasic → ZigbeeBasic
  unfolding copy_zcl_string
  basic_variable var cache =
      if not (var.status == sdk.zcl_success)
      then cache
      else if var.attr_id == sdk.attr_manufacturer
      then record cache { manufacturer = copy_zcl_string 16 var.attr_value }
      else if var.attr_id == sdk.attr_model
      then record cache { model = copy_zcl_string 16 var.attr_value }
      else cache

  unfoldable pub temp_variable : Variable → Stack → Stack
  temp_variable var s =
      let value = int16_of var.attr_value in
      let cache = s.s_temp_cache in
      if not (var.status == sdk.zcl_success)
      then s
      else if var.attr_id == sdk.attr_measured
      then record s { s_temp_cache = record cache { measured = value }; s_last_temp = value }
      else if var.attr_id == sdk.attr_min_measured
      then record s { s_temp_cache = record cache { min_measured = value } }
      else if var.attr_id == sdk.attr_max_measured
      then record s { s_temp_cache = record cache { max_measured = value } }
      else if var.attr_id == sdk.attr_tolerance
      then record s { s_temp_cache = record cache { tolerance = value } }
      else s
