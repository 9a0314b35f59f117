-- ===== src/Tests/Devices.antt =====
-- The simulated coordinator and the firmware's Zigbee layer on concrete inputs.
use zigbee_remote.Prelude.{
  ℕ, ◌<◌, ◌≡◌, none, refl, true, some, List, [], ◌∷◌, ◌++◌, ◌-◌, arith, map, length, replicate,
}
use zigbee_remote.Prelude.Int.{pos, negsuc, is_zero}
use zigbee_remote.Protocol.Endian.{to_le16, to_le32, from_le16_s}
use zigbee_remote.Protocol.ApiId
use zigbee_remote.Engine.Send.{message}
use zigbee_remote.Protocol.Payloads.{ZbAddr, empty_req}
use zigbee_remote.Engine.Rpc.{dispatch}
use zigbee_remote.Simulator.{at_boot}
use zigbee_remote.Simulator.Serve.{sim, dispatch_ns}
use zigbee_remote.Simulator.Namespace.{entry, dispatch_ns-dispatch}
use zigbee_remote.Simulator.Program.{HostAnswers, main}
use zigbee_remote.Simulator.Program.Ends.{Ends, main-Ends}
use zigbee_remote.Stack.{Sdk, Stack, MatchRsp, Variable, started, match_item, copy_zcl_string}
use zigbee_remote.Stack.Events.{Event, match_result, report_attr}
use zigbee_remote.Stack.Calls.{stack_find_sensor}
use zigbee_remote.Stack.Temps.{temps_said, last_said}
use zigbee_remote.Stack.Match.{remembered, find_sensor_answer, find_sensor_empty}
use zigbee_remote.Stack.Invariant.{copy_zcl_string_lem}
use zigbee_remote.Tests.Fixture.{engine_of, fd_of}

abbrev addressed : ZbAddr
addressed = record { err = to_le32 0; short_addr = to_le16 0x1956; ep = 10 }

dispatch_ns-dispatch_example :
    dispatch_ns sim (record { id = 3; size = 0 }) (engine_of []) at_boot
    ≡ dispatch (map (entry (record { id = 3; size = 0 })) sim) (engine_of []) at_boot
dispatch_ns-dispatch_example =
    dispatch_ns-dispatch sim (record { id = 3; size = 0 }) (engine_of []) at_boot

abbrev sdk : Sdk
sdk = record {
  err_none = pos 0;
  zdp_success = 0;
  zcl_success = 0;
  cluster_basic = 0;
  cluster_temp = 0x402;
  attr_manufacturer = 4;
  attr_model = 5;
  attr_measured = 0;
  attr_min_measured = 1;
  attr_max_measured = 2;
  attr_tolerance = 3;
}

abbrev one_match : MatchRsp
one_match = record { status = 0; nwk_addr_of_interest = 0x1956; match_list = 10 ∷ [] }

abbrev no_match : MatchRsp
no_match = record { status = 0; nwk_addr_of_interest = 0x1956; match_list = [] }

-- A sensor is cached.
abbrev cached : Stack
cached = record started { s_last_sensor_addr = 0x4F2A }

-- -1.00 degrees, then a minimum that could not be read, the maximum and a second measured value.
abbrev temps : List Variable
temps =
    record { status = 0; attr_id = 0; attr_value = some (0x9C ∷ 0xFF ∷ []) }
    ∷ record { status = 0x86; attr_id = 1; attr_value = some (1 ∷ 0 ∷ []) }
    ∷ record { status = 0; attr_id = 2; attr_value = some (0x10 ∷ 0x27 ∷ []) }
    ∷ record { status = 0; attr_id = 0; attr_value = some (0x38 ∷ 0xFF ∷ []) }
    ∷ []

-- A report that comes behind the answer.
abbrev reported : List Event
reported =
    report_attr (some (record { cluster_id = 0x402; src_short_addr = none; variables = [] })) ∷ []

temps_said_values : temps_said sdk 0 temps ≡ record {
  err = pos 0;
  measured = negsuc 199;
  min_measured = pos 0;
  max_measured = pos 10000;
  tolerance = pos 0;
}
unfolding last_said from_le16_s
temps_said_values = refl

find_sensor_answer_example :
    stack_find_sensor sdk (pos 0) (match_result (some (pos 0, some one_match)) ∷ []) cached ≡ (
      match_item sdk (some (pos 0, some one_match)),
      [],
      record cached {
        s_match_q = [];
        s_last_sensor_addr =
            remembered (match_item sdk (some (pos 0, some one_match))) cached.s_last_sensor_addr;
      },
    )
find_sensor_answer_example = find_sensor_answer sdk (some (pos 0, some one_match)) [] cached

find_sensor_empty_example :
    (is_zero
        (stack_find_sensor sdk
          (pos 0)
          (match_result (some (pos 0, some no_match)) ∷ [])
          cached).0.err
      ≡ true)
    × ((stack_find_sensor sdk
          (pos 0)
          (match_result (some (pos 0, some no_match)) ∷ [])
          cached).2.s_last_sensor_addr
        ≡ 0)
find_sensor_empty_example = find_sensor_empty sdk no_match [] cached refl refl

-- A string that claims 200 bytes.
abbrev long_string : List ℕ
long_string = 200 ∷ replicate 200 65

copy_zcl_string_lem_example :
    (text : List ℕ) × (length text < 16)
    × (copy_zcl_string 16 (some long_string) ≡ text ++ replicate (16 - length text) 0)
copy_zcl_string_lem_example = copy_zcl_string_lem 16 (some long_string) (omega arith)

-- A client that sends a request and leaves.
abbrev answers : HostAnswers
answers = record {
  made = some 3;
  valid_host = true;
  bound = true;
  listening = true;
  client = some (4, fd_of (message empty_req ApiId.get_channel (record {})));
}

main-Ends_example : Ends sim answers (7 ∷ []) (main sim answers (7 ∷ []) at_boot)
main-Ends_example = main-Ends sim answers (7 ∷ []) at_boot
