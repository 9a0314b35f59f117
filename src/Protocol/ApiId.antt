-- ===== src/Protocol/ApiId.antt =====
-- `enum class api_id : uint32_t`. Its values are all of uint32_t, since `receive_header` casts
-- whatever number arrives; the enumerators are constants.
use zigbee_remote.Prelude.{ℕ}

abbrev pub ApiId : Type 0
ApiId = ℕ

abbrev pub error : ApiId
error = 0

abbrev pub get_short_addr : ApiId
get_short_addr = 1

abbrev pub get_panid : ApiId
get_panid = 2

abbrev pub get_channel : ApiId
get_channel = 3

abbrev pub open_network : ApiId
open_network = 4

abbrev pub wait_annce : ApiId
wait_annce = 5

abbrev pub find_sensor : ApiId
find_sensor = 6

abbrev pub read_basic : ApiId
read_basic = 7

abbrev pub bind_sensor : ApiId
bind_sensor = 8

abbrev pub subscribe_sensor : ApiId
subscribe_sensor = 9

abbrev pub config_report : ApiId
config_report = 10

abbrev pub read_temp : ApiId
read_temp = 11

abbrev pub get_last_temp : ApiId
get_last_temp = 12

abbrev pub get_sensor_addr : ApiId
get_sensor_addr = 13
