-- ===== src/Desktop.antt =====
-- The desktop client: zb_rpc/src/client.cpp over the wrappers of zb_rpc/include/zb_rpc/catalog.hpp, with
-- `rpc_connect` of zb_rpc/include/zb_rpc/sock.hpp. Log lines without a value, the options and the
-- default address are left out, and a temperature is in hundredths of a degree.
pub mod Same
pub mod Link
pub mod Closed
use zigbee_remote.Prelude.{
  ℕ, zero, suc, Bool, true, false, not, Option, none, some, List, [], ◌∷◌, ◌++◌, if◌then◌else◌,
}
use zigbee_remote.Prelude.Int.{ℤ, is_zero}
use zigbee_remote.Fd.{Fd}
use zigbee_remote.Protocol.Codes.{ErrorCode}
use zigbee_remote.Protocol.Endian.{to_le16, from_le16, from_le16_s, from_le32_s}
use zigbee_remote.Protocol.Payloads.{
  U8Resp, U16Resp, I16Resp, I32Resp, OpenNetworkReq, FindSensorReq, ZbAddr, ZbBasic, ZbTemp,
}
use zigbee_remote.Protocol.Desc
use zigbee_remote.Engine.{Engine}
use zigbee_remote.Engine.Rpc.{call, call_empty}
use zigbee_remote.Main.Connect.{close_socket}

-- `namespace api`, where a wrapper that returns false gives `none`, and `::close` of the descriptor.
pub record DesktopApi (S : Type 0) : Type 0 where
  pub get_short_addr : S → Option U16Resp × S
  pub get_panid : S → Option U16Resp × S
  pub get_channel : S → Option U8Resp × S
  pub open_network : OpenNetworkReq → S → Option I32Resp × S
  pub wait_annce : S → Option U16Resp × S
  pub find_sensor : FindSensorReq → S → Option ZbAddr × S
  pub read_basic : ZbAddr → S → Option ZbBasic × S
  pub bind_sensor : ZbAddr → S → Option I32Resp × S
  pub subscribe_sensor : ZbAddr → S → Option I32Resp × S
  pub config_report : ZbAddr → S → Option I32Resp × S
  pub read_temp : ZbAddr → S → Option ZbTemp × S
  pub get_last_temp : S → Option I16Resp × S
  pub close : S → S

-- The engine over the descriptor, with the open descriptors.
abbrev pub Socket : Type 0
Socket = Engine × List ℕ

abbrev pub over_engine : {A : Type 0} → (Engine → A × Engine) → Socket → A × Socket
over_engine function (e, fds) = let (a, e') = function e in (a, (e', fds))

abbrev pub engine_api : (fd : ℕ) → DesktopApi Socket
engine_api fd = record {
  get_short_addr = over_engine (call_empty Desc.get_short_addr);
  get_panid = over_engine (call_empty Desc.get_panid);
  get_channel = over_engine (call_empty Desc.get_channel);
  open_network = λ r. over_engine (call Desc.open_network r);
  wait_annce = over_engine (call_empty Desc.wait_annce);
  find_sensor = λ r. over_engine (call Desc.find_sensor r);
  read_basic = λ r. over_engine (call Desc.read_basic r);
  bind_sensor = λ r. over_engine (call Desc.bind_sensor r);
  subscribe_sensor = λ r. over_engine (call Desc.subscribe_sensor r);
  config_report = λ r. over_engine (call Desc.config_report r);
  read_temp = λ r. over_engine (call Desc.read_temp r);
  get_last_temp = over_engine (call_empty Desc.get_last_temp);
  close = λ s. (s.0, close_socket fd s.1);
}

-- The lines of the log that show a value, in the order of the source.
pub data Line : Type 0 where
  open_failed no_sensor : Line
  network joined looking : ℕ → Line
  reading binding subscribing bound subscribed : ℕ → ℕ → Line
  model manufacturer : List ℕ → Line
  measured : ℤ → Line
  attributes : ℤ → ℤ → ℤ → Line

-- The exit status and the log.
abbrev pub Report : Type 0
Report = ℕ × List Line

module _ {S : Type 0} where
  -- A call, what follows if it fails, and what follows with its result.
  unfoldable pub attempt : {A B : Type 0} → Option A × S → (S → B × S) → (A → S → B × S) → B × S
  attempt (none, s) stop next = stop s
  attempt (some a, s) stop next = next a s

  unfoldable pub after : {A B : Type 0} → A × S → (A → S → B × S) → B × S
  after (a, s) next = next a s

  unfoldable pub say : List Line → Report × S → Report × S
  say lines ((status, rest), s) = ((status, lines ++ rest), s)

  unfoldable pub note : Line → List Line × S → List Line × S
  note line (lines, s) = (line ∷ lines, s)

module _ {S : Type 0} (api : DesktopApi S) where
  -- `::close(fd); return status;`, with the lines that are logged before.
  unfoldable pub leave : (status : ℕ) → List Line → S → Report × S
  leave status lines s = ((status, lines), api.close s)

  -- `for (int i = 0; i < 5; ++i)`, with the `break`.
  unfoldable pub read_temps : ℕ → S → List Line × S
  read_temps zero s = ([], s)
  read_temps (suc n) s =
      attempt (api.get_last_temp s) (λ s'. ([], s'))
        (λ r s'. note (measured (from_le16_s r.value)) (read_temps n s'))

  unfoldable pub read_attrs : ZbAddr → S → Report × S
  unfolding leave
  read_attrs sensor s = attempt (api.read_temp sensor s) (leave 1 []) (λ t s'.
      leave 0
        (attributes (from_le16_s t.measured) (from_le16_s t.min_measured)
            (from_le16_s t.max_measured)
          ∷ [])
        s')

  -- The statuses of the three commands are not looked at.
  unfoldable pub subscribe : (short_addr panid : ℕ) → ZbAddr → S → Report × S
  unfolding read_temps read_attrs
  subscribe short_addr panid sensor s =
      let address = from_le16 sensor.short_addr in
      after (api.bind_sensor sensor s) (λ _ s1. say (subscribing address sensor.ep ∷ []) (
        after (api.subscribe_sensor sensor s1) (λ _ s2. say (bound short_addr sensor.ep ∷ []) (
          after (api.config_report sensor s2) (λ _ s3.
            say (network panid ∷ subscribed address sensor.ep ∷ [])
              (after (read_temps 5 s3) (λ temps s4. say temps (read_attrs sensor s4))))))))

  unfoldable pub inspect : (short_addr panid : ℕ) → ZbAddr → S → Report × S
  unfolding subscribe
  inspect short_addr panid sensor s = attempt (api.read_basic sensor s) (leave 1 []) (λ basic s'.
      say
        (model basic.model
          ∷ manufacturer basic.manufacturer
          ∷ binding (from_le16 sensor.short_addr) sensor.ep
          ∷ [])
        (subscribe short_addr panid sensor s'))

  unfoldable pub find : (short_addr panid peer : ℕ) → S → Report × S
  unfolding inspect
  find short_addr panid peer s =
      attempt (api.find_sensor (record { short_addr = to_le16 peer }) s) (leave 1 (no_sensor ∷ []))
        (λ sensor s'.
          if is_zero (from_le32_s sensor.err)
          then say (reading (from_le16 sensor.short_addr) sensor.ep ∷ [])
              (inspect short_addr panid sensor s')
          else leave 1 (no_sensor ∷ []) s')

  unfoldable pub join : (short_addr panid : ℕ) → S → Report × S
  unfolding find
  join short_addr panid s = attempt (api.wait_annce s) (leave 1 []) (λ r s'.
      say (joined (from_le16 r.value) ∷ looking (from_le16 r.value) ∷ [])
        (find short_addr panid (from_le16 r.value) s'))

  unfoldable pub commission : (short_addr panid : ℕ) → S → Report × S
  unfolding join
  commission short_addr panid s =
      attempt (api.open_network (record { duration = 180 }) s) (leave 1 (open_failed ∷ [])) (λ r s'.
        if is_zero (from_le32_s r.value)
        then say (network panid ∷ []) (join short_addr panid s')
        else leave 1 (open_failed ∷ []) s')

  -- `main` from the first call to the last.
  unfoldable pub session : S → Report × S
  unfolding commission
  session s = attempt (api.get_short_addr s) (leave 1 []) (λ short_addr s1.
      attempt (api.get_panid s1) (leave 1 []) (λ panid s2.
        attempt (api.get_channel s2) (leave 1 [])
          (λ _ s3. commission (from_le16 short_addr.value) (from_le16 panid.value) s3)))

-- How the calls of `rpc_connect` go.
pub record ConnectAnswers : Type 0 where
  pub made : Option ℕ
  pub valid_host : Bool
  pub connected : Option Fd

-- `rpc_connect` on the new socket; the list has the open descriptors.
unfoldable pub connect_on : ConnectAnswers → ℕ → List ℕ → Option (ℕ × Fd) × List ℕ
unfolding close_socket
connect_on a fd fds =
    if not a.valid_host then (none, close_socket fd (fd ∷ fds)) else elim a.connected [
      | none ↦ (none, close_socket fd (fd ∷ fds))
      | some held ↦ (some (fd, held), fd ∷ fds)
    ]

unfoldable pub rpc_connect : ConnectAnswers → List ℕ → Option (ℕ × Fd) × List ℕ
unfolding connect_on
rpc_connect a fds = elim a.made [ none ↦ (none, fds) | some fd ↦ connect_on a fd fds ]

abbrev pub over_socket : Option (ℕ × Fd) × List ℕ → Report × List ℕ
over_socket (none, fds) = ((1, []), fds)
over_socket (some (fd, held), fds) =
    let start : Engine = record { fd = held; last_error = ErrorCode.none } in
    let (report, s) = session (engine_api fd) (start, fds) in (report, s.1)

-- The report, and the descriptors that are open at the end.
unfoldable pub main : ConnectAnswers → List ℕ → Report × List ℕ
unfolding rpc_connect
main a fds = over_socket (rpc_connect a fds)
