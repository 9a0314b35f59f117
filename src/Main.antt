-- ===== src/Main.antt =====
-- The part of `main` in zb_rpc_client/main.cpp behind the PPP link: one or two connections to the
-- server, and a run of the commissioning sequence over each. What `connect_rpc` answers, and
-- whether a signal has asked to stop, is input.
pub mod Ends
pub mod Connect
pub mod Options
use zigbee_remote.Prelude.{ℕ, Bool, true, false, not, ◌&&◌, Option, none, some, if◌then◌else◌}
use zigbee_remote.Prelude.Int.{pos}
use zigbee_remote.Fd.{Fd}
use zigbee_remote.Client.{Client, attach, detach, rpc_api}
use zigbee_remote.Thermostat.{Result, success, failure, retry_without_cache, run}

-- A descriptor and what the kernel holds for it; `none` where `connect_rpc` returns -1.
abbrev pub Connection : Type 0
Connection = Option (ℕ × Fd)

abbrev pub is_success : Result → Bool
is_success success = true
is_success failure = false
is_success retry_without_cache = false

abbrev pub is_retry : Result → Bool
is_retry success = false
is_retry failure = false
is_retry retry_without_cache = true

abbrev pub attached_to : ℕ → Fd → Client → Client
attached_to socket_fd fd c = (attach (pos socket_fd) fd c).1

-- The second connection, for the run without the probe. The first one is closed.
unfoldable pub retry : Connection → Client → Result × Client
retry none c = (retry_without_cache, c)
retry (some (socket_fd, fd)) c = run rpc_api false (attached_to socket_fd fd c)

-- The runs over the first connection.
unfoldable pub attempts : (stop_at_retry : Bool) → Connection → Client → Result × Client
unfolding retry
attempts stop_at_retry second c =
    let (result, c') = run rpc_api true c in
    if is_retry result && not stop_at_retry then retry second (detach c') else (result, c')

-- Whether the exit status is 0, and the client at the end.
unfoldable pub session :
    (stop_at_run stop_at_retry : Bool) → Connection → Connection → Client → Bool × Client
unfolding attempts
session stop_at_run stop_at_retry none second c = (false, c)
session stop_at_run stop_at_retry (some (socket_fd, fd)) second c =
    let c1 = attached_to socket_fd fd c in
    let (result, c2) = if stop_at_run then (failure, c1) else attempts stop_at_retry second c1 in
    (is_success result, detach c2)
