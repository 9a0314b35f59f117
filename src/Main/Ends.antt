-- ===== src/Main/Ends.antt =====
-- What the exit status of zb_rpc_client/main.cpp says, and what the program leaves behind.
use zigbee_remote.Prelude.{
  ℕ, ◌≡◌, refl, sym, ap, ◌∙◌, Bool, true, false, Bool-cases, inl, inr, not, ◌&&◌, Option, none,
  some, arith,
}
use zigbee_remote.Fd.{Fd}
use zigbee_remote.Client.{Client, detach, attached, rpc_api, zigbee_get_channel}
use zigbee_remote.Client.Detached.{api_detached}
use zigbee_remote.Zigbee.{ZigbeeAddr}
use zigbee_remote.Thermostat.{
  unknown, after_probe, commission, k_open_network_seconds, Result, success, failure,
  retry_without_cache, run,
}
use zigbee_remote.Thermostat.Steps.{IsRead, started, run_plain, after_unknown_none}
use zigbee_remote.Thermostat.Outcome.{run_success}
use zigbee_remote.Main.{Connection, is_success, is_retry, attached_to, retry, attempts, session}

-- However the program ends, no descriptor stays attached.
pub session-attached :
    (stop_at_run stop_at_retry : Bool) (first second : Connection) (c : Client)
    → attached c ≡ false
    → attached (session stop_at_run stop_at_retry first second c).1 ≡ false
unfolding session detach attached
session-attached stop_at_run stop_at_retry none second c off = off
session-attached stop_at_run stop_at_retry (some (socket_fd, fd)) second c off = refl

-- The sensor that a run over a connection read.
pub data HasRead (second : Connection) (c : Client) : Type 0 where
  at_first : IsRead rpc_api c (run rpc_api true c) → HasRead second c
  at_second :
      (socket_fd : ℕ) (fd : Fd)
      → second ≡ some (socket_fd, fd)
      → (run rpc_api true c).0 ≡ retry_without_cache
      → IsRead rpc_api
          (attached_to socket_fd fd (detach (run rpc_api true c).1))
          (run rpc_api false (attached_to socket_fd fd (detach (run rpc_api true c).1)))
      → HasRead second c

is_success-eq : (r : Result) → is_success r ≡ true → r ≡ success
is_success-eq success e = refl
is_success-eq failure e = absurd cc
is_success-eq retry_without_cache e = absurd cc

is_retry-eq : (r : Result) → is_retry r ≡ true → r ≡ retry_without_cache
is_retry-eq success e = absurd cc
is_retry-eq failure e = absurd cc
is_retry-eq retry_without_cache e = refl

retry_success :
    (second : Connection) (c : Client)
    → (retry second (detach (run rpc_api true c).1)).0 ≡ success
    → (run rpc_api true c).0 ≡ retry_without_cache
    → HasRead second c
unfolding retry
retry_success none c h again = absurd cc
retry_success (some (socket_fd, fd)) c h again =
    at_second socket_fd fd refl again (run_success rpc_api false _ h)

attempts_once :
    (stop_at_retry : Bool) (second : Connection) (c : Client)
    → (is_retry (run rpc_api true c).0 && not stop_at_retry) ≡ false
    → attempts stop_at_retry second c ≡ run rpc_api true c
unfolding attempts
attempts_once stop_at_retry second c h = rw (h, attempts)

attempts_twice :
    (stop_at_retry : Bool) (second : Connection) (c : Client)
    → (is_retry (run rpc_api true c).0 && not stop_at_retry) ≡ true
    → attempts stop_at_retry second c ≡ retry second (detach (run rpc_api true c).1)
unfolding attempts
attempts_twice stop_at_retry second c h = rw (h, attempts)

attempts_success :
    (stop_at_retry : Bool) (second : Connection) (c : Client)
    → (attempts stop_at_retry second c).0 ≡ success
    → HasRead second c
attempts_success stop_at_retry second c h =
    elim (Bool-cases (is_retry (run rpc_api true c).0 && not stop_at_retry)) [
      | inl again ↦
          retry_success second c (result_of (sym (attempts_twice stop_at_retry second c again)) ∙ h)
            (is_retry-eq _ (ground arith))
      | inr once ↦ at_first (
          run_success rpc_api true c
            (result_of (sym (attempts_once stop_at_retry second c once)) ∙ h))
    ]
  where
    result_of : {a b : Result × Client} → a ≡ b → a.0 ≡ b.0
    result_of e = ap (λ (p : Result × Client). p.0) e

session_runs :
    (stop_at_retry : Bool) (socket_fd : ℕ) (fd : Fd) (second : Connection) (c : Client)
    → (session false stop_at_retry (some (socket_fd, fd)) second c).0
      ≡ is_success (attempts stop_at_retry second (attached_to socket_fd fd c)).0
unfolding session
session_runs stop_at_retry socket_fd fd second c = refl

session_stopped :
    (stop_at_retry : Bool) (socket_fd : ℕ) (fd : Fd) (second : Connection) (c : Client)
    → (session true stop_at_retry (some (socket_fd, fd)) second c).0 ≡ false
unfolding session
session_stopped stop_at_retry socket_fd fd second c = refl

session_none :
    (stop_at_run stop_at_retry : Bool) (second : Connection) (c : Client)
    → (session stop_at_run stop_at_retry none second c).0 ≡ false
unfolding session
session_none stop_at_run stop_at_retry second c = refl

-- The program's exit status is 0 only if the first connection was made and the temperatures of a
-- sensor were read without an error over it, or over the second one after a run that asked for it.
pub session_success :
    (stop_at_run stop_at_retry : Bool) (first second : Connection) (c : Client)
    → (session stop_at_run stop_at_retry first second c).0 ≡ true
    → (socket_fd : ℕ) × (fd : Fd) × (first ≡ some (socket_fd, fd))
      × HasRead second (attached_to socket_fd fd c)
session_success stop_at_run stop_at_retry none second c h =
    let no : false ≡ true = sym (session_none stop_at_run stop_at_retry second c) ∙ h in absurd cc
session_success true stop_at_retry (some (socket_fd, fd)) second c h =
    let no : false ≡ true = sym (session_stopped stop_at_retry socket_fd fd second c) ∙ h in
    absurd cc
session_success false stop_at_retry (some (socket_fd, fd)) second c h =
    let c1 = attached_to socket_fd fd c in
    (
      socket_fd,
      fd,
      refl,
      attempts_success stop_at_retry second c1
          (is_success-eq _ (sym (session_runs stop_at_retry socket_fd fd second c) ∙ h)),
    )

commission_detached : (c : Client) → attached c ≡ false → commission rpc_api c ≡ (none, c)
unfolding commission
commission_detached c off =
    rw ((api_detached c k_open_network_seconds 0 0 0 off).open_network, commission)

started_detached : (c : Client) → attached c ≡ false → started rpc_api c ≡ c
started_detached c off =
    let refused = api_detached c k_open_network_seconds 0 0 0 off in
    ap (λ (p : ℕ × Client). (zigbee_get_channel p.1).1) refused.get_panid
    ∙ ap (λ (p : ℕ × Client). p.1) refused.get_channel

-- Without a connection a run fails at its first command, and leaves everything as it was.
pub run_detached :
    (probe_cached_sensor : Bool) (c : Client)
    → attached c ≡ false
    → run rpc_api probe_cached_sensor c ≡ (failure, c)
run_detached probe_cached_sensor c off =
    let refused = api_detached c k_open_network_seconds 0 0 0 off in
    let empty = commission_detached c off in
    run_plain rpc_api probe_cached_sensor c (ground (arith, refused.get_panid))
    ∙ ap (λ (w : Client). after_probe rpc_api (unknown, w)) (started_detached c off)
    ∙ after_unknown_none rpc_api c (ap (λ (p : Option ZigbeeAddr × Client). p.0) empty)
    ∙ ap (λ (p : Option ZigbeeAddr × Client). let out : Result × Client = (failure, p.1) in out)
        empty
