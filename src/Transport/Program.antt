-- ===== src/Transport/Program.antt =====
-- `main` of zb_rpc_client/main.cpp: the serial port, the PPP link and the connections, in the order
-- in which they are made and given up, with rounds of the threads in between.
use zigbee_remote.Prelude.{ℕ, Bool, true, false, not, ◌&&◌, Option, none, some, List, if◌then◌else◌}
use zigbee_remote.Fd.{Fd}
use zigbee_remote.Client.{Client, rpc_api}
use zigbee_remote.Thermostat.{run}
use zigbee_remote.Main.{Connection, is_retry, attached_to, session}
use zigbee_remote.Main.Connect.{Poll, wait_for_link, Attempt, close_socket, connect_rpc}
use zigbee_remote.Transport.{Host}
use zigbee_remote.Transport.SerialIo.{
  SerialAnswers, serial_io_open, serial_io_attach, serial_io_close, Frame,
}
use zigbee_remote.Transport.Lwip.{PppConfig, Mode, InitAnswers}
use zigbee_remote.Transport.PppLink.{
  CreateAnswers, ppp_link_create, ppp_link_start, ppp_link_stop, ppp_link_destroy,
}
use zigbee_remote.Transport.Threads.{Round, run_rounds, SerialAnswer, serial_read_task}

-- What `connect_rpc` and the signals answer.
pub record NetAnswers : Type 0 where
  pub stop_at_start : Bool
  pub wait_seconds : ℕ
  pub polls : List Poll
  pub valid_host : Bool
  pub attempts : List Attempt
  pub stop_at_run : Bool
  pub stop_at_retry : Bool
  pub attempts_again : List Attempt

-- Whether the first connection is given up for a second one.
abbrev pub goes_again : NetAnswers → ℕ → Fd → Client → Bool
goes_again a socket_fd fd c =
    not a.stop_at_run
    && is_retry (run rpc_api true (attached_to socket_fd fd c)).0
    && not a.stop_at_retry

abbrev pub close_kept : Connection → List ℕ → List ℕ
close_kept none fds = fds
close_kept (some (socket_fd, fd)) fds = close_socket socket_fd fds

-- The first argument pair is the first connection; `second` has the second one and the descriptors
-- that are open then.
unfoldable pub over_second : NetAnswers → Connection → Connection × List ℕ → Client → Bool × List ℕ
over_second a first (second, fds) c =
    ((session a.stop_at_run a.stop_at_retry first second c).0, close_kept second fds)

unfoldable pub over_first : NetAnswers → Connection × List ℕ → Client → Bool × List ℕ
unfolding over_second
over_first a (none, fds) c = (false, fds)
over_first a (some (socket_fd, fd), fds) c =
    let first = some (socket_fd, fd) in
    let closed = close_socket socket_fd fds in
    if goes_again a socket_fd fd c
    then over_second a first (connect_rpc a.valid_host a.attempts_again closed) c
    else ((session a.stop_at_run a.stop_at_retry first none c).0, closed)

-- The part of `main` behind the link: `success`, and the descriptors that stay open.
unfoldable pub over_network : NetAnswers → List ℕ → Client → Bool × List ℕ
unfolding over_first
over_network a fds c =
    if a.stop_at_start
    then (false, fds)
    else if wait_for_link a.wait_seconds a.polls
    then over_first a (connect_rpc a.valid_host a.attempts fds) c
    else (false, fds)

pub record Answers : Type 0 where
  pub options_valid : Bool
  pub verbose : Bool
  pub serial : SerialAnswers
  pub early : List SerialAnswer
  pub create : CreateAnswers
  pub init : InitAnswers
  pub thread_made : Bool
  pub during : List Round
  pub net : NetAnswers
  pub sem_made : Bool
  pub callback_taken : Bool
  pub frames_at_stop : List Frame
  pub late : List Round

infixl 5 ◌>>=◌
abbrev pub ◌>>=◌ : {A : Type 0} {B : Type 0} → Option A → (A → Option B) → Option B
none >>= f = none
some a >>= f = f a

-- What `main` gives up at its end, in that order.
unfoldable pub give_up : Answers → Host → Option Host
give_up a h = ppp_link_stop a.sem_made a.callback_taken a.frames_at_stop h >>= λ stopped.
    run_rounds a.late stopped >>= λ quiet.
    serial_io_close quiet >>= λ closed. ppp_link_destroy closed

unfoldable pub with_network : Answers → Client → Host → Option (Bool × Host)
unfolding give_up
with_network a c h = run_rounds a.during h >>= λ ready.
    let (success, fds) = over_network a.net ready.fds c in
    give_up a (record ready { fds = fds }) >>= λ ended. some (success, ended)

unfoldable pub with_started : Answers → Client → Bool × Host → Option (Bool × Host)
unfolding with_network give_up
with_started a c (true, h) = with_network a c h
with_started a c (false, h) = give_up a h >>= λ ended. some (false, ended)

-- The configuration of `main`; forwarding is not enabled. An address is the word that stands in
-- memory on a little-endian host.
abbrev pub main_config : PppConfig
main_config = record {
  mode = Mode.server;
  local_ip = some 0x010ba8c0;
  peer_ip = some 0x020ba8c0;
  dns_ip = some 0x08080808;
  ipv6 = false;
  netdev = false;
}

unfoldable pub with_link_made : Answers → Client → Bool × Host → Option (Bool × Host)
unfolding with_started
with_link_made a c (false, h) = serial_io_close h >>= λ closed. some (false, closed)
with_link_made a c (true, h) = serial_io_attach h >>= λ attached.
    ppp_link_start false main_config a.init a.thread_made attached >>= λ r. with_started a c r

unfoldable pub with_serial_open : Answers → Client → Bool × Host → Option (Bool × Host)
unfolding with_link_made
with_serial_open a c (false, h) = some (false, h)
with_serial_open a c (true, h) =
    serial_read_task a.early h >>= λ ready. with_link_made a c (ppp_link_create a.create ready)

-- Whether the exit status is 0, and the program at its end; `none` if an object is used that is not
-- there.
unfoldable pub run_program : Answers → Client → Host → Option (Bool × Host)
unfolding with_serial_open
run_program a c h =
    if a.options_valid
    then with_serial_open a c (serial_io_open a.serial a.verbose h)
    else some (false, h)
