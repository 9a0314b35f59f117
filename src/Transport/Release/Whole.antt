-- ===== src/Transport/Release/Whole.antt =====
-- Whatever fails, `main` of zb_rpc_client/main.cpp uses no object that is not there and leaves nothing
-- behind.
use zigbee_remote.Prelude.{
  ℕ, ◌≡◌, refl, ap, ◌∙◌, Bool, true, false, Bool-cases, inl, inr, ◌⊎◌, Option, none, some, List,
  arith,
}
use zigbee_remote.Client.{Client}
use zigbee_remote.Main.{Connection}
use zigbee_remote.Main.Connect.{
  close_socket, close_socket_opened, connect_rpc, connect_rpc-kept, kept,
}
use zigbee_remote.Transport.{Serial, Link, Host}
use zigbee_remote.Transport.SerialIo.{serial_io_open}
use zigbee_remote.Transport.PppLink.{ppp_link_create}
use zigbee_remote.Transport.Steady.{Gives, run_rounds-Same, serial_read_task-Same}
use zigbee_remote.Transport.Program.{
  NetAnswers, goes_again, close_kept, over_second, over_first, over_network, Answers, main_config,
  give_up, with_network, with_started, with_link_made, with_serial_open, run_program,
}
use zigbee_remote.Transport.Release.{
  IsClean, HasSerial, HasBoth, AnyBoth, HasBoth-Same, serial_io_open_cases, ppp_link_create_cases,
  serial_io_attach_lem,
}
use zigbee_remote.Transport.Release.Start.{ppp_link_start_both}
use zigbee_remote.Transport.Release.Stop.{
  ppp_link_stop_both, serial_io_close_both, serial_io_close_alone, ppp_link_destroy_lem,
}

close_kept-kept :
    (connection : Connection) (fds : List ℕ) → close_kept connection (kept connection fds) ≡ fds
close_kept-kept none fds = refl
close_kept-kept (some (socket_fd, fd)) fds = close_socket_opened socket_fd fds

over_second-fds :
    (a : NetAnswers) (first : Connection) (r : Connection × List ℕ) (fds : List ℕ) (c : Client)
    → r.1 ≡ kept r.0 fds
    → (over_second a first r c).1 ≡ fds
unfolding over_second
over_second-fds a first (second, open_now) fds c h = rw h (close_kept-kept second fds)

over_first-fds :
    (a : NetAnswers) (r : Connection × List ℕ) (fds : List ℕ) (c : Client)
    → r.1 ≡ kept r.0 fds
    → (over_first a r c).1 ≡ fds
unfolding over_first
over_first-fds a (none, open_now) fds c h = h
over_first-fds a (some (socket_fd, fd), open_now) fds c h =
    let closed : close_socket socket_fd open_now ≡ fds = rw h (close_socket_opened socket_fd fds) in
    elim (Bool-cases (goes_again a socket_fd fd c)) [
      | inl e ↦
          let again = connect_rpc a.valid_host a.attempts_again (close_socket socket_fd open_now) in
          rw e (
            over_second-fds a (some (socket_fd, fd)) again fds c (
              connect_rpc-kept a.valid_host a.attempts_again (close_socket socket_fd open_now)
              ∙ ap (kept again.0) closed))
      | inr e ↦ rw e closed
    ]

over_network-fds : (a : NetAnswers) (fds : List ℕ) (c : Client) → (over_network a fds c).1 ≡ fds
unfolding over_network
over_network-fds a fds c = ground (
  arith,
  over_first-fds a (connect_rpc a.valid_host a.attempts fds) fds c
      (connect_rpc-kept a.valid_host a.attempts fds),
)

give_up-IsClean :
    (a : Answers) (fds : List ℕ) (h : Host) → AnyBoth fds h → Gives (give_up a h) (IsClean fds)
unfolding give_up
give_up-IsClean a fds h (s, l, both) =
    let (h1, e1, any1) =
      ppp_link_stop_both a.sem_made a.callback_taken a.frames_at_stop fds s l h both in
    let (s1, l1, both1) = any1 in
    let (h2, e2, same) = run_rounds-Same a.late s1 l1 h1 both1.serial_is both1.link_is in
    let (h3, e3, any3) =
      serial_io_close_both fds s1 l1 h2 (HasBoth-Same fds s1 l1 h1 h2 both1 same) in
    let (h4, e4, clean) = ppp_link_destroy_lem fds any3.0 h3 any3.1 in
    (h4, rw (e1, e2, e3) e4, clean)

abbrev pub Ends : Option (Bool × Host) → List ℕ → Type 0
Ends r fds = (success : Bool) × (k : Host) × (r ≡ some (success, k)) × IsClean fds k

with_network-Ends :
    (a : Answers) (c : Client) (fds : List ℕ) (h : Host)
    → AnyBoth fds h
    → Ends (with_network a c h) fds
unfolding with_network
with_network-Ends a c fds h (s, l, both) =
    let (h1, e1, same) = run_rounds-Same a.during s l h both.serial_is both.link_is in
    let both1 = HasBoth-Same fds s l h h1 both same in
    let net = over_network a.net h1.fds c in
    let h2 : Host = record h1 { fds = net.1 } in
    let (h3, e3, clean) =
      give_up-IsClean a fds h2 (s, l, ground (arith, over_network-fds a.net h1.fds c)) in
    (net.0, h3, rw (e1, e3) refl, clean)

with_started-Ends :
    (a : Answers) (c : Client) (done : Bool) (fds : List ℕ) (h : Host)
    → AnyBoth fds h
    → Ends (with_started a c (done, h)) fds
unfolding with_started
with_started-Ends a c true fds h any = with_network-Ends a c fds h any
with_started-Ends a c false fds h any =
    let (k, e, clean) = give_up-IsClean a fds h any in (false, k, rw e refl, clean)

with_link_made-Ends :
    (a : Answers) (c : Client) (fds : List ℕ) (h : Host) (r : Bool × Host)
    → (s : Serial)
    → ((r.0 ≡ false) × HasSerial fds s r.1)
      ⊎ ((r.0 ≡ true) × (l : Link) × (l.thread_started ≡ false) × HasBoth false fds s l r.1)
    → Ends (with_link_made a c r) fds
unfolding with_link_made
with_link_made-Ends a c fds h (made, k) s (inl (no_link, has)) =
    let (k1, e1, clean) = serial_io_close_alone fds s k has in
    (false, k1, rw (no_link, e1) refl, clean)
with_link_made-Ends a c fds h (made, k) s (inr (yes_link, l, idle, both)) =
    let (k1, e1, both1) = serial_io_attach_lem fds s l k both in
    let (done, k2, e2, any) =
      ppp_link_start_both main_config a.init a.thread_made fds _ _ k1 idle both1 in
    let (success, k3, e3, clean) = with_started-Ends a c done fds k2 any in
    (success, k3, rw (yes_link, e1, e2) e3, clean)

with_serial_open-Ends :
    (a : Answers) (c : Client) (fds : List ℕ) (r : Bool × Host)
    → ((r.0 ≡ false) × IsClean fds r.1) ⊎ ((r.0 ≡ true) × (s : Serial) × HasSerial fds s r.1)
    → Ends (with_serial_open a c r) fds
unfolding with_serial_open
with_serial_open-Ends a c fds (opened, h) (inl (no_port, clean)) =
    (false, h, rw no_port refl, clean)
with_serial_open-Ends a c fds (opened, h) (inr (is_open, s, has)) =
    let (h1, e1, same) = serial_read_task-Same a.early s h has.serial_is in
    let has1 : HasSerial fds s h1 = ground arith in
    let cases = ppp_link_create_cases a.create fds s h1 has1 in
    let (success, k, e, clean) =
      with_link_made-Ends a c fds h1 (ppp_link_create a.create h1) s cases in
    (success, k, rw (is_open, e1) e, clean)

-- Whatever fails and whatever the threads do in between, `main` ends without an access to an
-- object that is not allocated; both objects are freed, no thread runs, and the open descriptors
-- are those that were open at the start.
pub run_program-Ends :
    (a : Answers) (c : Client) (fds : List ℕ) (h : Host)
    → IsClean fds h
    → Ends (run_program a c h) fds
unfolding run_program
run_program-Ends a c fds h clean = elim (Bool-cases a.options_valid) [
  | inl e ↦
      let cases = serial_io_open_cases a.serial a.verbose fds h clean in
      rw e (with_serial_open-Ends a c fds (serial_io_open a.serial a.verbose h) cases)
  | inr e ↦ (false, h, rw e refl, clean)
]
