-- ===== src/Transport/Release.antt =====
-- What the host program leaves behind: zb_rpc_client/main.cpp with serial_io.c and ppp_link.c.
pub mod Start
pub mod Stop
pub mod Whole
use zigbee_remote.Prelude.{
  ℕ, zero, suc, ◌+◌, ◌-◌, ◌≡◌, ◌⊎◌, refl, sym, ap, ◌∙◌, Bool, true, false, Bool-cases, Option-cases,
  inl, inr, Option, none, some, List, [], ◌∷◌, not, ◌&&◌, ◌==◌, if◌then◌else◌, arith,
}
use zigbee_remote.Main.Connect.{close_socket, close_socket_opened}
use zigbee_remote.Transport.{Serial, Link, Pcb, Host, with_link, with_serial}
use zigbee_remote.Transport.SerialIo.{
  SerialAnswers, give_up_serial, serial_set_up, serial_io_open, ppp_link_set_output,
  serial_io_attach, serial_detach, serial_io_close, Frame, send_frames,
}
use zigbee_remote.Transport.Lwip.{
  PppConfig, InitAnswers, configure_ppp, open_ppp, open_configured, set_up_ppp, ppp_link_lwip_init,
  ppp_link_lwip_stop,
}
use zigbee_remote.Transport.PppLink.{
  CreateAnswers, new_link, set_up_tun, ppp_link_create, start_thread, ppp_link_start,
  stop_tun_thread, ppp_link_stop, close_tun, link_freed, ppp_link_destroy,
}
use zigbee_remote.Transport.Steady.{Same, Gives, send_frames_both}

-- Neither object is there and no thread runs; `fds` are open.
pub record IsClean (fds : List ℕ) (h : Host) : Type 0 where
  pub no_serial : h.serial ≡ none
  pub no_link : h.link ≡ none
  pub open_fds : h.fds ≡ fds
  pub no_reader : h.serial_threads ≡ 0
  pub no_poller : h.tun_threads ≡ 0

-- The serial port is open, and there is no link.
pub record HasSerial (fds : List ℕ) (s : Serial) (h : Host) : Type 0 where
  pub serial_is : h.serial ≡ some s
  pub no_link : h.link ≡ none
  pub apart : s.link ≡ false
  pub open_fds : h.fds ≡ s.fd ∷ fds
  pub one_reader : h.serial_threads ≡ 1
  pub no_poller : h.tun_threads ≡ 0

abbrev pub open_tun : Option ℕ → List ℕ → List ℕ
open_tun none fds = fds
open_tun (some fd) fds = fd ∷ fds

-- Both are there; `attached` is whether each points to the other.
pub record HasBoth (attached : Bool) (fds : List ℕ) (s : Serial) (l : Link) (h : Host)
    : Type 0 where
  pub serial_is : h.serial ≡ some s
  pub link_is : h.link ≡ some l
  pub to_link : s.link ≡ attached
  pub to_serial : l.output ≡ attached
  pub open_fds : h.fds ≡ open_tun l.tun_fd (s.fd ∷ fds)
  pub one_reader : h.serial_threads ≡ 1
  pub pollers : h.tun_threads ≡ (if l.thread_started then 1 else 0)

-- Only the link is there, and it has no output.
pub record HasLink (fds : List ℕ) (l : Link) (h : Host) : Type 0 where
  pub no_serial : h.serial ≡ none
  pub link_is : h.link ≡ some l
  pub open_fds : h.fds ≡ open_tun l.tun_fd fds
  pub no_reader : h.serial_threads ≡ 0
  pub pollers : h.tun_threads ≡ (if l.thread_started then 1 else 0)

pub serial_io_open_cases :
    (a : SerialAnswers) (verbose : Bool) (fds : List ℕ) (h : Host)
    → IsClean fds h
    → let r = serial_io_open a verbose h in
      ((r.0 ≡ false) × IsClean fds r.1) ⊎ ((r.0 ≡ true) × (s : Serial) × HasSerial fds s r.1)
unfolding serial_io_open serial_set_up give_up_serial
serial_io_open_cases a verbose fds h clean = elim (Bool-cases a.allocated) [
  | inr e ↦ inl (ground arith, ground arith)
  | inl e ↦ elim (Option-cases a.opened) [
    | inl n ↦ inl (ground arith, ground arith)
    | inr (fd, o) ↦
        let closed = close_socket_opened fd h.fds in
        elim (Bool-cases a.got_attr) [
          | inr g ↦ inl (ground arith, ground arith)
          | inl g ↦ elim (Bool-cases a.set_attr) [
            | inr t ↦ inl (ground arith, ground arith)
            | inl t ↦ elim (Bool-cases a.thread_made) [
              | inr m ↦ inl (ground arith, ground arith)
              | inl m ↦
                  let s : Serial = record {
                    fd = fd;
                    running = true;
                    verbose = verbose;
                    link = false;
                  } in
                  inr (ground arith, s, ground arith)
            ]
          ]
        ]
  ]
]

pub ppp_link_create_cases :
    (a : CreateAnswers) (fds : List ℕ) (s : Serial) (h : Host)
    → HasSerial fds s h
    → let r = ppp_link_create a h in
      ((r.0 ≡ false) × HasSerial fds s r.1)
      ⊎ ((r.0 ≡ true) × (l : Link) × (l.thread_started ≡ false) × HasBoth false fds s l r.1)
unfolding ppp_link_create set_up_tun
ppp_link_create_cases a fds s h has = elim (Bool-cases a.allocated) [
  | inr e ↦ inl (ground arith, ground arith)
  | inl e ↦ elim (Bool-cases a.tun_asked) [
    | inr t ↦ inr (ground arith, new_link none, refl, ground arith)
    | inl t ↦ elim (Option-cases a.tun_opened) [
      | inl n ↦ inl (ground arith, ground arith)
      | inr (fd, o) ↦
          let closed = close_socket_opened fd h.fds in
          elim (Bool-cases a.tun_set) [
            | inr u ↦ inl (ground arith, ground arith)
            | inl u ↦ inr (ground arith, new_link (some fd), refl, ground arith)
          ]
    ]
  ]
]

-- The objects with their pointers set to each other.
abbrev attached_serial : Serial → Serial
attached_serial s = record s { link = true }

abbrev attached_link : Link → Link
attached_link l = record l { output = true }

pub serial_io_attach_lem :
    (fds : List ℕ) (s : Serial) (l : Link) (h : Host)
    → HasBoth false fds s l h
    → Gives (serial_io_attach h) (HasBoth true fds (attached_serial s) (attached_link l))
unfolding serial_io_attach ppp_link_set_output with_serial with_link
serial_io_attach_lem fds s l h both = (
  record h { serial = some (attached_serial s); link = some (attached_link l) },
  ground arith,
  ground arith,
)

-- Some state of the two objects.
abbrev pub AnyBoth : List ℕ → Host → Type 0
AnyBoth fds h = (s : Serial) × (l : Link) × HasBoth true fds s l h

pub HasBoth-Same :
    (fds : List ℕ) (s : Serial) (l : Link) (h k : Host)
    → HasBoth true fds s l h
    → Same h k
    → HasBoth true fds s l k
HasBoth-Same fds s l h k both same = ground arith
