-- ===== src/Transport/Release/Stop.antt =====
-- Giving up the link and the serial port: the ends of ppp_link.c and serial_io.c of zb_rpc_client.
use zigbee_remote.Prelude.{
  ℕ, ◌-◌, ◌≡◌, refl, Bool, true, false, Bool-cases, Option-cases, inl, inr, Option, none, some,
  List, ◌∷◌, not, ◌&&◌, arith,
}
use zigbee_remote.Main.Connect.{close_socket, close_socket_opened}
use zigbee_remote.Transport.{Serial, Link, Host, with_link, with_serial}
use zigbee_remote.Transport.SerialIo.{ppp_link_set_output, serial_detach, serial_io_close, Frame}
use zigbee_remote.Transport.Lwip.{ppp_link_lwip_stop}
use zigbee_remote.Transport.PppLink.{
  stop_tun_thread, ppp_link_stop, close_tun, link_freed, ppp_link_destroy,
}
use zigbee_remote.Transport.Steady.{Gives, send_frames_both}
use zigbee_remote.Transport.Release.{
  IsClean, HasSerial, HasBoth, HasLink, AnyBoth, HasBoth-Same, open_tun,
}

stop_tun_thread_both :
    (fds : List ℕ) (s : Serial) (l : Link) (h : Host)
    → HasBoth true fds s l h
    → Gives (stop_tun_thread h) (AnyBoth fds)
unfolding stop_tun_thread with_link
stop_tun_thread_both fds s l h both = elim (Bool-cases l.thread_started) [
  | inl t ↦
      let l' : Link = record l { running = false; thread_started = false } in
      (
        record h { link = some l'; tun_threads = h.tun_threads - 1 },
        ground arith,
        (s, l', ground arith),
      )
  | inr t ↦ (h, ground arith, (s, l, both))
]

ppp_link_lwip_stop_both :
    (sem_made callback_taken : Bool) (frames : List Frame) (fds : List ℕ) (s : Serial) (l : Link)
    (h : Host)
    → HasBoth true fds s l h
    → Gives (ppp_link_lwip_stop sem_made callback_taken frames h) (AnyBoth fds)
unfolding ppp_link_lwip_stop
ppp_link_lwip_stop_both sem_made callback_taken frames fds s l h both = elim (Option-cases h.ppp) [
  | inl n ↦ (h, ground arith, (s, l, both))
  | inr (pcb, p) ↦ elim (Bool-cases (h.s_use_tcpip && not (sem_made && callback_taken))) [
    | inl q ↦ (h, ground arith, (s, l, both))
    | inr q ↦
        let (k, e, same) = send_frames_both frames s l h both.serial_is both.link_is in
        (k, ground arith, (s, l, HasBoth-Same fds s l h k both same))
  ]
]

pub ppp_link_stop_both :
    (sem_made callback_taken : Bool) (frames : List Frame) (fds : List ℕ) (s : Serial) (l : Link)
    (h : Host)
    → HasBoth true fds s l h
    → Gives (ppp_link_stop sem_made callback_taken frames h) (AnyBoth fds)
unfolding ppp_link_stop
ppp_link_stop_both sem_made callback_taken frames fds s l h both =
    let (k, e, any) = stop_tun_thread_both fds s l h both in
    let (s', l', both') = any in
    let (k', e', both'') =
      ppp_link_lwip_stop_both sem_made callback_taken frames fds s' l' k both' in
    (k', ground arith, both'')

close_tun_opened : (tun : Option ℕ) (fds : List ℕ) → close_tun tun (open_tun tun fds) ≡ fds
close_tun_opened none fds = refl
close_tun_opened (some fd) fds = close_socket_opened fd fds

-- The serial port is closed under the TUN device.
close_under :
    (s : Serial) (l : Link) (fds : List ℕ)
    → close_socket s.fd (open_tun l.tun_fd (s.fd ∷ fds)) ≡ open_tun l.tun_fd fds
close_under s l fds = elim (Option-cases l.tun_fd) [
  | inl n ↦ ground (arith, close_socket_opened s.fd fds)
  | inr (fd, o) ↦ unfold close_socket in ground (arith, close_socket_opened s.fd fds)
]

pub serial_io_close_both :
    (fds : List ℕ) (s : Serial) (l : Link) (h : Host)
    → HasBoth true fds s l h
    → Gives (serial_io_close h) (λ k. (l' : Link) × HasLink fds l' k)
unfolding serial_io_close serial_detach ppp_link_set_output with_serial with_link
serial_io_close_both fds s l h both =
    let l' : Link = record l { output = false } in
    (
      record h {
        serial = none;
        link = some l';
        fds = close_socket s.fd h.fds;
        serial_threads = h.serial_threads - 1;
      },
      ground arith,
      (l', ground (arith, close_under s l fds)),
    )

pub serial_io_close_alone :
    (fds : List ℕ) (s : Serial) (h : Host)
    → HasSerial fds s h
    → Gives (serial_io_close h) (IsClean fds)
unfolding serial_io_close serial_detach with_serial
serial_io_close_alone fds s h has = (
  record h { serial = none; fds = close_socket s.fd h.fds; serial_threads = h.serial_threads - 1 },
  ground arith,
  ground (arith, close_socket_opened s.fd fds),
)

pub ppp_link_destroy_lem :
    (fds : List ℕ) (l : Link) (h : Host)
    → HasLink fds l h
    → Gives (ppp_link_destroy h) (IsClean fds)
unfolding ppp_link_destroy stop_tun_thread link_freed with_link
ppp_link_destroy_lem fds l h has = (
  record h { link = none; fds = close_tun l.tun_fd h.fds; tun_threads = 0 },
  ground arith,
  ground (arith, close_tun_opened l.tun_fd fds),
)
