-- ===== src/Transport/PppLink.antt =====
-- zb_rpc_client/ppp_link.c. What the kernel answers is input.
use zigbee_remote.Prelude.{
  ℕ, suc, ◌-◌, Bool, true, false, Option, none, some, List, ◌∷◌, if◌then◌else◌,
}
use zigbee_remote.Main.Connect.{close_socket}
use zigbee_remote.Transport.{Link, Host, with_link}
use zigbee_remote.Transport.SerialIo.{Frame}
use zigbee_remote.Transport.Lwip.{
  PppConfig, InitAnswers, ppp_link_lwip_init, ppp_link_lwip_stop, ppp_link_serial_input,
}

-- How the calls of `ppp_link_create` go: `tun` is `none` where no device is asked for.
pub record CreateAnswers : Type 0 where
  pub allocated : Bool
  pub tun_asked : Bool
  pub tun_opened : Option ℕ
  pub tun_set : Bool

abbrev pub new_link : Option ℕ → Link
new_link tun_fd = record {
  tun_fd = tun_fd;
  output = false;
  running = false;
  thread_started = false;
}

-- The TUN device is opened.
unfoldable pub set_up_tun : (tun_set : Bool) → ℕ → Host → Bool × Host
set_up_tun tun_set fd h =
    let opened = record h { fds = fd ∷ h.fds; link = some (new_link (some fd)) } in
    if tun_set
    then (true, opened)
    else (false, record opened { fds = close_socket fd opened.fds; link = none })

-- The configuration is not NULL and has its `ppp`.
unfoldable pub ppp_link_create : CreateAnswers → Host → Bool × Host
unfolding set_up_tun
ppp_link_create a h =
    if a.allocated
    then (if a.tun_asked
        then elim a.tun_opened [ none ↦ (false, h) | some fd ↦ set_up_tun a.tun_set fd h ]
        else (true, record h { link = some (new_link none) }))
    else (false, h)

-- The thread that polls the TUN device.
unfoldable pub start_thread : (thread_made : Bool) → Host → Option (Bool × Host)
unfolding with_link
start_thread thread_made h = with_link h λ l.
    if thread_made
    then some (
      true,
      record h {
        link = some (record l { running = true; thread_started = true });
        tun_threads = suc h.tun_threads;
      },
    )
    else some (false, record h { link = some (record l { running = false }) })

unfoldable pub ppp_link_start :
    (fwd : Bool) → PppConfig → InitAnswers → (thread_made : Bool) → Host → Option (Bool × Host)
unfolding start_thread
ppp_link_start fwd cfg a thread_made h = elim (ppp_link_lwip_init fwd cfg a h) [
  | none ↦ none
  | some (false, h') ↦ some (false, h')
  | some (true, h') ↦ start_thread thread_made h'
]

-- `pthread_join` returns when the thread has seen that `running` is 0.
unfoldable pub stop_tun_thread : Host → Option Host
unfolding with_link
stop_tun_thread h = with_link h λ l.
    if l.thread_started
    then some (record h {
      link = some (record l { running = false; thread_started = false });
      tun_threads = h.tun_threads - 1;
    })
    else some h

unfoldable pub ppp_link_stop : (sem_made callback_taken : Bool) → List Frame → Host → Option Host
unfolding stop_tun_thread
ppp_link_stop sem_made callback_taken frames h = elim (stop_tun_thread h) [
  | none ↦ none
  | some h' ↦ ppp_link_lwip_stop sem_made callback_taken frames h'
]

abbrev pub close_tun : Option ℕ → List ℕ → List ℕ
close_tun none fds = fds
close_tun (some fd) fds = close_socket fd fds

unfoldable pub link_freed : Host → Option Host
unfolding with_link
link_freed h = with_link h (λ l. some (record h { fds = close_tun l.tun_fd h.fds; link = none }))

unfoldable pub ppp_link_destroy : Host → Option Host
unfolding link_freed
ppp_link_destroy h = elim (stop_tun_thread h) [ none ↦ none | some h' ↦ link_freed h' ]

-- The link is not looked at.
abbrev pub ppp_link_input : List ℕ → Host → Host
ppp_link_input bytes h = ppp_link_serial_input bytes h
