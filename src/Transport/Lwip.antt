-- ===== src/Transport/Lwip.antt =====
-- zb_rpc_client/ppp_lwip.c but for the TUN device: what lwIP answers to each call is input, with the
-- frames that it sends meanwhile. VJ compression, DNS and IPv6 are on, as in lwipopts.h.
use zigbee_remote.Prelude.{
  ℕ, Bool, true, false, not, ◌&&◌, ◌||◌, Option, none, some, List, ◌++◌, if◌then◌else◌,
}
use zigbee_remote.Prelude.Int.{ℤ, is_zero}
use zigbee_remote.Transport.{Pcb, Host, with_link}
use zigbee_remote.Transport.SerialIo.{Frame, send_frames}

-- `ppp_link_mode_t`
pub data Mode : Type 0 where
  server client : Mode

-- `ppp_config_t`; an address is what `ip4addr_aton` reads, or `none` where it is refused.
pub record PppConfig : Type 0 where
  pub mode : Mode
  pub local_ip : Option ℕ
  pub peer_ip : Option ℕ
  pub dns_ip : Option ℕ
  pub ipv6 : Bool
  pub netdev : Bool

-- `fwd` is `netdev_fwd_enabled()`.
unfoldable pub server_settings : (fwd : Bool) → PppConfig → (local peer dns : ℕ) → Pcb → Pcb
server_settings fwd cfg local peer dns pcb = record pcb {
  passive = true;
  fsm_timeout_time = 1;
  ouraddr = local;
  accept_remote = true;
  ask_for_local = true;
  hisaddr = peer;
  accept_local = true;
  dns = some dns;
  usepeerdns = false;
  want_vj = not fwd;
  allow_vj = not fwd;
  want_ifaceid = cfg.ipv6;
  allow_ifaceid = cfg.ipv6;
}

-- The first component is whether the function returns 1.
unfoldable pub configure_ppp_server : (fwd : Bool) → Option PppConfig → Pcb → Bool × Pcb
unfolding server_settings
configure_ppp_server fwd none pcb = (false, pcb)
configure_ppp_server fwd (some cfg) pcb = elim cfg.local_ip [
  | none ↦ (false, pcb)
  | some local ↦ elim cfg.peer_ip [
    | none ↦ (false, pcb)
    | some peer ↦ elim cfg.dns_ip [
      | none ↦ (false, pcb)
      | some dns ↦ (true, server_settings fwd cfg local peer dns pcb)
    ]
  ]
]

unfoldable pub configure_ppp_client : (fwd : Bool) → Option PppConfig → Pcb → Bool × Pcb
configure_ppp_client fwd none pcb = (false, pcb)
configure_ppp_client fwd (some cfg) pcb = (
  true,
  record pcb {
    fsm_timeout_time = 1;
    usepeerdns = true;
    want_vj = not fwd;
    want_ifaceid = cfg.ipv6;
    allow_ifaceid = cfg.ipv6;
  },
)

-- How the calls of `ppp_link_lwip_init` go: the pcb that `pppos_create` gives, whether `ppp_listen`
-- or `ppp_connect` succeeds with the frames that it sends, and, for the thread of lwIP, whether
-- `sys_sem_new` and `tcpip_callback` succeed.
pub record InitAnswers : Type 0 where
  pub created : Option Pcb
  pub opened : Bool
  pub frames : List Frame
  pub sem_made : Bool
  pub callback_taken : Bool

unfoldable pub configure_ppp : (fwd : Bool) → PppConfig → Pcb → Bool × Pcb
unfolding configure_ppp_server configure_ppp_client
configure_ppp fwd cfg pcb = elim cfg.mode [
  | server ↦ configure_ppp_server fwd (some cfg) pcb
  | client ↦ configure_ppp_client fwd (some cfg) pcb
]

-- `ppp_listen` or `ppp_connect`.
unfoldable pub open_ppp : InitAnswers → Host → Option (Bool × Host)
open_ppp a h = elim (send_frames a.frames h) [ none ↦ none | some h' ↦ some (a.opened, h') ]

unfoldable pub open_configured : InitAnswers → Bool × Pcb → Host → Option (Bool × Host)
unfolding open_ppp
open_configured a (done, pcb) h =
    let configured = record h { ppp = some pcb } in
    if done then open_ppp a configured else some (false, configured)

-- The pcb and its settings: `ppp_setup_tcpip`, and the same calls in `ppp_link_lwip_init`.
unfoldable pub set_up_ppp : (fwd : Bool) → PppConfig → InitAnswers → Host → Option (Bool × Host)
unfolding open_configured
set_up_ppp fwd cfg a h = elim a.created [
  | none ↦ some (false, record h { ppp = none })
  | some pcb ↦ open_configured a (configure_ppp fwd cfg pcb) h
]

-- The link is not NULL.
unfoldable pub ppp_link_lwip_init :
    (fwd : Bool) → PppConfig → InitAnswers → Host → Option (Bool × Host)
unfolding set_up_ppp with_link
ppp_link_lwip_init fwd cfg a h = with_link h λ l.
    let h' = record h { s_io = true; s_use_tcpip = fwd || cfg.netdev } in
    if fwd || cfg.netdev
    then (if a.sem_made && a.callback_taken then set_up_ppp fwd cfg a h' else some (false, h'))
    else set_up_ppp fwd cfg a h'

-- `ppp_close` sends its frames; in the thread of lwIP it runs only if the semaphore and the callback
-- are there.
unfoldable pub ppp_link_lwip_stop :
    (sem_made callback_taken : Bool) → List Frame → Host → Option Host
ppp_link_lwip_stop sem_made callback_taken frames h = elim h.ppp [
  | none ↦ some h
  | some pcb ↦
      if h.s_use_tcpip && not (sem_made && callback_taken) then some h else send_frames frames h
]

-- `err_code`, 0 for `PPPERR_NONE`.
unfoldable pub ppp_link_status_cb : ℤ → Host → Host
ppp_link_status_cb err_code h = record h { s_link_up = is_zero err_code }

-- Whether the status callback starts the forwarding.
abbrev pub starts_forward : (fwd has_address : Bool) → ℤ → Bool
starts_forward fwd has_address err_code = is_zero err_code && fwd && has_address

abbrev pub ppp_link_is_up : Host → Bool
ppp_link_is_up h = h.s_link_up

unfoldable pub ppp_link_serial_input : List ℕ → Host → Host
ppp_link_serial_input bytes h = elim h.ppp [
  | none ↦ h
  | some pcb ↦ record h { input = h.input ++ bytes }
]
