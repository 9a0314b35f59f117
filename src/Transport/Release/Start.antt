-- ===== src/Transport/Release/Start.antt =====
-- Starting the link: `ppp_link_start` of zb_rpc_client/ppp_link.c on attached objects.
use zigbee_remote.Prelude.{
  ℕ, suc, ◌≡◌, refl, Bool, true, false, Bool-cases, Option-cases, inl, inr, Option, none, some,
  List, not, ◌&&◌, arith,
}
use zigbee_remote.Transport.{Serial, Link, Pcb, Host, with_link}
use zigbee_remote.Transport.Lwip.{
  PppConfig, InitAnswers, configure_ppp, open_ppp, open_configured, set_up_ppp, ppp_link_lwip_init,
}
use zigbee_remote.Transport.PppLink.{start_thread, ppp_link_start}
use zigbee_remote.Transport.Steady.{send_frames_both}
use zigbee_remote.Transport.Release.{HasBoth, AnyBoth, HasBoth-Same}

open_ppp_both :
    (a : InitAnswers) (fds : List ℕ) (s : Serial) (l : Link) (h : Host)
    → HasBoth true fds s l h
    → (k : Host) × (open_ppp a h ≡ some (a.opened, k)) × HasBoth true fds s l k
unfolding open_ppp
open_ppp_both a fds s l h both =
    let (k, e, same) = send_frames_both a.frames s l h both.serial_is both.link_is in
    (k, ground arith, HasBoth-Same fds s l h k both same)

abbrev GivesBoth : Option (Bool × Host) → List ℕ → Serial → Link → Type 0
GivesBoth r fds s l = (done : Bool) × (k : Host) × (r ≡ some (done, k)) × HasBoth true fds s l k

open_configured_both :
    (a : InitAnswers) (done : Bool) (pcb : Pcb) (fds : List ℕ) (s : Serial) (l : Link) (h : Host)
    → HasBoth true fds s l h
    → GivesBoth (open_configured a (done, pcb) h) fds s l
unfolding open_configured
open_configured_both a true pcb fds s l h both =
    let (k, e, both') = open_ppp_both a fds s l (record h { ppp = some pcb }) (ground arith) in
    (a.opened, k, e, both')
open_configured_both a false pcb fds s l h both =
    (false, record h { ppp = some pcb }, refl, ground arith)

set_up_ppp_both :
    (cfg : PppConfig) (a : InitAnswers) (fds : List ℕ) (s : Serial) (l : Link) (h : Host)
    → HasBoth true fds s l h
    → GivesBoth (set_up_ppp false cfg a h) fds s l
unfolding set_up_ppp
set_up_ppp_both cfg a fds s l h both = elim (Option-cases a.created) [
  | inl e ↦ (false, record h { ppp = none }, ground arith, ground arith)
  | inr (pcb, e) ↦
      let c = configure_ppp false cfg pcb in
      let (done, k, e', both') = open_configured_both a c.0 c.1 fds s l h both in
      (done, k, ground arith, both')
]

ppp_link_lwip_init_both :
    (cfg : PppConfig) (a : InitAnswers) (fds : List ℕ) (s : Serial) (l : Link) (h : Host)
    → HasBoth true fds s l h
    → GivesBoth (ppp_link_lwip_init false cfg a h) fds s l
unfolding ppp_link_lwip_init with_link
ppp_link_lwip_init_both cfg a fds s l h both =
    let h' : Host = record h { s_io = true; s_use_tcpip = cfg.netdev } in
    let (done, k, e, both') = set_up_ppp_both cfg a fds s l h' (ground arith) in
    elim (Bool-cases (cfg.netdev && not (a.sem_made && a.callback_taken))) [
      | inl q ↦ (false, h', ground arith, ground arith)
      | inr q ↦ (done, k, ground arith, both')
    ]

pub ppp_link_start_both :
    (cfg : PppConfig) (a : InitAnswers) (thread_made : Bool) (fds : List ℕ) (s : Serial) (l : Link)
    (h : Host)
    → l.thread_started ≡ false
    → HasBoth true fds s l h
    → (done : Bool) × (k : Host) × (ppp_link_start false cfg a thread_made h ≡ some (done, k))
      × AnyBoth fds k
unfolding ppp_link_start start_thread with_link
ppp_link_start_both cfg a thread_made fds s l h idle both =
    let (done, k, e, both') = ppp_link_lwip_init_both cfg a fds s l h both in
    elim (Bool-cases done) [
      | inr d ↦ (false, k, ground arith, (s, l, both'))
      | inl d ↦ elim (Bool-cases thread_made) [
        | inl m ↦
            let l' : Link = record l { running = true; thread_started = true } in
            (
              true,
              record k { link = some l'; tun_threads = suc k.tun_threads },
              ground arith,
              (s, l', ground arith),
            )
        | inr m ↦
            let l' : Link = record l { running = false } in
            (false, record k { link = some l' }, ground arith, (s, l', ground arith))
      ]
    ]
