-- ===== src/Transport.antt =====
-- The host's end of the PPP link: serial_io.c, ppp_link.c and ppp_lwip.c of zb_rpc_client. This file
-- has the objects that they allocate and what an access through a pointer does.
pub mod SerialIo
pub mod Lwip
pub mod PppLink
pub mod Threads
pub mod Program
pub mod Steady
pub mod Release
pub mod Tun
use zigbee_remote.Prelude.{
  ℕ, Bool, true, false, Option, none, some, List, [], ◌∷◌, ◌==◌, if◌then◌else◌,
}

-- `struct serial_io`. Its `link` is NULL or the one link.
pub record Serial : Type 0 where
  pub fd : ℕ
  pub running : Bool
  pub verbose : Bool
  pub link : Bool

-- `struct ppp_link` with its `io`: `output` is NULL or `serial_output` with the one serial port.
pub record Link : Type 0 where
  pub tun_fd : Option ℕ
  pub output : Bool
  pub running : Bool
  pub thread_started : Bool

-- The lwIP side: the fields of `ppp_pcb` that the code sets.
pub record Pcb : Type 0 where
  pub passive : Bool
  pub fsm_timeout_time : ℕ
  pub ouraddr : ℕ
  pub hisaddr : ℕ
  pub accept_remote : Bool
  pub accept_local : Bool
  pub ask_for_local : Bool
  pub dns : Option ℕ
  pub usepeerdns : Bool
  pub want_vj : Bool
  pub allow_vj : Bool
  pub want_ifaceid : Bool
  pub allow_ifaceid : Bool

-- The program: its open descriptors, the two objects where they are allocated, the threads that
-- run, the globals of ppp_lwip.c, the bytes written to the serial port and those given to lwIP.
pub record Host : Type 0 where
  pub fds : List ℕ
  pub serial : Option Serial
  pub link : Option Link
  pub serial_threads : ℕ
  pub tun_threads : ℕ
  pub s_io : Bool
  pub ppp : Option Pcb
  pub s_link_up : Bool
  pub s_use_tcpip : Bool
  pub written : List ℕ
  pub input : List ℕ

-- A function that follows a pointer gives `none` where the object is not allocated.
unfoldable pub with_serial {ℓ} : {A : Type ℓ} → Host → (Serial → Option A) → Option A
with_serial h f = elim h.serial [ none ↦ none | some s ↦ f s ]

unfoldable pub with_link {ℓ} : {A : Type ℓ} → Host → (Link → Option A) → Option A
with_link h f = elim h.link [ none ↦ none | some l ↦ f l ]
