-- ===== src/Forward/Listen.antt =====
-- `netdev_fwd_configure`, `netdev_start_listen` and `netdev_fwd_on_link_up` of
-- zb_rpc_client/netdev_fwd.c.
use zigbee_remote.Prelude.{
  ℕ, suc, ◌-◌, ◌≡◌, Bool, true, not, ◌&&◌, ◌||◌, Option, none, some, List, [], ◌∷◌, ◌==◌,
  if◌then◌else◌, take, arith,
}

-- The globals, the pcbs that are open, and whether `netdev_start_listen` waits to be run.
pub record Listener : Type 0 where
  pub s_host : List ℕ
  pub s_port : ℕ
  pub s_enabled : Bool
  pub s_listening : Bool
  pub pcbs : ℕ

-- `snprintf` into `s_host`, of 256 bytes with the zero at the end.
abbrev pub copy_host : List ℕ → List ℕ
copy_host host = take 255 host

-- A host is a string without its zero, or `none` for NULL.
unfoldable pub netdev_fwd_configure : Option (List ℕ) → ℕ → Listener → Listener
netdev_fwd_configure none port s = record s { s_port = port; s_enabled = not (port == 0) }
netdev_fwd_configure (some []) port s = record s { s_port = port; s_enabled = not (port == 0) }
netdev_fwd_configure (some (b ∷ bs)) port s = record s {
  s_host = copy_host (b ∷ bs);
  s_port = port;
  s_enabled = not (port == 0);
}

-- Whether `tcp_new_ip_type`, `tcp_bind` and `tcp_listen` succeed; `tcp_listen` turns one pcb into
-- another.
pub record ListenAnswers : Type 0 where
  pub made : Bool
  pub bound : Bool
  pub listens : Bool

unfoldable pub netdev_start_listen : ListenAnswers → Listener → Listener
netdev_start_listen a s =
    let opened = record s { pcbs = suc s.pcbs } in
    let closed = record opened { pcbs = opened.pcbs - 1 } in
    if s.s_listening || not s.s_enabled
    then s
    else if not a.made
    then s
    else if not a.bound
    then closed
    else if not a.listens
    then closed
    else record opened { s_listening = true }

-- The listening pcb is there from the time that `s_listening` is set.
abbrev pub IsListener : Listener → Type 0
IsListener s = s.pcbs ≡ (if s.s_listening then 1 else 0)

-- Whether `netdev_fwd_on_link_up` asks lwIP's thread for `netdev_start_listen`.
abbrev pub asks_listen : Listener → Bool
asks_listen s = s.s_enabled && not s.s_listening

-- Each link-up may ask, and the requests run later, in order.
unfoldable pub run_requests : List ListenAnswers → Listener → Listener
unfolding netdev_start_listen
run_requests [] s = s
run_requests (a ∷ rest) s = run_requests rest (netdev_start_listen a s)

netdev_start_listen-IsListener :
    (a : ListenAnswers) (s : Listener) → IsListener s → IsListener (netdev_start_listen a s)
unfolding netdev_start_listen
netdev_start_listen-IsListener a s h = ground arith

pub run_requests-IsListener :
    (requests : List ListenAnswers) (s : Listener)
    → IsListener s
    → IsListener (run_requests requests s)
unfolding run_requests
run_requests-IsListener [] s h = h
run_requests-IsListener (a ∷ rest) s h =
    run_requests-IsListener rest (netdev_start_listen a s) (netdev_start_listen-IsListener a s h)
