-- ===== src/Transport/Threads.antt =====
-- The threads of the host program: `serial_read_task` of zb_rpc_client/serial_io.c, `tun_thread` of
-- ppp_link.c, and the callback with the state of the link. Each runs in rounds, between the steps
-- of `main`.
use zigbee_remote.Prelude.{ℕ, Bool, Option, none, some, List, [], ◌∷◌, if◌then◌else◌}
use zigbee_remote.Prelude.Int.{ℤ}
use zigbee_remote.Transport.{Serial, Host, with_serial, with_link}
use zigbee_remote.Transport.SerialIo.{Frame, send_frames}
use zigbee_remote.Transport.Lwip.{ppp_link_status_cb}
use zigbee_remote.Transport.PppLink.{ppp_link_input}
use zigbee_remote.Transport.Tun.{TunAnswer}

-- A round of `serial_read_task`: nothing comes in (a timeout, an interruption, an empty read),
-- bytes do, or `poll` or `read` fails.
pub data SerialAnswer : Type 0 where
  idle : SerialAnswer
  came : List ℕ → SerialAnswer
  fault : SerialAnswer

unfoldable pub serial_input : SerialAnswer → Serial → Host → Host
serial_input idle s h = h
serial_input (came bs) s h = if s.link then ppp_link_input bs h else h
serial_input fault s h = h

unfoldable pub serial_round : SerialAnswer → Host → Option Host
unfolding with_serial serial_input
serial_round a h = with_serial h (λ s. some (if s.running then serial_input a s h else h))

-- The thread: rounds until `running` is 0 or a call fails. It ends with the list of answers, since
-- what comes later is for a later round.
unfoldable pub serial_read_task : List SerialAnswer → Host → Option Host
unfolding serial_round
serial_read_task [] h = some h
serial_read_task (fault ∷ rest) h = serial_round fault h
serial_read_task (a ∷ rest) h = elim (serial_round a h) [
  | none ↦ none
  | some h' ↦ serial_read_task rest h'
]

-- A round of `tun_thread`: the packet that `ppp_link_tun_poll` takes, and the frames that PPP sends
-- for it; lwIP also sends frames where a timeout is due.
unfoldable pub tun_round : (allocated : Bool) → TunAnswer → List Frame → Host → Option Host
unfolding with_link
tun_round allocated answer frames h =
    with_link h (λ l. if l.running then send_frames frames h else some h)

-- What the threads do between two steps of `main`.
pub data Round : Type 0 where
  reads : SerialAnswer → Round
  polls : Bool → TunAnswer → List Frame → Round
  reports : ℤ → Round

unfoldable pub run_round : Round → Host → Option Host
unfolding serial_round tun_round ppp_link_status_cb
run_round (reads a) h = serial_round a h
run_round (polls allocated answer frames) h = tun_round allocated answer frames h
run_round (reports err_code) h = some (ppp_link_status_cb err_code h)

unfoldable pub run_rounds : List Round → Host → Option Host
unfolding run_round
run_rounds [] h = some h
run_rounds (r ∷ rs) h = elim (run_round r h) [ none ↦ none | some h' ↦ run_rounds rs h' ]
