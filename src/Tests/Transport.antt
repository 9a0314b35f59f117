-- ===== src/Tests/Transport.antt =====
-- The host program and the TUN device on concrete answers.
use zigbee_remote.Prelude.{◌≡◌, ◌++◌, refl, true, false, none, some, [], ◌∷◌, replicate, arith}
use zigbee_remote.Prelude.Int.{pos, negsuc}
use zigbee_remote.Main.Connect.{Attempt}
use zigbee_remote.Transport.{Link, Pcb, Host}
use zigbee_remote.Transport.SerialIo.{Frame}
use zigbee_remote.Transport.PppLink.{new_link}
use zigbee_remote.Transport.Threads.{idle, came, reads, polls, reports}
use zigbee_remote.Transport.Tun.{
  Family, tun_header, Err, tun_output, TunAnswer, packet, ppp_link_tun_poll,
}
use zigbee_remote.Transport.Tun.Packets.{tun_output_overrun, ppp_link_tun_poll-tun_output}
use zigbee_remote.Transport.Program.{NetAnswers, Answers, run_program}
use zigbee_remote.Transport.Release.Whole.{Ends, run_program-Ends}
use zigbee_remote.Tests.Fixture.{client_of}

abbrev tun_link : Link
tun_link = new_link (some 7)

ppp_link_tun_poll-tun_output_example :
    (tun_output Family.ipv6 true (some tun_link) ((1 ∷ 2 ∷ []) ∷ (3 ∷ []) ∷ [])
      ≡ some (Err.err_ok, (tun_header Family.ipv6 ++ (1 ∷ 2 ∷ 3 ∷ [])) ∷ []))
    × (ppp_link_tun_poll true tun_link (packet (tun_header Family.ipv6 ++ (1 ∷ 2 ∷ 3 ∷ [])))
        ≡ (pos 1, some (Family.ipv6, 1 ∷ 2 ∷ 3 ∷ [])))
ppp_link_tun_poll-tun_output_example =
    ppp_link_tun_poll-tun_output Family.ipv6 tun_link 7 ((1 ∷ 2 ∷ []) ∷ (3 ∷ []) ∷ []) refl
      (omega arith) (omega arith)

tun_output_overrun_example :
    tun_output Family.ipv4 true (some tun_link) (replicate 1000 69 ∷ replicate 515 0 ∷ []) ≡ none
tun_output_overrun_example =
    tun_output_overrun Family.ipv4 true tun_link 7 (replicate 1000 69 ∷ replicate 515 0 ∷ []) refl
      (omega arith)

abbrev pcb : Pcb
pcb = record {
  passive = false;
  fsm_timeout_time = 6;
  ouraddr = 0;
  hisaddr = 0;
  accept_remote = false;
  accept_local = false;
  ask_for_local = false;
  dns = none;
  usepeerdns = false;
  want_vj = false;
  allow_vj = false;
  want_ifaceid = false;
  allow_ifaceid = false;
}

abbrev frame : Frame
frame = record { bytes = 0x7e ∷ 0xff ∷ []; answer = some 2 }

-- The link comes up, and the RPC port refuses twice.
abbrev net : NetAnswers
net = record {
  stop_at_start = false;
  wait_seconds = 1;
  polls = record { stop_requested = false; is_up = true } ∷ [];
  valid_host = true;
  attempts = Attempt.refused 9 ∷ Attempt.refused 9 ∷ [];
  stop_at_run = false;
  stop_at_retry = false;
  attempts_again = [];
}

abbrev answers : Answers
answers = record {
  options_valid = true;
  verbose = false;
  serial = record {
    allocated = true;
    opened = some 4;
    got_attr = true;
    set_attr = true;
    thread_made = true;
  };
  early = idle ∷ came (1 ∷ []) ∷ [];
  create = record { allocated = true; tun_asked = true; tun_opened = some 7; tun_set = true };
  init = record {
    created = some pcb;
    opened = true;
    frames = frame ∷ [];
    sem_made = true;
    callback_taken = true;
  };
  thread_made = true;
  during =
      reads (came (2 ∷ 3 ∷ [])) ∷ reports (pos 0) ∷ polls true TunAnswer.quiet (frame ∷ []) ∷ [];
  net = net;
  sem_made = true;
  callback_taken = true;
  frames_at_stop = frame ∷ [];
  late = reports (negsuc 0) ∷ [];
}

abbrev fresh : Host
fresh = record {
  fds = 0 ∷ 1 ∷ 2 ∷ [];
  serial = none;
  link = none;
  serial_threads = 0;
  tun_threads = 0;
  s_io = false;
  ppp = none;
  s_link_up = false;
  s_use_tcpip = false;
  written = [];
  input = [];
}

run_program-Ends_example : Ends (run_program answers (client_of []) fresh) (0 ∷ 1 ∷ 2 ∷ [])
run_program-Ends_example = run_program-Ends answers (client_of []) (0 ∷ 1 ∷ 2 ∷ []) fresh (record {
  no_serial = refl;
  no_link = refl;
  open_fds = refl;
  no_reader = refl;
  no_poller = refl;
})
