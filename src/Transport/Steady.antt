-- ===== src/Transport/Steady.antt =====
-- What the threads of the host program leave alone: serial_io.c, ppp_link.c, ppp_lwip.c of
-- zb_rpc_client.
use zigbee_remote.Prelude.{
  ℕ, ◌≡◌, refl, ◌∙◌, Bool-cases, inl, inr, Option, none, some, List, [], ◌∷◌, ◌++◌, if◌then◌else◌,
  take, arith,
}
use zigbee_remote.Transport.{Serial, Link, Host, with_link, with_serial}
use zigbee_remote.Transport.SerialIo.{serial_output, ppp_output_cb, Frame, send_frames}
use zigbee_remote.Transport.Lwip.{ppp_link_status_cb, ppp_link_serial_input}
use zigbee_remote.Transport.Threads.{
  SerialAnswer, idle, came, fault, serial_input, serial_round, serial_read_task, tun_round, Round,
  reads, polls, reports, run_round, run_rounds,
}

-- The parts that the threads leave alone.
abbrev pub Same : Host → Host → Type 0
Same h k =
    (k.fds ≡ h.fds)
    × (k.serial ≡ h.serial)
    × (k.link ≡ h.link)
    × (k.serial_threads ≡ h.serial_threads)
    × (k.tun_threads ≡ h.tun_threads)

abbrev pub Gives : Option Host → (Host → Type 0) → Type 0
Gives r P = (k : Host) × (r ≡ some k) × P k

ppp_output_cb_both :
    (answer : Option ℕ) (bytes : List ℕ) (s : Serial) (l : Link) (h : Host)
    → h.serial ≡ some s
    → h.link ≡ some l
    → (n : ℕ) × (k : Host) × (ppp_output_cb answer bytes h ≡ some (n, k)) × Same h k
unfolding ppp_output_cb serial_output with_link with_serial
ppp_output_cb_both none bytes s l h es el = (0, h, ground arith, ground arith)
ppp_output_cb_both (some n) bytes s l h es el = elim (Bool-cases l.output) [
  | inl e ↦ (n, record h { written = h.written ++ take n bytes }, ground arith, ground arith)
  | inr e ↦ (0, h, ground arith, ground arith)
]

pub send_frames_both :
    (fs : List Frame) (s : Serial) (l : Link) (h : Host)
    → h.serial ≡ some s
    → h.link ≡ some l
    → Gives (send_frames fs h) (Same h)
unfolding send_frames
send_frames_both [] s l h es el = (h, refl, ground arith)
send_frames_both (f ∷ fs) s l h es el =
    let (n, k, e, same) = ppp_output_cb_both f.answer f.bytes s l h es el in
    let (k', e', same') = send_frames_both fs s l k (same.1 ∙ es) (same.2 ∙ el) in
    (k', ground arith, ground arith)

serial_round-Same :
    (a : SerialAnswer) (s : Serial) (h : Host)
    → h.serial ≡ some s
    → Gives (serial_round a h) (Same h)
unfolding serial_round serial_input with_serial ppp_link_serial_input
serial_round-Same idle s h es = (h, ground arith, ground arith)
serial_round-Same fault s h es = (h, ground arith, ground arith)
serial_round-Same (came bs) s h es = (
  if s.running then (if s.link then ppp_link_serial_input bs h else h) else h,
  ground arith,
  ground arith,
)

pub serial_read_task-Same :
    (rs : List SerialAnswer) (s : Serial) (h : Host)
    → h.serial ≡ some s
    → Gives (serial_read_task rs h) (Same h)
unfolding serial_read_task
serial_read_task-Same [] s h es = (h, refl, ground arith)
serial_read_task-Same (fault ∷ rest) s h es = serial_round-Same fault s h es
serial_read_task-Same (idle ∷ rest) s h es =
    let (k, e, same) = serial_round-Same idle s h es in
    let (k', e', same') = serial_read_task-Same rest s k (same.1 ∙ es) in
    (k', ground arith, ground arith)
serial_read_task-Same (came bs ∷ rest) s h es =
    let (k, e, same) = serial_round-Same (came bs) s h es in
    let (k', e', same') = serial_read_task-Same rest s k (same.1 ∙ es) in
    (k', ground arith, ground arith)

run_round-Same :
    (r : Round) (s : Serial) (l : Link) (h : Host)
    → h.serial ≡ some s
    → h.link ≡ some l
    → Gives (run_round r h) (Same h)
unfolding run_round tun_round with_link ppp_link_status_cb
run_round-Same (reads a) s l h es el = serial_round-Same a s h es
run_round-Same (polls allocated answer frames) s l h es el = elim (Bool-cases l.running) [
  | inl e ↦ let (k, sent, same) = send_frames_both frames s l h es el in (k, ground arith, same)
  | inr e ↦ (h, ground arith, ground arith)
]
run_round-Same (reports err_code) s l h es el = (ppp_link_status_cb err_code h, refl, ground arith)

pub run_rounds-Same :
    (rs : List Round) (s : Serial) (l : Link) (h : Host)
    → h.serial ≡ some s
    → h.link ≡ some l
    → Gives (run_rounds rs h) (Same h)
unfolding run_rounds
run_rounds-Same [] s l h es el = (h, refl, ground arith)
run_rounds-Same (r ∷ rs) s l h es el =
    let (k, e, same) = run_round-Same r s l h es el in
    let (k', e', same') = run_rounds-Same rs s l k (same.1 ∙ es) (same.2 ∙ el) in
    (k', ground arith, ground arith)
