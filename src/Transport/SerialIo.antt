-- ===== src/Transport/SerialIo.antt =====
-- zb_rpc_client/serial_io.c. What the kernel answers to each call is input; the log and the modem
-- lines are left out.
use zigbee_remote.Prelude.{
  ℕ, suc, ◌-◌, Bool, true, false, Option, none, some, List, [], ◌∷◌, ◌++◌, ◌==◌, if◌then◌else◌,
  take,
}
use zigbee_remote.Main.Connect.{close_socket}
use zigbee_remote.Transport.{Serial, Host, with_serial, with_link}

-- `speed_t`: the constant that a rate stands for is named by the rate.
unfoldable pub baud_to_speed : ℕ → ℕ
baud_to_speed baud =
    if baud == 9600
    then 9600
    else if baud == 19200
    then 19200
    else if baud == 38400
    then 38400
    else if baud == 57600
    then 57600
    else if baud == 115200
    then 115200
    else if baud == 230400
    then 230400
    else if baud == 460800
    then 460800
    else if baud == 921600
    then 921600
    else 115200

-- How the calls of `serial_io_open` go; `opened` is the new descriptor.
pub record SerialAnswers : Type 0 where
  pub allocated : Bool
  pub opened : Option ℕ
  pub got_attr : Bool
  pub set_attr : Bool
  pub thread_made : Bool

-- `close(serial->fd)`, `free(serial)` and the NULL that is returned.
unfoldable pub give_up_serial : ℕ → Host → Bool × Host
give_up_serial fd h = (false, record h { fds = close_socket fd h.fds; serial = none })

-- From the descriptor on.
unfoldable pub serial_set_up : SerialAnswers → (verbose : Bool) → ℕ → Host → Bool × Host
unfolding give_up_serial
serial_set_up a verbose fd h =
    let opened = record h {
      fds = fd ∷ h.fds;
      serial = some (record { fd = fd; running = false; verbose = verbose; link = false });
    } in
    let started = record opened {
      serial = some (record { fd = fd; running = true; verbose = verbose; link = false });
    } in
    if a.got_attr
    then (if a.set_attr
        then (if a.thread_made
            then (true, record started { serial_threads = suc started.serial_threads })
            else give_up_serial fd started)
        else give_up_serial fd opened)
    else give_up_serial fd opened

-- The first component is whether the result is not NULL.
unfoldable pub serial_io_open : SerialAnswers → (verbose : Bool) → Host → Bool × Host
unfolding serial_set_up
serial_io_open a verbose h =
    if a.allocated
    then elim a.opened [ none ↦ (false, h) | some fd ↦ serial_set_up a verbose fd h ]
    else (false, h)

-- `ppp_link_set_output` of ppp_link.c on the link; `output` is whether a function is given.
unfoldable pub ppp_link_set_output : (output : Bool) → Host → Option Host
unfolding with_link
ppp_link_set_output output h =
    with_link h (λ l. some (record h { link = some (record l { output = output }) }))

unfoldable pub serial_io_attach : Host → Option Host
unfolding with_serial ppp_link_set_output
serial_io_attach h =
    with_serial h
      (λ s. ppp_link_set_output true (record h { serial = some (record s { link = true }) }))

-- `serial_io_close` behind the join: the thread has ended.
unfoldable pub serial_detach : Serial → Host → Option Host
unfolding ppp_link_set_output
serial_detach s h = if s.link then ppp_link_set_output false h else some h

abbrev pub serial_freed : Serial → Host → Host
serial_freed s h = record h { fds = close_socket s.fd h.fds; serial = none }

unfoldable pub serial_io_close : Host → Option Host
unfolding with_serial serial_detach
serial_io_close h = with_serial h λ s.
    elim (serial_detach s (record h { serial_threads = h.serial_threads - 1 })) [
      | none ↦ none
      | some detached ↦ some (serial_freed s detached)
    ]

-- `serial_output`, with what `write` returns, or `none` for -1.
unfoldable pub serial_output : Option ℕ → List ℕ → Host → Option (Option ℕ × Host)
unfolding with_serial
serial_output none bytes h = with_serial h (λ s. some (none, h))
serial_output (some n) bytes h =
    with_serial h (λ s. some (some n, record h { written = h.written ++ take n bytes }))

-- `ppp_output_cb` of ppp_lwip.c, whose context is the `io` of the link.
unfoldable pub ppp_output_cb : Option ℕ → List ℕ → Host → Option (ℕ × Host)
unfolding with_link serial_output
ppp_output_cb answer bytes h = with_link h λ l.
    if l.output
    then elim (serial_output answer bytes h) [
      | none ↦ none
      | some (none, h') ↦ some (0, h')
      | some (some n, h') ↦ some (n, h')
    ]
    else some (0, h)

-- A frame that lwIP sends, with the answer of `write`.
pub record Frame : Type 0 where
  pub bytes : List ℕ
  pub answer : Option ℕ

unfoldable pub send_frames : List Frame → Host → Option Host
unfolding ppp_output_cb
send_frames [] h = some h
send_frames (f ∷ fs) h = elim (ppp_output_cb f.answer f.bytes h) [
  | none ↦ none
  | some (n, h') ↦ send_frames fs h'
]
