-- ===== src/Forward/Spliced.antt =====
-- The steps of `host_to_pcb_thread` of zb_rpc_client/netdev_fwd.c beside lwIP's callbacks, and what every
-- state of a forwarded connection has in common.
use mathlib.Core.Path.{subst}
use zigbee_remote.Prelude.{
  ℕ, ◌≡◌, refl, sym, ◌∙◌, inl, inr, Bool, true, false, Bool-cases, ◌&&◌, Option, none, some, List,
  [], ◌∷◌, ◌++◌, append-nil, append_assoc, take, arith, if◌then◌else◌,
}
use zigbee_remote.Main.Connect.{close_socket_opened}
use zigbee_remote.Forward.{
  Conn, Err, Splice, is_set, with_conn, netdev_recv, netdev_err, close_pcb_cb,
}
use zigbee_remote.Forward.Thread.{
  Pc, ReadAnswer, came, closed, interrupted, failed, finish, after_write, after_read, thread_step,
  Run, newly_taken, Step, by_thread, by_recv, by_err, by_close, spliced, received, take_step,
  Outcome, went, used_freed, run_steps, begin,
}
use zigbee_remote.Forward.Order.{
  IsPrefix, IsLive, IsOver, State, live, over, Kept, State-Kept, netdev_recv-Kept, netdev_err-Kept,
  netdev_recv-over, netdev_err-over, IsDangling, netdev_recv-IsDangling, netdev_err-IsDangling,
}

abbrev After : List ℕ → List ℕ → Pc × Splice → Type 0
After base taken (pc, s) = State base pc s taken

finish-After :
    (callback_taken : Bool) (base : List ℕ) (c : Conn) (fd : ℕ) (pc : Pc) (s : Splice)
    (taken : List ℕ)
    → IsLive base c fd pc s taken
    → IsPrefix s.to_pcb taken
    → After base taken (finish callback_taken pc c s)
unfolding finish
finish-After callback_taken base c fd Pc.leaving s taken h pre =
    live (record c { alive = false }) fd (ground arith) pre
finish-After callback_taken base c fd Pc.unlinking s taken h pre = elim (Bool-cases c.pcb) [
  | inl b ↦ rw b (live (record c { pcb = false }) fd (ground arith) pre)
  | inr b ↦ rw b (live c fd (ground arith) pre)
]
finish-After callback_taken base c fd Pc.posting s taken h pre = live c fd (ground arith) pre
finish-After callback_taken base c fd Pc.closing s taken h pre =
    live (record c { host_fd = none }) fd (ground (arith, close_socket_opened fd base)) pre
finish-After callback_taken base c fd Pc.freeing s taken h pre = over (ground arith) pre
finish-After callback_taken base c fd Pc.at_read s taken h pre = live c fd h pre
finish-After callback_taken base c fd (Pc.at_write chunk) s taken h pre = live c fd h pre
finish-After callback_taken base c fd Pc.ended s taken h pre = live c fd h pre

after_read-After :
    (answer : ReadAnswer) (base : List ℕ) (c : Conn) (fd : ℕ) (s : Splice) (taken : List ℕ)
    → IsLive base c fd Pc.at_read s taken
    → IsPrefix s.to_pcb taken
    → After base (taken ++ newly_taken Pc.at_read (after_read answer s).0) (after_read answer s)
unfolding after_read
after_read-After (came b bs) base c fd s taken h (rest, pre) =
    let chunk : List ℕ = take 2048 (b ∷ bs) in
    live c fd (ground (arith, append-nil s.to_pcb))
      (rest ++ chunk, rw pre (append_assoc s.to_pcb rest chunk))
after_read-After closed base c fd s taken h pre = rw append-nil (live c fd (ground arith) pre)
after_read-After failed base c fd s taken h pre = rw append-nil (live c fd (ground arith) pre)
after_read-After interrupted base c fd s taken h pre = rw append-nil (live c fd (ground arith) pre)

after_write-After :
    (written : Err) (chunk : List ℕ) (base : List ℕ) (c : Conn) (fd : ℕ) (s : Splice)
    (taken : List ℕ)
    → c.alive ≡ true
    → IsLive base c fd (Pc.at_write chunk) s taken
    → IsPrefix s.to_pcb taken
    → After base taken (after_write written chunk c s)
unfolding after_write
after_write-After Err.err_ok chunk base c fd s taken alive h (rest, pre) =
    let all : taken ≡ s.to_pcb ++ chunk = h.whole alive in
    live c fd (ground (arith, append-nil (s.to_pcb ++ chunk)))
      ([], all ∙ sym (append-nil (s.to_pcb ++ chunk)))
after_write-After Err.err_mem chunk base c fd s taken alive h pre = live c fd h pre
after_write-After Err.err_val chunk base c fd s taken alive h pre =
    live (record c { alive = false }) fd (ground arith) pre
after_write-After Err.err_arg chunk base c fd s taken alive h pre =
    live (record c { alive = false }) fd (ground arith) pre
after_write-After Err.err_abrt chunk base c fd s taken alive h pre =
    live (record c { alive = false }) fd (ground arith) pre
after_write-After Err.err_other chunk base c fd s taken alive h pre =
    live (record c { alive = false }) fd (ground arith) pre

-- What a step of the thread leaves, if it uses no object that is not allocated.
abbrev Leaves : List ℕ → List ℕ → Pc → Option (Pc × Splice) → Type 0
Leaves base taken pc r =
    (pc' : Pc) × (t : Splice) × (r ≡ some (pc', t)) × State base pc' t (taken ++ newly_taken pc pc')

finish-Leaves :
    (r : Option (Pc × Splice)) (callback_taken : Bool) (base : List ℕ) (c : Conn) (fd : ℕ) (pc : Pc)
    (s : Splice) (taken : List ℕ)
    → IsLive base c fd pc s taken
    → IsPrefix s.to_pcb taken
    → r ≡ some (finish callback_taken pc c s)
    → ((pc' : Pc) → newly_taken pc pc' ≡ [])
    → Leaves base taken pc r
finish-Leaves r callback_taken base c fd pc s taken h pre e nothing =
    let done = finish callback_taken pc c s in
    (
      done.0,
      done.1,
      e,
      rw (nothing done.0, append-nil) (finish-After callback_taken base c fd pc s taken h pre),
    )

thread_step-live :
    (answer : ReadAnswer) (written : Err) (callback_taken : Bool) (base : List ℕ) (c : Conn)
    (fd : ℕ) (pc : Pc) (s : Splice) (taken : List ℕ)
    → IsLive base c fd pc s taken
    → IsPrefix s.to_pcb taken
    → Leaves base taken pc (thread_step answer written callback_taken pc s)
unfolding thread_step with_conn
thread_step-live answer written callback_taken base c fd Pc.at_read s taken h pre =
    elim (Bool-cases (c.alive && is_set c.host_fd && c.pcb)) [
      | inl b ↦ (
        (after_read answer s).0,
        (after_read answer s).1,
        ground arith,
        after_read-After answer base c fd s taken h pre,
      )
      | inr b ↦ (Pc.leaving, s, ground arith, rw append-nil (live c fd (ground arith) pre))
    ]
thread_step-live answer written callback_taken base c fd (Pc.at_write chunk) s taken h pre =
    elim (Bool-cases (c.alive && c.pcb)) [
      | inl b ↦ (
        (after_write written chunk c s).0,
        (after_write written chunk c s).1,
        ground arith,
        rw append-nil (after_write-After written chunk base c fd s taken (ground arith) h pre),
      )
      | inr b ↦ (Pc.at_read, s, ground arith, rw append-nil (live c fd (ground arith) pre))
    ]
thread_step-live answer written callback_taken base c fd Pc.ended s taken h pre =
    absurd (ground (arith, h.runs))
thread_step-live answer written callback_taken base c fd Pc.leaving s taken h pre =
    finish-Leaves _ callback_taken base c fd Pc.leaving s taken h pre (ground (arith, h.conn_is))
      (λ pc'. refl)
thread_step-live answer written callback_taken base c fd Pc.unlinking s taken h pre =
    finish-Leaves _ callback_taken base c fd Pc.unlinking s taken h pre (ground (arith, h.conn_is))
      (λ pc'. refl)
thread_step-live answer written callback_taken base c fd Pc.posting s taken h pre =
    finish-Leaves _ callback_taken base c fd Pc.posting s taken h pre (ground (arith, h.conn_is))
      (λ pc'. refl)
thread_step-live answer written callback_taken base c fd Pc.closing s taken h pre =
    finish-Leaves _ callback_taken base c fd Pc.closing s taken h pre (ground (arith, h.conn_is))
      (λ pc'. refl)
thread_step-live answer written callback_taken base c fd Pc.freeing s taken h pre =
    finish-Leaves _ callback_taken base c fd Pc.freeing s taken h pre (ground (arith, h.conn_is))
      (λ pc'. refl)

thread_step-over :
    (answer : ReadAnswer) (written : Err) (callback_taken : Bool) (base : List ℕ) (pc : Pc)
    (s : Splice) (taken : List ℕ)
    → IsOver base pc s
    → IsPrefix s.to_pcb taken
    → Leaves base taken pc (thread_step answer written callback_taken pc s)
unfolding thread_step
thread_step-over answer written callback_taken base pc s taken h pre =
    rw (h.is_over) (Pc.ended, s, refl, rw append-nil (over (ground arith) pre))

-- The splice that `netdev_accept` makes of a new pcb.
pub record IsStart (base : List ℕ) (s : Splice) : Type 0 where
  pub fd : ℕ
  pub conn_is : s.conn ≡ some (record { pcb = true; host_fd = some fd; alive = true })
  pub arg_set : s.has_arg ≡ true
  pub quiet : s.close_queued ≡ false
  pub fds_are : s.fds ≡ fd ∷ base
  pub nothing : s.to_pcb ≡ []

close_pcb_cb-State :
    (base : List ℕ) (pc : Pc) (s : Splice) (taken : List ℕ)
    → s.close_queued ≡ true
    → State base pc s taken
    → State base pc (close_pcb_cb s) taken
unfolding close_pcb_cb
close_pcb_cb-State base pc s taken q (live c fd h pre) = live c fd (ground arith) pre
close_pcb_cb-State base pc s taken q (over h pre) = over (ground arith) pre

callback-State :
    (base : List ℕ) (pc : Pc) (s t : Splice) (taken : List ℕ)
    → ((c : Conn) → s.conn ≡ some c → Kept c s t)
    → (IsOver base pc s → t ≡ s)
    → State base pc s taken
    → State base pc t taken
callback-State base pc s t taken kept same (live c fd h pre) =
    State-Kept base c fd pc s t taken h pre (kept c h.conn_is)
callback-State base pc s t taken kept same (over h pre) =
    subst (λ (u : Splice). State base pc u taken) (sym (same h)) (over h pre)

thread-State :
    (answer : ReadAnswer) (written : Err) (callback_taken : Bool) (base : List ℕ) (pc : Pc)
    (s : Splice) (taken : List ℕ)
    → State base pc s taken
    → Leaves base taken pc (thread_step answer written callback_taken pc s)
thread-State answer written callback_taken base pc s taken (live c fd h pre) =
    thread_step-live answer written callback_taken base c fd pc s taken h pre
thread-State answer written callback_taken base pc s taken (over h pre) =
    thread_step-over answer written callback_taken base pc s taken h pre

abbrev pub IsState : List ℕ → Run → Type 0
IsState base r = State base r.pc r.splice r.taken

-- A use of the freed object: by a callback of lwIP, behind the thread's end, while the pcb still has
-- the object as its argument.
abbrev pub is_callback : Step → Bool
is_callback (by_thread answer written callback_taken) = false
is_callback _ = true

pub record IsLate (r : Run) (step : Step) : Type 0 where
  pub by_lwip : is_callback step ≡ true
  pub ended : r.pc ≡ Pc.ended
  pub dangling : IsDangling r.splice

dangling-ended : (base : List ℕ) (r : Run) → IsState base r → IsDangling r.splice → r.pc ≡ Pc.ended
dangling-ended base r (live c fd h pre) gone = absurd (ground (arith, h.conn_is))
dangling-ended base r (over h pre) gone = h.is_over

abbrev IsNext : List ℕ → Run → Step → Option Run → Type 0
IsNext base r step none = IsLate r step
IsNext base r step (some r') = IsState base r'

callback-IsNext :
    (base : List ℕ) (r : Run) (step : Step) (t : Option Splice)
    → IsState base r
    → is_callback step ≡ true
    → (t ≡ none → IsDangling r.splice)
    → ((u : Splice) → t ≡ some u → (c : Conn) → r.splice.conn ≡ some c → Kept c r.splice u)
    → ((u : Splice) → t ≡ some u → IsOver base r.pc r.splice → u ≡ r.splice)
    → IsNext base r step (spliced r t)
callback-IsNext base r step none h by dangling kept same = record {
  by_lwip = by;
  ended = dangling-ended base r h (dangling refl);
  dangling = dangling refl;
}
callback-IsNext base r step (some u) h by dangling kept same =
    callback-State base r.pc r.splice u r.taken (kept u refl) (same u refl) h

by_close-State :
    (base : List ℕ) (r : Run) (queued : Bool)
    → r.splice.close_queued ≡ queued
    → IsState base r
    → IsState base (if queued then record r { splice = close_pcb_cb r.splice } else r)
by_close-State base r true q h = close_pcb_cb-State base r.pc r.splice r.taken q h
by_close-State base r false q h = h

take_step-IsNext :
    (base : List ℕ) (step : Step) (r : Run) → IsState base r → IsNext base r step (take_step step r)
unfolding take_step
take_step-IsNext base (by_thread answer written callback_taken) r h =
    let (pc, s, e, state) =
      thread-State answer written callback_taken base r.pc r.splice r.taken h in
    rw e state
take_step-IsNext base (by_recv grants p err) r h =
    callback-IsNext base r (by_recv grants p err) (received (netdev_recv grants p err r.splice)) h
      refl (λ e. netdev_recv-IsDangling grants p err r.splice e)
      (λ u e c conn. netdev_recv-Kept grants p err c r.splice u conn e)
      (λ u e o. netdev_recv-over base r.pc grants p err r.splice u o e)
take_step-IsNext base by_err r h =
    callback-IsNext base r by_err (netdev_err r.splice) h refl
      (λ e. netdev_err-IsDangling r.splice e) (λ u e c conn. netdev_err-Kept c r.splice u conn e)
      (λ u e o. netdev_err-over base r.pc r.splice u o e)
take_step-IsNext base by_close r h = by_close-State base r r.splice.close_queued refl h

-- All steps are taken, or the first that uses an object that is not allocated is a late callback.
abbrev pub IsOutcome : List ℕ → Outcome → Type 0
IsOutcome base (went r) = IsState base r
IsOutcome base (used_freed r step) = IsState base r × IsLate r step

IsNext-IsOutcome :
    (base : List ℕ) (r : Run) (step : Step) (rest : Run → Outcome) (o : Option Run)
    → IsState base r
    → IsNext base r step o
    → ((r' : Run) → IsState base r' → IsOutcome base (rest r'))
    → IsOutcome base (elim o [ none ↦ used_freed r step | some r' ↦ rest r' ])
IsNext-IsOutcome base r step rest none h next k = (h, next)
IsNext-IsOutcome base r step rest (some r') h next k = k r' next

run_steps-from :
    (base : List ℕ) (steps : List Step) (r : Run)
    → IsState base r
    → IsOutcome base (run_steps steps r)
unfolding run_steps
run_steps-from base [] r h = h
run_steps-from base (step ∷ steps) r h =
    IsNext-IsOutcome base r step (run_steps steps) (take_step step r) h
      (take_step-IsNext base step r h) (run_steps-from base steps)

-- However the steps of the thread and the callbacks of lwIP interleave, a connection that
-- `netdev_accept` has made is in one of two states. Either its object is there, its one descriptor
-- is open until the thread closes it, and while it is alive all that was taken from the host is
-- written to the pcb or held by the thread; or the thread has ended, the object is freed and the
-- descriptor closed. In both, what was written to the pcb is a prefix of what was taken from the
-- host. The first use of an object that is not allocated, if there is one, is by a callback of
-- lwIP behind the end of the thread, while the pcb still has the freed object as its argument:
-- never by the thread.
pub run_steps-State :
    (base : List ℕ) (start : Splice) (steps : List Step)
    → IsStart base start
    → IsOutcome base (run_steps steps (begin start))
run_steps-State base start steps ok = run_steps-from base steps (begin start) (
    live (record { pcb = true; host_fd = some ok.fd; alive = true }) ok.fd
      (ground (arith, ok.nothing)) ([], ground (arith, ok.nothing)))
