-- ===== src/Server/Annce.antt =====
-- `handle_wait_annce` of zb_rpc_server/main/rpc_server.cpp: the wait in slices.
use mathlib.Core.Logic.{dif_pos, dif_neg}
use mathlib.Core.WellFounded.{Acc}
use native.Mathlib.Bridge.{le_prop}
use zigbee_remote.Prelude.{
  ℕ, zero, suc, ◌+◌, ◌-◌, ◌≤◌, ◌<◌, ◌≡◌, sym, ap, ◌∙◌, true, false, Bool-cases, inl, inr, arith,
  ◌==◌,
}
use zigbee_remote.Prelude.WellFounded.{lt_wf}
use zigbee_remote.Protocol.Endian.{to_le16}
use zigbee_remote.Protocol.Payloads.{U16Resp}
use zigbee_remote.Server.Handlers.{
  Firmware, Server, is_connected, is_open_fd, firmware_call, k_annce_timeout_ms, slice_of,
  slice_shrinks, still_there, client_connected, annce_loop, handle_wait_annce,
}

module _ {W : Type 0} (fw : Firmware W) where
  -- One slice of the wait.
  abbrev pub waited : ℕ → Server W → ℕ × Server W
  waited remaining s = firmware_call (fw.zigbee.wait_annce (slice_of remaining)) s

  pub annce_gone :
      (remaining : ℕ) (w : Acc ◌<◌ remaining) (s : Server W)
      → 0 < remaining
      → (still_there fw s).0 ≡ false
      → annce_loop fw remaining w s ≡ (0, (still_there fw s).1)
  unfolding annce_loop
  annce_gone remaining (Acc.intro _ smaller) s more gone = rw (dif_pos _ le_prop more, gone)

  pub annce_found :
      (remaining : ℕ) (smaller : (m : ℕ) → m < remaining → Acc ◌<◌ m) (s : Server W)
      → 0 < remaining
      → (still_there fw s).0 ≡ true
      → ((waited remaining (still_there fw s).1).0 == 0) ≡ false
      → annce_loop fw remaining (Acc.intro remaining smaller) s
        ≡ waited remaining (still_there fw s).1
  unfolding annce_loop
  annce_found remaining smaller s more there found = rw (dif_pos _ le_prop more, there, found)

  pub annce_next :
      (remaining : ℕ) (smaller : (m : ℕ) → m < remaining → Acc ◌<◌ m) (s : Server W)
      (more : 0 < remaining)
      → (still_there fw s).0 ≡ true
      → ((waited remaining (still_there fw s).1).0 == 0) ≡ true
      → annce_loop fw remaining (Acc.intro remaining smaller) s
        ≡ annce_loop fw
            (remaining - slice_of remaining)
            (smaller _ (slice_shrinks remaining more))
            (waited remaining (still_there fw s).1).1
  unfolding annce_loop
  annce_next remaining smaller s more there quiet = rw (dif_pos _ le_prop more, there, quiet)

  pub annce_done :
      (smaller : (m : ℕ) → m < 0 → Acc ◌<◌ m) (s : Server W)
      → annce_loop fw 0 (Acc.intro 0 smaller) s ≡ (0, s)
  unfolding annce_loop
  annce_done smaller s = rw (dif_neg _ (λ (h : 0 < 0). absurd (omega arith)))

  -- Where the link is down or the client gone, `handle_wait_annce` answers 0 at once, without a
  -- wait of the firmware.
  pub handle_wait_annce_gone :
      (s : Server W)
      → (still_there fw s).0 ≡ false
      → handle_wait_annce fw (record {}) s ≡ (record { value = to_le16 0 }, (still_there fw s).1)
  unfolding handle_wait_annce
  handle_wait_annce_gone s gone =
      ap
        (λ (p : ℕ × Server W).
          let out : U16Resp × Server W = (record { value = to_le16 p.0 }, p.1) in out)
        (annce_gone k_annce_timeout_ms (lt_wf.apply k_annce_timeout_ms) s (omega arith) gone)

  module _ (clock : W → ℕ) where
    -- The firmware's calls take the time that they are asked for, at most, and the polls take none.
    pub record IsTimely : Type 0 where
      pub wait : (t : ℕ) (w : W) → clock (fw.zigbee.wait_annce t w).1 ≤ clock w + t
      pub link : (w : W) → clock (fw.ppp_uart_is_connected w).1 ≡ clock w
      pub peek : (w : W) → clock (fw.peek w).1 ≡ clock w

    module _ (timely : IsTimely) where
      still_there_time : (s : Server W) → clock (still_there fw s).1.world ≡ clock s.world
      unfolding still_there client_connected
      still_there_time s =
          ground (arith, timely.link s.world, timely.peek (fw.ppp_uart_is_connected s.world).1)

      annce_loop_time :
          (remaining : ℕ) (w : Acc ◌<◌ remaining) (s : Server W)
          → clock (annce_loop fw remaining w s).1.world ≤ clock s.world + remaining
      annce_loop_time zero (Acc.intro _ smaller) s = rw (annce_done smaller s) (omega arith)
      annce_loop_time (suc n) (Acc.intro _ smaller) s =
          let more : 0 < suc n = omega arith in
          let s1 = (still_there fw s).1 in
          let same = still_there_time s in
          let bound = timely.wait (slice_of (suc n)) s1.world in
          let fits : slice_of (suc n) ≤ suc n = ground arith in
          elim (Bool-cases (still_there fw s).0) [
            | inr gone ↦
                rw (annce_gone (suc n) (Acc.intro (suc n) smaller) s more gone)
                  (omega (arith, same))
            | inl there ↦ elim (Bool-cases ((waited (suc n) s1).0 == 0)) [
              | inr found ↦
                  rw (annce_found (suc n) smaller s more there found)
                    (omega (arith, same, bound, fits))
              | inl quiet ↦
                  let rest =
                    annce_loop_time (suc n - slice_of (suc n))
                      (smaller _ (slice_shrinks (suc n) more)) (waited (suc n) s1).1 in
                  rw (annce_next (suc n) smaller s more there quiet)
                    (omega (arith, same, bound, fits, rest))
            ]
          ]

      -- Where the firmware waits no longer than it is asked to and the polls take no time,
      -- `handle_wait_annce` takes 180,000 ms at most.
      pub handle_wait_annce_bound :
          (s : Server W)
          → clock (handle_wait_annce fw (record {}) s).1.world ≤ clock s.world + k_annce_timeout_ms
      unfolding handle_wait_annce
      handle_wait_annce_bound s =
          annce_loop_time k_annce_timeout_ms (lt_wf.apply k_annce_timeout_ms) s

      -- The link stays up and the client stays, and a wait without a result takes its whole time.
      pub record IsPatient : Type 0 where
        pub up : (w : W) → (fw.ppp_uart_is_connected w).0 ≡ true
        pub stays : (w : W) → is_connected (fw.peek w).0 ≡ true
        pub whole :
            (t : ℕ) (w : W)
            → (fw.zigbee.wait_annce t w).0 ≡ 0
            → clock (fw.zigbee.wait_annce t w).1 ≡ clock w + t

      module _ (patient : IsPatient) where
        still_there_fd : (s : Server W) → (still_there fw s).1.s_client_fd ≡ s.s_client_fd
        unfolding still_there client_connected
        still_there_fd s = ground arith

        still_there_stays :
            (s : Server W) → is_open_fd s.s_client_fd ≡ true → (still_there fw s).0 ≡ true
        unfolding still_there client_connected
        still_there_stays s open_fd =
            rw (patient.up s.world, open_fd) (patient.stays (fw.ppp_uart_is_connected s.world).1)

        annce_loop_whole :
            (remaining : ℕ) (w : Acc ◌<◌ remaining) (s : Server W)
            → is_open_fd s.s_client_fd ≡ true
            → (annce_loop fw remaining w s).0 ≡ 0
            → clock (annce_loop fw remaining w s).1.world ≡ clock s.world + remaining
        annce_loop_whole zero (Acc.intro _ smaller) s open_fd none_found =
            rw (annce_done smaller s) (omega arith)
        annce_loop_whole (suc n) (Acc.intro _ smaller) s open_fd none_found =
            let more : 0 < suc n = omega arith in
            let there = still_there_stays s open_fd in
            let s1 = (still_there fw s).1 in
            elim (Bool-cases ((waited (suc n) s1).0 == 0)) [
              | inr found ↦
                  let none_waited : (waited (suc n) s1).0 ≡ 0 =
                    ap (λ (p : ℕ × Server W). p.0)
                      (sym (annce_found (suc n) smaller s more there found))
                    ∙ none_found in
                  absurd (ground arith)
              | inl quiet ↦
                  let next = annce_next (suc n) smaller s more there quiet in
                  let rest =
                    annce_loop_whole (suc n - slice_of (suc n))
                      (smaller _ (slice_shrinks (suc n) more)) (waited (suc n) s1).1
                      (ap is_open_fd (still_there_fd s) ∙ open_fd)
                      (ap (λ (p : ℕ × Server W). p.0) (sym next) ∙ none_found) in
                  let slice = patient.whole (slice_of (suc n)) s1.world (ground arith) in
                  let same = still_there_time s in
                  let fits : slice_of (suc n) ≤ suc n = ground arith in
                  rw next (omega (arith, rest, slice, same, fits))
            ]

        -- Where the polls take no time, a wait of the firmware takes no longer than it is asked
        -- to, and its whole time if it has no result, the link stays up, and a client is attached
        -- and stays, `handle_wait_annce` finds no device only after exactly 180,000 ms.
        pub handle_wait_annce_window :
            (s : Server W)
            → is_open_fd s.s_client_fd ≡ true
            → (annce_loop fw k_annce_timeout_ms (lt_wf.apply k_annce_timeout_ms) s).0 ≡ 0
            → clock (handle_wait_annce fw (record {}) s).1.world
              ≡ clock s.world + k_annce_timeout_ms
        unfolding handle_wait_annce
        handle_wait_annce_window s open_fd none_found =
            annce_loop_whole k_annce_timeout_ms (lt_wf.apply k_annce_timeout_ms) s open_fd
              none_found
