-- ===== src/Uart/Transmit.antt =====
-- `uart_transmit` of zb_rpc_server/main/ppp_uart.c. What `uart_write_bytes` returns is input.
use zigbee_remote.Prelude.{
  ℕ, refl, sym, inl, inr, Bool, true, false, List, [], ◌∷◌, ◌++◌, append-nil, arith, take, drop,
}
use zigbee_remote.Fd.Output.{Written, Written-grant}

-- `written n`: at most `n` bytes are taken, and 0 is no error; after the last answer all are.
pub data Answer : Type 0 where
  written : ℕ → Answer
  failed : Answer

pub data EspErr : Type 0 where
  esp_ok esp_fail esp_err_no_mem : EspErr
  esp_err : ℕ → EspErr

abbrev pub is_ok : EspErr → Bool
is_ok EspErr.esp_ok = true
is_ok _ = false

-- `bytes` are still to be written; the last component is what the port has taken.
unfoldable pub transmit_loop : List Answer → List ℕ → List ℕ → EspErr × List ℕ
transmit_loop [] bytes out = (EspErr.esp_ok, out ++ bytes)
transmit_loop (a ∷ rest) [] out = (EspErr.esp_ok, out)
transmit_loop (written n ∷ rest) (b ∷ bs) out =
    transmit_loop rest (drop n (b ∷ bs)) (out ++ take n (b ∷ bs))
transmit_loop (failed ∷ rest) (b ∷ bs) out = (EspErr.esp_fail, out)

unfoldable pub uart_transmit : List Answer → List ℕ → List ℕ → EspErr × List ℕ
unfolding transmit_loop
uart_transmit answers buffer out = transmit_loop answers buffer out

transmit_loop-Written :
    (answers : List Answer) (bytes out : List ℕ)
    → Written bytes out
        (is_ok (transmit_loop answers bytes out).0)
        (transmit_loop answers bytes out).1
unfolding transmit_loop
transmit_loop-Written [] bytes out = inl (refl, refl)
transmit_loop-Written (a ∷ rest) [] out = inl (refl, sym (append-nil out))
transmit_loop-Written (written n ∷ rest) (b ∷ bs) out =
    Written-grant n (b ∷ bs) out _ _
      (transmit_loop-Written rest (drop n (b ∷ bs)) (out ++ take n (b ∷ bs)))
transmit_loop-Written (failed ∷ rest) (b ∷ bs) out =
    inr (0, omega arith, refl, sym (append-nil out))

-- Whatever the UART driver answers, `uart_transmit` either succeeds and has written all of its
-- bytes in their order, or fails and has written a proper prefix of them.
pub uart_transmit-Written :
    (answers : List Answer) (buffer out : List ℕ)
    → Written buffer out
        (is_ok (uart_transmit answers buffer out).0)
        (uart_transmit answers buffer out).1
unfolding uart_transmit
uart_transmit-Written = transmit_loop-Written
