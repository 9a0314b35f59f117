-- ===== src/Main/Options.antt =====
-- `parse_options` of zb_rpc_client/main.cpp. What `getopt_long` selects is input, with the numbers that
-- `atoi` reads from the arguments.
use mathlib.Core.Path.{subst}
use zigbee_remote.Prelude.{
  ℕ, ◌<◌, ◌^◌, ◌≡◌, ◌≢◌, refl, sym, ap, ◌∙◌, Bool, true, false, Bool-cases, inl, inr, ◌&&◌, List,
  [], ◌∷◌, ltb, if◌then◌else◌, arith,
}
use zigbee_remote.Prelude.Int.{ℤ, pos, negsuc, to_u16}
use zigbee_remote.Protocol.Codes.{k_default_port}

pub record Options : Type 0 where
  pub device : List ℕ
  pub host : List ℕ
  pub port : ℕ
  pub baud : ℤ
  pub wait_seconds : ℤ
  pub verbose : Bool

-- The defaults; the two texts are parameters.
abbrev pub defaults : (tty address : List ℕ) → Options
defaults tty address = record {
  device = tty;
  host = address;
  port = k_default_port;
  baud = pos 115200;
  wait_seconds = pos 60;
  verbose = false;
}

-- What `getopt_long` returns.
pub data Selected : Type 0 where
  device host : List ℕ → Selected
  baud port wait_link : ℤ → Selected
  verbose help unknown : Selected

-- `help` ends the process.
pub data Parsed : Type 0 where
  exited refused : Parsed
  accepted : Options → Parsed

abbrev pub is_positive : ℤ → Bool
is_positive (pos n) = ltb 0 n
is_positive (negsuc n) = false

unfoldable pub parse_loop : List Selected → Options → Parsed
parse_loop [] o =
    if is_positive o.baud && (ltb 0 o.port && is_positive o.wait_seconds)
    then accepted o
    else refused
parse_loop (device text ∷ rest) o = parse_loop rest (record o { device = text })
parse_loop (host text ∷ rest) o = parse_loop rest (record o { host = text })
parse_loop (baud n ∷ rest) o = parse_loop rest (record o { baud = n })
parse_loop (port n ∷ rest) o = parse_loop rest (record o { port = to_u16 n })
parse_loop (wait_link n ∷ rest) o = parse_loop rest (record o { wait_seconds = n })
parse_loop (verbose ∷ rest) o = parse_loop rest (record o { verbose = true })
parse_loop (help ∷ rest) o = exited
parse_loop (unknown ∷ rest) o = refused

unfoldable pub parse_options : (tty address : List ℕ) → List Selected → Parsed
unfolding parse_loop
parse_options tty address selected = parse_loop selected (defaults tty address)

-- The value that the last option of a kind gives, or the default.
abbrev pub last_port : List Selected → ℕ → ℕ
last_port [] n = n
last_port (port k ∷ rest) n = last_port rest (to_u16 k)
last_port (_ ∷ rest) n = last_port rest n

-- The baud rate and the wait are positive, and the port can be connected to.
pub record IsSensible (o : Options) : Type 0 where
  pub baud : is_positive o.baud ≡ true
  pub wait : is_positive o.wait_seconds ≡ true
  pub port : (0 < o.port) × (o.port < 2 ^ 16)

to_u16-short : (n : ℤ) → to_u16 n < 2 ^ 16
to_u16-short (pos n) = omega arith
to_u16-short (negsuc n) = omega arith

-- What a list of options makes of the options so far, where it is accepted.
abbrev Accepts : List Selected → Options → Options → Type 0
Accepts selected o o' = IsSensible o' × (o'.port ≡ last_port selected o.port)

tested :
    (o : Options)
    → o.port < 2 ^ 16
    → (is_positive o.baud && (ltb 0 o.port && is_positive o.wait_seconds)) ≡ true
    → IsSensible o
tested o short h = record { baud = ground arith; wait = ground arith; port = (ground arith, short) }

abbrev options_of : Options → Parsed → Options
options_of other exited = other
options_of other refused = other
options_of other (accepted o) = o

refused-accepted : (o : Options) → refused ≢ accepted o
refused-accepted o e = absurd cc

parse_loop-Accepts :
    (selected : List Selected) (o o' : Options)
    → o.port < 2 ^ 16
    → parse_loop selected o ≡ accepted o'
    → Accepts selected o o'
unfolding parse_loop
parse_loop-Accepts [] o o' short h =
    let test = is_positive o.baud && (ltb 0 o.port && is_positive o.wait_seconds) in
    elim (Bool-cases test) [
      | inl good ↦
          let same : o ≡ o' =
            ap (options_of o)
              (sym (ap (λ (b : Bool). if b then accepted o else refused) good) ∙ h) in
          subst (λ (x : Options). IsSensible x × (x.port ≡ o.port)) same (tested o short good, refl)
      | inr bad ↦
          absurd (
            refused-accepted o'
              (sym (ap (λ (b : Bool). if b then accepted o else refused) bad) ∙ h))
    ]
parse_loop-Accepts (device text ∷ rest) o o' short h = parse_loop-Accepts rest _ o' short h
parse_loop-Accepts (host text ∷ rest) o o' short h = parse_loop-Accepts rest _ o' short h
parse_loop-Accepts (baud n ∷ rest) o o' short h = parse_loop-Accepts rest _ o' short h
parse_loop-Accepts (port n ∷ rest) o o' short h = parse_loop-Accepts rest _ o' (to_u16-short n) h
parse_loop-Accepts (wait_link n ∷ rest) o o' short h = parse_loop-Accepts rest _ o' short h
parse_loop-Accepts (verbose ∷ rest) o o' short h = parse_loop-Accepts rest _ o' short h
parse_loop-Accepts (help ∷ rest) o o' short h = absurd cc
parse_loop-Accepts (unknown ∷ rest) o o' short h = absurd cc

-- Options that are accepted have a positive baud rate and wait, and a port from 1 to 65,535, which
-- is the one that was given last, modulo 65,536, or the default.
pub parse_options-accepted :
    (tty address : List ℕ) (selected : List Selected) (o : Options)
    → parse_options tty address selected ≡ accepted o
    → IsSensible o × (o.port ≡ last_port selected k_default_port)
unfolding parse_options
parse_options-accepted tty address selected o h =
    parse_loop-Accepts selected (defaults tty address) o (omega arith) h
