-- ===== src/Desktop/Closed.antt =====
-- The descriptors of `main` of zb_rpc/src/client.cpp.
use zigbee_remote.Prelude.{
  ℕ, zero, suc, ◌≡◌, ap, ◌∙◌, Bool, true, false, Bool-cases, Option-cases, inl, inr, Option, none,
  some, List, [], ◌∷◌, arith, if◌then◌else◌,
}
use zigbee_remote.Prelude.Int.{is_zero}
use zigbee_remote.Protocol.Endian.{from_le16, from_le32_s}
use zigbee_remote.Protocol.Payloads.{ZbAddr}
use zigbee_remote.Main.Connect.{kept, close_socket, close_socket_opened}
use zigbee_remote.Fd.{Fd}
use zigbee_remote.Desktop.{
  Socket, Line, Report, engine_api, attempt, after, say, note, leave, read_temps, read_attrs,
  subscribe, inspect, find, join, commission, session, open_failed, no_sensor, ConnectAnswers,
  connect_on, rpc_connect, over_socket, main,
}

-- The descriptors that a step leaves open.
abbrev Ends : {A : Type 0} → List ℕ → A × Socket → Type 0
Ends goal r = r.1.1 ≡ goal

module _ (fds goal : List ℕ) where
  attempt-Ends :
      {A B : Type 0} (r : Option A × Socket) (stop : Socket → B × Socket)
      (next : A → Socket → B × Socket)
      → Ends fds r
      → ((s : Socket) → s.1 ≡ fds → Ends goal (stop s))
      → ((a : A) (s : Socket) → s.1 ≡ fds → Ends goal (next a s))
      → Ends goal (attempt r stop next)
  unfolding attempt
  attempt-Ends (none, s) stop next h k l = k s h
  attempt-Ends (some a, s) stop next h k l = l a s h

  after-Ends :
      {A B : Type 0} (r : A × Socket) (next : A → Socket → B × Socket)
      → Ends fds r
      → ((a : A) (s : Socket) → s.1 ≡ fds → Ends goal (next a s))
      → Ends goal (after r next)
  unfolding after
  after-Ends (a, s) next h k = k a s h

say-Ends :
    (goal : List ℕ) (lines : List Line) (r : Report × Socket)
    → Ends goal r
    → Ends goal (say lines r)
unfolding say
say-Ends goal lines r h = h

note-Ends :
    (goal : List ℕ) (line : Line) (r : List Line × Socket) → Ends goal r → Ends goal (note line r)
unfolding note
note-Ends goal line r h = h

if-Ends :
    {A : Type 0} (goal : List ℕ) (b : Bool) (r q : A × Socket)
    → Ends goal r
    → Ends goal q
    → Ends goal (if b then r else q)
if-Ends goal true r q h k = h
if-Ends goal false r q h k = k

module _ (fd : ℕ) (fds : List ℕ) where
  abbrev IsOpen : Socket → Type 0
  IsOpen s = s.1 ≡ fds

  -- The descriptor is closed, once, and no other one.
  abbrev Closes : {A : Type 0} → A × Socket → Type 0
  Closes = Ends (close_socket fd fds)

  leave-Closes :
      (status : ℕ) (lines : List Line) (s : Socket)
      → IsOpen s
      → Closes (leave (engine_api fd) status lines s)
  unfolding leave
  leave-Closes status lines s h = ap (close_socket fd) h

  read_temps-IsOpen : (n : ℕ) (s : Socket) → IsOpen s → Ends fds (read_temps (engine_api fd) n s)
  unfolding read_temps
  read_temps-IsOpen zero s h = h
  read_temps-IsOpen (suc n) s h =
      attempt-Ends fds fds _ _ _ h (λ s' h'. h')
        (λ r s' h'. note-Ends fds _ _ (read_temps-IsOpen n s' h'))

  read_attrs-Closes :
      (sensor : ZbAddr) (s : Socket) → IsOpen s → Closes (read_attrs (engine_api fd) sensor s)
  unfolding read_attrs leave
  read_attrs-Closes sensor s h =
      attempt-Ends fds _ _ _ _ h (leave-Closes 1 []) (λ r s' h'. ap (close_socket fd) h')

  subscribe-Closes :
      (a p : ℕ) (sensor : ZbAddr) (s : Socket)
      → IsOpen s
      → Closes (subscribe (engine_api fd) a p sensor s)
  unfolding subscribe
  subscribe-Closes a p sensor s h = after-Ends fds _ _ _ h (λ _ s1 h1. say-Ends _ _ _ (
      after-Ends fds _ _ _ h1 (λ _ s2 h2. say-Ends _ _ _ (
        after-Ends fds _ _ _ h2 (λ _ s3 h3. say-Ends _ _ _ (
          after-Ends fds _ _ _ (read_temps-IsOpen 5 s3 h3)
            (λ temps s4 h4. say-Ends _ temps _ (read_attrs-Closes sensor s4 h4))))))))

  inspect-Closes :
      (a p : ℕ) (sensor : ZbAddr) (s : Socket)
      → IsOpen s
      → Closes (inspect (engine_api fd) a p sensor s)
  unfolding inspect
  inspect-Closes a p sensor s h =
      attempt-Ends fds _ _ _ _ h (leave-Closes 1 [])
        (λ basic s' h'. say-Ends _ _ _ (subscribe-Closes a p sensor s' h'))

  find-Closes : (a p peer : ℕ) (s : Socket) → IsOpen s → Closes (find (engine_api fd) a p peer s)
  unfolding find
  find-Closes a p peer s h =
      attempt-Ends fds _ _ _ _ h (leave-Closes 1 (no_sensor ∷ [])) (λ sensor s' h'.
        if-Ends _ (is_zero (from_le32_s sensor.err)) _ _
          (say-Ends _ _ _ (inspect-Closes a p sensor s' h'))
          (leave-Closes 1 (no_sensor ∷ []) s' h'))

  join-Closes : (a p : ℕ) (s : Socket) → IsOpen s → Closes (join (engine_api fd) a p s)
  unfolding join
  join-Closes a p s h =
      attempt-Ends fds _ _ _ _ h (leave-Closes 1 [])
        (λ r s' h'. say-Ends _ _ _ (find-Closes a p (from_le16 r.value) s' h'))

  commission-Closes : (a p : ℕ) (s : Socket) → IsOpen s → Closes (commission (engine_api fd) a p s)
  unfolding commission
  commission-Closes a p s h =
      attempt-Ends fds _ _ _ _ h (leave-Closes 1 (open_failed ∷ [])) (λ r s' h'.
        if-Ends _ (is_zero (from_le32_s r.value)) _ _ (say-Ends _ _ _ (join-Closes a p s' h'))
          (leave-Closes 1 (open_failed ∷ []) s' h'))

  session-Closes : (s : Socket) → IsOpen s → Closes (session (engine_api fd) s)
  unfolding session
  session-Closes s h = attempt-Ends fds _ _ _ _ h (leave-Closes 1 []) (λ a s1 h1.
      attempt-Ends fds _ _ _ _ h1 (leave-Closes 1 []) (λ p s2 h2.
        attempt-Ends fds _ _ _ _ h2 (leave-Closes 1 [])
          (λ _ s3 h3. commission-Closes (from_le16 a.value) (from_le16 p.value) s3 h3)))

rpc_connect-kept :
    (a : ConnectAnswers) (fds : List ℕ) → (rpc_connect a fds).1 ≡ kept (rpc_connect a fds).0 fds
unfolding rpc_connect connect_on
rpc_connect-kept a fds = elim (Option-cases a.made) [
  | inl no_socket ↦ ground arith
  | inr (fd, made) ↦ elim (Bool-cases a.valid_host) [
    | inl valid ↦ elim (Option-cases a.connected) [
      | inl refused ↦ ground (arith, close_socket_opened fd fds)
      | inr (held, there) ↦ ground arith
    ]
    | inr invalid ↦ ground (arith, close_socket_opened fd fds)
  ]
]

over_socket-closes :
    (c : Option (ℕ × Fd)) (fds open_now : List ℕ)
    → open_now ≡ kept c fds
    → (over_socket (c, open_now)).1 ≡ fds
over_socket-closes none fds open_now e = e
over_socket-closes (some (fd, held)) fds open_now e =
    session-Closes fd (fd ∷ fds) _ e ∙ close_socket_opened fd fds

-- Whatever the kernel answers, `rpc_connect` of the desktop client leaves open the socket that it
-- returns, if any, and no other one that it has opened; and on whichever of its exits `main`
-- returns, whatever comes over the connection, that socket is closed too.
pub main_closes :
    (a : ConnectAnswers) (fds : List ℕ)
    → ((rpc_connect a fds).1 ≡ kept (rpc_connect a fds).0 fds) × ((main a fds).1 ≡ fds)
unfolding main
main_closes a fds =
    let connected = rpc_connect-kept a fds in
    (connected, over_socket-closes (rpc_connect a fds).0 fds (rpc_connect a fds).1 connected)
