-- ===== src/Desktop/Same.antt =====
-- The desktop client's sequence (zb_rpc/src/client.cpp) over two interfaces whose calls agree.
use mathlib.Core.Path.{subst}
use zigbee_remote.Prelude.{
  ℕ, zero, suc, ◌≡◌, refl, ap, Bool, true, false, Option, none, some, List, [], ◌∷◌, ◌++◌,
  if◌then◌else◌,
}
use zigbee_remote.Prelude.Int.{is_zero}
use zigbee_remote.Protocol.Endian.{from_le16, from_le32_s}
use zigbee_remote.Protocol.Payloads.{OpenNetworkReq, FindSensorReq, ZbAddr}
use zigbee_remote.Desktop.{
  DesktopApi, Line, Report, attempt, after, say, note, read_temps, read_attrs, subscribe, inspect,
  find, join, commission, session, leave, no_sensor, open_failed,
}

module _ {S T : Type 0} (R : S → T → Type 0) where
  -- The same result, in states that belong together.
  abbrev pub Same : {A : Type 0} → A × S → A × T → Type 0
  Same r r' = (r.0 ≡ r'.0) × R r.1 r'.1

  pub Same-attempt :
      {A B : Type 0} (r : Option A × S) (r' : Option A × T) (stop : S → B × S) (stop' : T → B × T)
      (next : A → S → B × S) (next' : A → T → B × T)
      → Same r r'
      → ((s : S) (t : T) → R s t → Same (stop s) (stop' t))
      → ((a : A) (s : S) (t : T) → R s t → Same (next a s) (next' a t))
      → Same (attempt r stop next) (attempt r' stop' next')
  unfolding attempt
  Same-attempt (none, s) (none, t) stop stop' next next' (e, h) q k = q s t h
  Same-attempt {A} (some a, s) (some b, t) stop stop' next next' (e, h) q k =
      let same : a ≡ b = ap (λ (o : Option A). elim o [ none ↦ a | some x ↦ x ]) e in
      subst (λ (x : A). Same (next a s) (next' x t)) same (k a s t h)
  Same-attempt (none, s) (some b, t) stop stop' next next' (e, h) q k = absurd cc
  Same-attempt (some a, s) (none, t) stop stop' next next' (e, h) q k = absurd cc

  pub Same-after :
      {A B : Type 0} (r : A × S) (r' : A × T) (next : A → S → B × S) (next' : A → T → B × T)
      → Same r r'
      → ((a : A) (s : S) (t : T) → R s t → Same (next a s) (next' a t))
      → Same (after r next) (after r' next')
  unfolding after
  Same-after {A} (a, s) (b, t) next next' (e, h) k =
      subst (λ (x : A). Same (next a s) (next' x t)) e (k a s t h)

  Same-say :
      (lines : List Line) (r : Report × S) (r' : Report × T)
      → Same r r'
      → Same (say lines r) (say lines r')
  unfolding say
  Same-say lines r r' (e, h) = (ap (λ (x : Report). (x.0, lines ++ x.1)) e, h)

  Same-note :
      (line : Line) (r : List Line × S) (r' : List Line × T)
      → Same r r'
      → Same (note line r) (note line r')
  unfolding note
  Same-note line r r' (e, h) = (ap (◌∷◌ line) e, h)

  Same-if :
      {A : Type 0} (b : Bool) (r q : A × S) (r' q' : A × T)
      → Same r r'
      → Same q q'
      → Same (if b then r else q) (if b then r' else q')
  Same-if true r q r' q' h k = h
  Same-if false r q r' q' h k = k

  -- Each call returns the same on both sides.
  pub record IsSame (api : DesktopApi S) (api' : DesktopApi T) : Type 0 where
    pub get_short_addr :
        (s : S) (t : T) → R s t → Same (api.get_short_addr s) (api'.get_short_addr t)
    pub get_panid : (s : S) (t : T) → R s t → Same (api.get_panid s) (api'.get_panid t)
    pub get_channel : (s : S) (t : T) → R s t → Same (api.get_channel s) (api'.get_channel t)
    pub open_network :
        (r : OpenNetworkReq) (s : S) (t : T)
        → R s t
        → Same (api.open_network r s) (api'.open_network r t)
    pub wait_annce : (s : S) (t : T) → R s t → Same (api.wait_annce s) (api'.wait_annce t)
    pub find_sensor :
        (r : FindSensorReq) (s : S) (t : T)
        → R s t
        → Same (api.find_sensor r s) (api'.find_sensor r t)
    pub read_basic :
        (r : ZbAddr) (s : S) (t : T) → R s t → Same (api.read_basic r s) (api'.read_basic r t)
    pub bind_sensor :
        (r : ZbAddr) (s : S) (t : T) → R s t → Same (api.bind_sensor r s) (api'.bind_sensor r t)
    pub subscribe_sensor :
        (r : ZbAddr) (s : S) (t : T)
        → R s t
        → Same (api.subscribe_sensor r s) (api'.subscribe_sensor r t)
    pub config_report :
        (r : ZbAddr) (s : S) (t : T) → R s t → Same (api.config_report r s) (api'.config_report r t)
    pub read_temp :
        (r : ZbAddr) (s : S) (t : T) → R s t → Same (api.read_temp r s) (api'.read_temp r t)
    pub get_last_temp : (s : S) (t : T) → R s t → Same (api.get_last_temp s) (api'.get_last_temp t)
    pub close : (s : S) (t : T) → R s t → R (api.close s) (api'.close t)

  module _ (api : DesktopApi S) (api' : DesktopApi T) (same : IsSame api api') where
    leave-Same :
        (status : ℕ) (lines : List Line) (s : S) (t : T)
        → R s t
        → Same (leave api status lines s) (leave api' status lines t)
    unfolding leave
    leave-Same status lines s t h = (refl, same.close s t h)

    read_temps-Same :
        (n : ℕ) (s : S) (t : T) → R s t → Same (read_temps api n s) (read_temps api' n t)
    unfolding read_temps
    read_temps-Same zero s t h = (refl, h)
    read_temps-Same (suc n) s t h =
        Same-attempt _ _ _ _ _ _ (same.get_last_temp s t h) (λ s' t' h'. (refl, h'))
          (λ r s' t' h'. Same-note _ _ _ (read_temps-Same n s' t' h'))

    read_attrs-Same :
        (sensor : ZbAddr) (s : S) (t : T)
        → R s t
        → Same (read_attrs api sensor s) (read_attrs api' sensor t)
    unfolding read_attrs
    read_attrs-Same sensor s t h =
        Same-attempt _ _ _ _ _ _ (same.read_temp sensor s t h) (leave-Same 1 [])
          (λ r s' t' h'. leave-Same 0 _ s' t' h')

    subscribe-Same :
        (a p : ℕ) (sensor : ZbAddr) (s : S) (t : T)
        → R s t
        → Same (subscribe api a p sensor s) (subscribe api' a p sensor t)
    unfolding subscribe
    subscribe-Same a p sensor s t h =
        Same-after _ _ _ _ (same.bind_sensor sensor s t h) (λ _ s1 t1 h1. Same-say _ _ _ (
          Same-after _ _ _ _ (same.subscribe_sensor sensor s1 t1 h1) (λ _ s2 t2 h2. Same-say _ _ _ (
            Same-after _ _ _ _ (same.config_report sensor s2 t2 h2) (λ _ s3 t3 h3. Same-say _ _ _ (
              Same-after _ _ _ _ (read_temps-Same 5 s3 t3 h3)
                (λ temps s4 t4 h4. Same-say temps _ _ (read_attrs-Same sensor s4 t4 h4))))))))

    inspect-Same :
        (a p : ℕ) (sensor : ZbAddr) (s : S) (t : T)
        → R s t
        → Same (inspect api a p sensor s) (inspect api' a p sensor t)
    unfolding inspect
    inspect-Same a p sensor s t h =
        Same-attempt _ _ _ _ _ _ (same.read_basic sensor s t h) (leave-Same 1 [])
          (λ basic s' t' h'. Same-say _ _ _ (subscribe-Same a p sensor s' t' h'))

    find-Same :
        (a p peer : ℕ) (s : S) (t : T) → R s t → Same (find api a p peer s) (find api' a p peer t)
    unfolding find
    find-Same a p peer s t h =
        Same-attempt _ _ _ _ _ _ (same.find_sensor _ s t h) (leave-Same 1 (no_sensor ∷ []))
          (λ sensor s' t' h'.
            Same-if (is_zero (from_le32_s sensor.err)) _ _ _ _
              (Same-say _ _ _ (inspect-Same a p sensor s' t' h'))
              (leave-Same 1 (no_sensor ∷ []) s' t' h'))

    join-Same : (a p : ℕ) (s : S) (t : T) → R s t → Same (join api a p s) (join api' a p t)
    unfolding join
    join-Same a p s t h =
        Same-attempt _ _ _ _ _ _ (same.wait_annce s t h) (leave-Same 1 [])
          (λ r s' t' h'. Same-say _ _ _ (find-Same a p (from_le16 r.value) s' t' h'))

    commission-Same :
        (a p : ℕ) (s : S) (t : T) → R s t → Same (commission api a p s) (commission api' a p t)
    unfolding commission
    commission-Same a p s t h =
        Same-attempt _ _ _ _ _ _ (same.open_network _ s t h) (leave-Same 1 (open_failed ∷ []))
          (λ r s' t' h'.
            Same-if (is_zero (from_le32_s r.value)) _ _ _ _
              (Same-say _ _ _ (join-Same a p s' t' h')) (leave-Same 1 (open_failed ∷ []) s' t' h'))

    -- The client's sequence gives the same report over both interfaces.
    pub session-Same : (s : S) (t : T) → R s t → Same (session api s) (session api' t)
    unfolding session
    session-Same s t h =
        Same-attempt _ _ _ _ _ _ (same.get_short_addr s t h) (leave-Same 1 []) (λ a s1 t1 h1.
          Same-attempt _ _ _ _ _ _ (same.get_panid s1 t1 h1) (leave-Same 1 []) (λ p s2 t2 h2.
            Same-attempt _ _ _ _ _ _ (same.get_channel s2 t2 h2) (leave-Same 1 [])
              (λ _ s3 t3 h3. commission-Same (from_le16 a.value) (from_le16 p.value) s3 t3 h3)))
