-- ===== src/Collector/Connect/Laws.antt =====
-- What `connect` closes of the clients that it lets go.
use mikrotik_exporter.Prelude.{
  Bool, true, false, Option, none, some, [], ◌∷◌, ◌≡◌, ◌⊎◌, inl, inr, All, if◌then◌else◌, Bytes,
  codes, lookup,
}
use mathlib.Core.Path.{subst}
use mikrotik_exporter.Client.Session.Hex.{hex_decode}
use mikrotik_exporter.Proto.Writer.{Sink}
use mikrotik_exporter.Client.Reply.{Reply}
use mikrotik_exporter.Client.Session.{
  Client, ClientError, LoginResult, logged_in, login_failed, login_panic, run, login, login_words,
  challenge_words, invalid_challenge, answer_challenge, close, new_client,
}
use mikrotik_exporter.Client.Session.Laws.{close_once, LoginCase, login-LoginCase}
use mikrotik_exporter.Config.Device.{Device, SrvRecord}
use mikrotik_exporter.Collector.Device.{
  DeviceCollector, StepResult, step_done, step_panicked, step_failed, connected, dial_error,
  login_error, identity_error, connect_panicked, is_alive,
}
use mikrotik_exporter.Collector.Connect.{
  Connecting, identity_words, identify, dial_and_login, let_go, connect, update_identity,
}

abbrev pub IsClosed : {W E : Type 0} → Client W E → Type 0
IsClosed c = c.closing ≡ true

close-IsClosed : {W E : Type 0} (c : Client W E) → IsClosed (close c)
close-IsClosed c = (close_once c).1

abbrev IsPanic : {E : Type 0} → LoginResult E → Type 0
IsPanic logged_in = ⊥
IsPanic (login_failed x) = ⊥
IsPanic login_panic = Unit

module _ {W E : Type 0} (ops : Sink W E) (respond : W → W × Bytes) (decode : Bytes → Option Bytes)
    (md5 : Bytes → Bytes) where
  answer_challenge-IsPanic :
      (c : Client W E) (u p ret : Bytes)
      → IsPanic (answer_challenge ops respond decode md5 c u p ret).1
      → ⊥
  unfolding answer_challenge
  answer_challenge-IsPanic c u p ret h = go (hex_decode ret) h
    where
      answered :
          (e : Option (ClientError E))
          → IsPanic (elim e [ some x ↦ login_failed x | none ↦ logged_in ])
          → ⊥
      answered none q = q
      answered (some x) q = q

      go :
          (cha : Option Bytes)
          → let out : Client W E × LoginResult E = elim cha [
            | none ↦ (c, login_failed (invalid_challenge ret))
            | some cha ↦
                let (c', r, e) =
                  run ops respond decode md5 c (challenge_words ops respond decode md5 u p cha) in
                (c', elim e [ some x ↦ login_failed x | none ↦ logged_in ])
          ] in
            IsPanic out.1 → ⊥
      go none q = q
      go (some cha) q = answered _ q

  LoginCase-IsPanic :
      (u p : Bytes) (x : Client W E × Option Reply × Option (ClientError E))
      (out : Client W E × LoginResult E)
      → LoginCase ops respond decode md5 u p x out
      → IsPanic out.1
      → ⊥
  LoginCase-IsPanic u p (c, r, some x) out h q = subst (λ o. IsPanic o.1) h q
  LoginCase-IsPanic u p (c, none, none) out h q = h
  LoginCase-IsPanic u p (c, some r, none) out (d, e, h) q =
      go (lookup (codes "ret") d.map) (subst (λ o. IsPanic o.1) h q)
    where
      go :
          (ret : Option Bytes)
          → let out : Client W E × LoginResult E = elim ret [
            | none ↦ (c, logged_in)
            | some ret ↦ answer_challenge ops respond decode md5 c u p ret
          ] in
            IsPanic out.1 → ⊥
      go none q = q
      go (some ret) q = answer_challenge-IsPanic c u p ret q

  login-not_panic :
      (c : Client W E) (u p : Bytes) → IsPanic (login ops respond decode md5 c u p).1 → ⊥
  login-not_panic c u p =
      LoginCase-IsPanic u p (run ops respond decode md5 c (login_words u p))
        (login ops respond decode md5 c u p) (login-LoginCase ops respond decode md5 c u p)

module _ {W E M DE CE : Type 0} (ops : Sink W E) (respond : W → W × Bytes)
    (decode : Bytes → Option Bytes) (md5 : Bytes → Bytes) (dial : Device → W ⊎ DE) where
  dial_and_login-IsClosed :
      (dc : DeviceCollector W E M CE)
      → dc.device.srv ≡ none
      → All IsClosed (dial_and_login ops respond decode md5 dial dc).2
  unfolding dial_and_login identify
  dial_and_login-IsClosed dc h = go (dial dc.device)
    where
      static :
          (srv : Option SrvRecord) (c : Client W E) (r : Client W E × Device × StepResult E)
          → srv ≡ none
          → let out : Connecting W E M DE CE = elim srv [
            | none ↦ (record dc { cl = some c }, connected c, [])
            | some _ ↦ elim r.2 [
              | step_done ↦ (record dc { device = r.1; cl = some r.0 }, connected r.0, [])
              | step_failed x ↦ (record dc { device = r.1 }, identity_error x, r.0 ∷ [])
              | step_panicked ↦ (record dc { device = r.1 }, connect_panicked, r.0 ∷ [])
            ]
          ] in
            All IsClosed out.2
      static none c r e = tt
      static (some srv) c r e = absurd (cc e)

      after :
          (c : Client W E) (r : LoginResult E)
          → (IsPanic r → ⊥)
          → let out : Connecting W E M DE CE = elim r [
            | logged_in ↦ identify ops respond decode md5 dial dc c
            | login_failed x ↦ (dc, login_error x, close c ∷ [])
            | login_panic ↦ (dc, connect_panicked, c ∷ [])
          ] in
            All IsClosed out.2
      after c logged_in q =
          static dc.device.srv c (update_identity ops respond decode md5 dc.device c) h
      after c (login_failed x) q = (close-IsClosed c, tt)
      after c login_panic q = absurd (q tt)

      go :
          (x : W ⊎ DE)
          → let out : Connecting W E M DE CE = elim x [
            | inr x ↦ (dc, dial_error x, [])
            | inl s ↦
                let (c, result) =
                  login ops respond decode md5 (new_client s) dc.device.user dc.device.password in
                elim result [
                  | logged_in ↦ identify ops respond decode md5 dial dc c
                  | login_failed x ↦ (dc, login_error x, close c ∷ [])
                  | login_panic ↦ (dc, connect_panicked, c ∷ [])
                ]
          ] in
            All IsClosed out.2
      go (inr x) = tt
      go (inl s) =
          after _ _ (
            login-not_panic ops respond decode md5 (new_client s) dc.device.user dc.device.password)

  -- For a device with an address of its own, `connect` closes every client that it lets go: the one
  -- of the last collection that does not answer any more, and the new one whose login fails.
  pub connect-IsClosed :
      (dc : DeviceCollector W E M CE)
      → dc.device.srv ≡ none
      → All IsClosed (connect ops respond decode md5 dial dc).2
  unfolding connect
  connect-IsClosed dc h = go dc.cl
    where
      let_go-IsClosed :
          (c : Client W E) (x : Connecting W E M DE CE)
          → IsClosed c
          → All IsClosed x.2
          → All IsClosed (let_go c x).2
      let_go-IsClosed c (dc', r, gone) p q = (p, q)

      checked :
          (c' : Client W E) (alive : Bool)
          → let out : Connecting W E M DE CE =
              (if alive
                then (record dc { cl = some c' }, connected c', [])
                else let_go
                    (close c')
                    (dial_and_login ops respond decode md5 dial (record dc { cl = none }))) in
            All IsClosed out.2
      checked c' true = tt
      checked c' false =
          let_go-IsClosed (close c')
            (dial_and_login ops respond decode md5 dial (record dc { cl = none }))
            (close-IsClosed c') (dial_and_login-IsClosed (record dc { cl = none }) h)

      go :
          (cl : Option (Client W E))
          → let out : Connecting W E M DE CE = elim cl [
            | none ↦ dial_and_login ops respond decode md5 dial dc
            | some c ↦
                let (c', r, e) = run ops respond decode md5 c identity_words in
                if is_alive r e
                then (record dc { cl = some c' }, connected c', [])
                else let_go
                    (close c')
                    (dial_and_login ops respond decode md5 dial (record dc { cl = none }))
          ] in
            All IsClosed out.2
      go none = dial_and_login-IsClosed dc h
      go (some c) = checked _ _
