-- ===== src/Collector/Collect/Laws.antt =====
-- What a collection keeps and closes, and what a failed one counts.
use mikrotik_exporter.Prelude.{
  Bool, true, false, Option, none, some, List, [], ◌∷◌, ◌≡◌, ◌∙◌, refl, ◌⊎◌, inl, inr,
  if◌then◌else◌, Bytes,
}
use mikrotik_exporter.Proto.Writer.{Sink}
use mikrotik_exporter.Client.Session.{
  Client, LoginResult, logged_in, login_failed, login_panic, run, login, close, new_client,
}
use mikrotik_exporter.Config.Device.{Device, SrvRecord}
use mikrotik_exporter.Collector.Device.{
  Scrape, DeviceCollector, StepResult, step_done, step_panicked, step_failed, connected, dial_error,
  login_error, identity_error, connect_panicked, Collected, is_alive, is_zero,
}
use mikrotik_exporter.Collector.Connect.{
  Connecting, identity_words, identify, dial_and_login, let_go, connect, get_version,
  update_identity,
}
use mikrotik_exporter.Collector.Collect.{
  disconnect, leave, gather_device, finish, with_version, collect_connected, collect_from, collect,
}

module _ {W E M DE CE : Type 0} (ops : Sink W E) (respond : W → W × Bytes)
    (decode : Bytes → Option Bytes) (md5 : Bytes → Bytes) (dial : Device → W ⊎ DE) where
  -- What a call of `connect` returns for this device collector.
  abbrev ConnectCase : DeviceCollector W E M CE → Connecting W E M DE CE → Type 0
  ConnectCase dc (dc', connected c, gone) = (dc'.is_srv ≡ dc.is_srv) × (dc'.cl ≡ some c)
  ConnectCase dc (dc', dial_error x, gone) = (dc'.is_srv ≡ dc.is_srv) × (dc'.cl ≡ none)
  ConnectCase dc (dc', login_error x, gone) = (dc'.is_srv ≡ dc.is_srv) × (dc'.cl ≡ none)
  ConnectCase dc (dc', identity_error x, gone) = (dc'.is_srv ≡ dc.is_srv) × (dc'.cl ≡ none)
  ConnectCase dc (dc', connect_panicked, gone) = (dc'.is_srv ≡ dc.is_srv) × (dc'.cl ≡ none)

  identify-ConnectCase :
      (dc : DeviceCollector W E M CE) (c : Client W E)
      → dc.cl ≡ none
      → ConnectCase dc (identify ops respond decode md5 dial dc c)
  unfolding identify
  identify-ConnectCase dc c h =
      go dc.device.srv (update_identity ops respond decode md5 dc.device c)
    where
      go :
          (srv : Option SrvRecord) (r : Client W E × Device × StepResult E)
          → ConnectCase dc (elim srv [
            | none ↦ (record dc { cl = some c }, connected c, [])
            | some _ ↦ elim r.2 [
              | step_done ↦ (record dc { device = r.1; cl = some r.0 }, connected r.0, [])
              | step_failed x ↦ (record dc { device = r.1 }, identity_error x, r.0 ∷ [])
              | step_panicked ↦ (record dc { device = r.1 }, connect_panicked, r.0 ∷ [])
            ]
          ])
      go none r = (refl, refl)
      go (some v) (c', d, step_done) = (refl, refl)
      go (some v) (c', d, step_failed x) = (refl, h)
      go (some v) (c', d, step_panicked) = (refl, h)

  dial-ConnectCase :
      (dc : DeviceCollector W E M CE)
      → dc.cl ≡ none
      → ConnectCase dc (dial_and_login ops respond decode md5 dial dc)
  unfolding dial_and_login
  dial-ConnectCase dc h = go (dial dc.device)
    where
      after :
          (c : Client W E) (r : LoginResult E)
          → ConnectCase dc (elim r [
            | logged_in ↦ identify ops respond decode md5 dial dc c
            | login_failed x ↦ (dc, login_error x, close c ∷ [])
            | login_panic ↦ (dc, connect_panicked, c ∷ [])
          ])
      after c logged_in = identify-ConnectCase dc c h
      after c (login_failed x) = (refl, h)
      after c login_panic = (refl, h)

      go :
          (x : W ⊎ DE)
          → ConnectCase dc (elim x [
            | inr x ↦ (dc, dial_error x, [])
            | inl s ↦
                let (c, result) =
                  login ops respond decode md5 (new_client s) dc.device.user dc.device.password in
                elim result [
                  | logged_in ↦ identify ops respond decode md5 dial dc c
                  | login_failed x ↦ (dc, login_error x, close c ∷ [])
                  | login_panic ↦ (dc, connect_panicked, c ∷ [])
                ]
          ])
      go (inr x) = (refl, h)
      go (inl s) =
          after _ (login ops respond decode md5 (new_client s) dc.device.user dc.device.password).1

  connect-ConnectCase :
      (dc : DeviceCollector W E M CE) → ConnectCase dc (connect ops respond decode md5 dial dc)
  unfolding connect
  connect-ConnectCase dc = go dc.cl refl
    where
      let_go-ConnectCase :
          (c : Client W E) (x : Connecting W E M DE CE)
          → ConnectCase (record dc { cl = none }) x
          → ConnectCase dc (let_go c x)
      let_go-ConnectCase c (dc', connected c', gone) h = h
      let_go-ConnectCase c (dc', dial_error x, gone) h = h
      let_go-ConnectCase c (dc', login_error x, gone) h = h
      let_go-ConnectCase c (dc', identity_error x, gone) h = h
      let_go-ConnectCase c (dc', connect_panicked, gone) h = h

      checked :
          (c' : Client W E) (alive : Bool)
          → ConnectCase dc (
              if alive
              then (record dc { cl = some c' }, connected c', [])
              else let_go
                  (close c')
                  (dial_and_login ops respond decode md5 dial (record dc { cl = none })))
      checked c' true = (refl, refl)
      checked c' false =
          let_go-ConnectCase (close c')
            (dial_and_login ops respond decode md5 dial (record dc { cl = none }))
            (dial-ConnectCase (record dc { cl = none }) refl)

      go :
          (cl : Option (Client W E))
          → dc.cl ≡ cl
          → ConnectCase dc (elim cl [
            | none ↦ dial_and_login ops respond decode md5 dial dc
            | some c ↦
                let (c', r, e) = run ops respond decode md5 c identity_words in
                if is_alive r e
                then (record dc { cl = some c' }, connected c', [])
                else let_go
                    (close c')
                    (dial_and_login ops respond decode md5 dial (record dc { cl = none }))
          ])
      go none h = dial-ConnectCase dc h
      go (some c) h = checked _ _

module _ {W E M DE CE : Type 0} where
  leave-KeepsNone :
      (gone : List (Client W E)) (dc : DeviceCollector W E M CE) (r : Collected E DE CE)
      → dc.is_srv ≡ true
      → (leave gone dc r).0.cl ≡ none
  unfolding leave disconnect
  leave-KeepsNone gone dc r s = rw s (go dc.cl refl)
    where
      go :
          (cl : Option (Client W E))
          → dc.cl ≡ cl
          → let out : DeviceCollector W E M CE × List (Client W E) = elim cl [
            | none ↦ (dc, [])
            | some c ↦ (record dc { cl = none }, close c ∷ [])
          ] in
            out.0.cl ≡ none
      go none h = h
      go (some c) h = refl

module _ {W E M DE CE : Type 0} (ops : Sink W E) (respond : W → W × Bytes)
    (decode : Bytes → Option Bytes) (md5 : Bytes → Bytes) (dial : Device → W ⊎ DE)
    (is_done : Scrape W E M → Bool) where
  collect_connected-KeepsNone :
      (dc : DeviceCollector W E M CE) (c : Client W E) (gone : List (Client W E)) (sent : List M)
      → dc.is_srv ≡ true
      → (collect_connected ops respond decode md5 dial is_done dc c gone sent).0.0.cl ≡ none
  unfolding collect_connected gather_device
  collect_connected-KeepsNone dc c gone sent s =
      go (is_zero dc.device.firmware_version.major) (get_version ops respond decode md5 dc.device c)
    where
      versioned :
          (x : Client W E × Device × StepResult E)
          → (with_version ops respond decode md5 dial is_done dc gone sent x).0.0.cl ≡ none
      versioned (c', d, step_done) = leave-KeepsNone gone _ _ s
      versioned (c', d, step_failed x) = leave-KeepsNone gone _ _ s
      versioned (c', d, step_panicked) = leave-KeepsNone gone _ _ s

      go :
          (b : Bool) (x : Client W E × Device × StepResult E)
          → (if b
              then with_version ops respond decode md5 dial is_done dc gone sent x
              else finish {DE = DE} gone (gather_device is_done dc c sent)).0.0.cl
            ≡ none
      go true x = versioned x
      go false x = leave-KeepsNone gone _ _ s

  -- Behind a collection, whatever its result, a collector of a device found through DNS holds no
  -- client.
  pub collect-keeps_none :
      (dc : DeviceCollector W E M CE) (sent : List M)
      → dc.is_srv ≡ true
      → (collect ops respond decode md5 dial is_done dc sent).0.0.cl ≡ none
  unfolding collect
  collect-keeps_none dc sent s =
      go (connect ops respond decode md5 dial dc)
        (connect-ConnectCase ops respond decode md5 dial dc)
    where
      go :
          (x : Connecting W E M DE CE)
          → ConnectCase ops respond decode md5 dial dc x
          → (collect_from ops respond decode md5 dial is_done sent x).0.0.cl ≡ none
      go (dc', connected c, gone) h =
          unfold collect_from in collect_connected-KeepsNone dc' c gone sent (h.0 ∙ s)
      go (dc', dial_error x, gone) h = unfold collect_from in h.1
      go (dc', login_error x, gone) h = unfold collect_from in h.1
      go (dc', identity_error x, gone) h = unfold collect_from in h.1
      go (dc', connect_panicked, gone) h = unfold collect_from in h.1
