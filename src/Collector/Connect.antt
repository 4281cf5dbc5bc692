-- ===== src/Collector/Connect.antt =====
-- `connect`, `updateIdentity` and `getVersion` of internal/collector/device_collector.go. `dial`
-- opens a connection, the sink of a new client, or fails. With a result stand the clients that the
-- call let go, as it left them.
pub mod Laws
use mikrotik_exporter.Prelude.{
  Option, ◌⊎◌, inl, inr, none, some, List, [], ◌∷◌, if◌then◌else◌, Bytes, codes, is_empty, value_of,
}
use mikrotik_exporter.Proto.Writer.{Sink}
use mikrotik_exporter.Client.Reply.{Reply}
use mikrotik_exporter.Client.Session.{
  Client, ClientError, logged_in, login_failed, login_panic, run, login, close, new_client,
}
use mikrotik_exporter.Config.Device.{Device}
use mikrotik_exporter.Collector.Version.{
  version_is, invalid_version, parse_error, parse_firmware_version,
}
use mikrotik_exporter.Config.Version.{no_version}
use mikrotik_exporter.Collector.Device.{
  DeviceCollector, run_error, invalid_response, version_error, StepResult, step_done, step_panicked,
  step_failed, Connection, connected, dial_error, login_error, identity_error, connect_panicked,
  is_alive,
}

abbrev pub identity_words : List Bytes
identity_words = codes "/system/identity/print" ∷ []

-- The name of the device is set also where it is empty.
unfoldable pub identity_reply :
    {E : Type 0} → Device → Option Reply → Option (ClientError E) → Device × StepResult E
identity_reply d r (some x) = (d, step_failed (run_error x))
identity_reply d none none = (d, step_panicked)
identity_reply d (some r) none = elim r.re [
  | [] ↦ (d, step_failed invalid_response)
  | s ∷ ss ↦
      let name = value_of (codes "name") s.map in
      (record d { name = name }, if is_empty name then step_failed invalid_response else step_done)
]

-- The version that a failed parse leaves behind is the zero value.
unfoldable pub version_reply :
    {E : Type 0} → Device → Option Reply → Option (ClientError E) → Device × StepResult E
version_reply d r (some x) = (d, step_failed (run_error x))
version_reply d none none = (d, step_panicked)
version_reply d (some r) none = elim r.re [
  | [] ↦ (d, step_panicked)
  | s ∷ ss ↦ elim (parse_firmware_version s) [
    | version_is v ↦ (record d { firmware_version = v }, step_done)
    | invalid_version ↦ (record d { firmware_version = no_version }, step_failed version_error)
    | parse_error ↦ (record d { firmware_version = no_version }, step_failed version_error)
  ]
]

unfoldable pub clock_reply :
    {E : Type 0} → Device → Option Reply → Option (ClientError E) → Device × StepResult E
clock_reply d r (some x) = (d, step_failed (run_error x))
clock_reply d none none = (d, step_panicked)
clock_reply d (some r) none = elim r.re [
  | [] ↦ (d, step_panicked)
  | s ∷ ss ↦ (record d { timezone = value_of (codes "time-zone-name") s.map }, step_done)
]

abbrev pub paired : {A B C : Type 0} → A → B × C → A × B × C
paired a (b, c) = (a, b, c)

module _ {W E : Type 0} (ops : Sink W E) (respond : W → W × Bytes) (decode : Bytes → Option Bytes)
    (md5 : Bytes → Bytes) where
  unfoldable pub update_identity : Device → Client W E → Client W E × Device × StepResult E
  update_identity d c =
      let (c', r, e) = run ops respond decode md5 c identity_words in
      paired c' (identity_reply d r e)

  -- The second request is sent where the first step is done.
  unfoldable pub get_version : Device → Client W E → Client W E × Device × StepResult E
  get_version d c =
      let (c', r, e) = run ops respond decode md5 c (codes "/system/resource/print" ∷ []) in
      let (d', result) = version_reply d r e in
      let (c'', r', e') = run ops respond decode md5 c' (codes "/system/clock/print" ∷ []) in
      elim result [
        | step_done ↦ paired c'' (clock_reply d' r' e')
        | step_panicked ↦ (c', d', step_panicked)
        | step_failed x ↦ (c', d', step_failed x)
      ]

abbrev pub Connecting : (W E M DE CE : Type 0) → Type 0
Connecting W E M DE CE = DeviceCollector W E M CE × Connection W E DE × List (Client W E)

abbrev pub let_go :
    {W E M DE CE : Type 0} → Client W E → Connecting W E M DE CE → Connecting W E M DE CE
let_go c (dc, result, gone) = (dc, result, c ∷ gone)

module _ {W E M DE CE : Type 0} (ops : Sink W E) (respond : W → W × Bytes)
    (decode : Bytes → Option Bytes) (md5 : Bytes → Bytes) (dial : Device → W ⊎ DE) where
  -- A new connection behind its login, in front of `dc.cl = client`. A client whose identity is not
  -- read is let go as it is, not closed.
  unfoldable pub identify : DeviceCollector W E M CE → Client W E → Connecting W E M DE CE
  identify dc c =
      let (c', d, result) = update_identity ops respond decode md5 dc.device c in
      elim dc.device.srv [
        | none ↦ (record dc { cl = some c }, connected c, [])
        | some _ ↦ elim result [
          | step_done ↦ (record dc { device = d; cl = some c' }, connected c', [])
          | step_failed x ↦ (record dc { device = d }, identity_error x, c' ∷ [])
          | step_panicked ↦ (record dc { device = d }, connect_panicked, c' ∷ [])
        ]
      ]

  -- `connect` from its dial on.
  unfoldable pub dial_and_login : DeviceCollector W E M CE → Connecting W E M DE CE
  dial_and_login dc = elim (dial dc.device) [
    | inr x ↦ (dc, dial_error x, [])
    | inl s ↦
        let (c, result) =
          login ops respond decode md5 (new_client s) dc.device.user dc.device.password in
        elim result [
          | logged_in ↦ identify dc c
          | login_failed x ↦ (dc, login_error x, close c ∷ [])
          | login_panic ↦ (dc, connect_panicked, c ∷ [])
        ]
  ]

  -- A client that is kept from the last collection is used again if it answers.
  unfoldable pub connect : DeviceCollector W E M CE → Connecting W E M DE CE
  connect dc = elim dc.cl [
    | none ↦ dial_and_login dc
    | some c ↦
        let (c', r, e) = run ops respond decode md5 c identity_words in
        if is_alive r e
        then (record dc { cl = some c' }, connected c', [])
        else let_go (close c') (dial_and_login (record dc { cl = none }))
  ]
