-- ===== src/Collector/Collect.antt =====
-- `disconnect` and `collect` of internal/collector/device_collector.go. With a result stand the
-- clients that the call let go, as it left them.
pub mod Laws
use mikrotik_exporter.Prelude.{
  ℕ, Bool, true, false, Option, ◌⊎◌, inl, inr, none, some, List, [], ◌∷◌, ◌++◌, if◌then◌else◌,
  Bytes, codes, is_empty, value_of, length, add64, pos, map,
}
use mikrotik_exporter.Proto.Sentence.{Sentence}
use mikrotik_exporter.Proto.Writer.{Sink}
use mikrotik_exporter.Client.Reply.{Reply}
use mikrotik_exporter.Client.Session.{
  Client, ClientError, LoginResult, logged_in, login_failed, login_panic, RunResult, run, login,
  close, new_client,
}
use mikrotik_exporter.Config.Device.{Device}
use mikrotik_exporter.Collector.Version.{
  VersionResult, version_is, invalid_version, parse_error, parse_firmware_version,
}
use mikrotik_exporter.Config.Version.{FirmwareVersion, no_version}
use mikrotik_exporter.Collector.Gather.{CollectError, DeviceCollectorRc, Gathered, gather_metrics}
use mikrotik_exporter.Collector.Device.{
  Scrape, DeviceCollector, StepError, run_error, invalid_response, version_error, StepResult,
  step_done, step_panicked, step_failed, Connection, connected, dial_error, login_error,
  identity_error, connect_panicked, Collected, collected, collect_panicked, dial_failed,
  login_failed_with, identity_failed, version_failed, gather_failed, is_zero, is_alive,
}
use mikrotik_exporter.Collector.Connect.{Connecting, get_version, connect}

abbrev pub Collecting : (W E M DE CE : Type 0) → Type 0
Collecting W E M DE CE = DeviceCollector W E M CE × Collected E DE CE × List (Client W E)

-- Only a client of a device found through DNS is closed.
unfoldable pub disconnect :
    {W E M CE : Type 0} → DeviceCollector W E M CE → DeviceCollector W E M CE × List (Client W E)
disconnect dc =
    if dc.is_srv
    then elim dc.cl [ none ↦ (dc, []) | some c ↦ (record dc { cl = none }, close c ∷ []) ]
    else (dc, [])

-- The counter of a device of which no collector could be run.
abbrev pub count_all : {W E M CE : Type 0} → DeviceCollector W E M CE → DeviceCollector W E M CE
count_all dc = record dc { errors = add64 dc.errors (length dc.collectors) }

-- A failed connection makes the next collection ask for the version again.
unfoldable pub forget_version : Device → Device
forget_version d = record d { firmware_version = record d.firmware_version { major = pos 0 } }

-- The deferred `disconnect` behind a result.
unfoldable pub leave :
    {W E M DE CE : Type 0}
    → List (Client W E)
    → DeviceCollector W E M CE
    → Collected E DE CE
    → Collecting W E M DE CE
leave gone dc result = let (dc', closed) = disconnect dc in (dc', result, gone ++ closed)

abbrev pub gathered : {E DE CE : Type 0} → List (CollectError CE) → Collected E DE CE
gathered [] = collected
gathered (e ∷ es) = gather_failed (e ∷ es)

abbrev pub finish :
    {W E M DE CE : Type 0}
    → List (Client W E)
    → DeviceCollector W E M CE × Collected E DE CE × List M
    → Collecting W E M DE CE × List M
finish gone (dc, result, sent) = (leave gone dc result, sent)

module _ {W E M DE CE : Type 0} (is_done : Scrape W E M → Bool) where
  -- `gatherMetrics` on the client of the device, behind which the client is as the collectors left it.
  unfoldable pub gather_device :
      DeviceCollector W E M CE
      → Client W E
      → List M
      → DeviceCollector W E M CE × Collected E DE CE × List M
  gather_device dc c sent =
      let out =
        gather_metrics is_done (map (λ col. col dc.device) dc.collectors)
          (record { client = c; sent = sent }) dc.errors in
      (
        record dc { cl = some out.state.client; errors = out.errors },
        gathered out.result,
        out.state.sent,
      )

module _ {W E M DE CE : Type 0} (ops : Sink W E) (respond : W → W × Bytes)
    (decode : Bytes → Option Bytes) (md5 : Bytes → Bytes) (dial : Device → W ⊎ DE)
    (is_done : Scrape W E M → Bool) where
  -- What a collection does with a version that was asked for.
  abbrev pub with_version :
      DeviceCollector W E M CE
      → List (Client W E)
      → List M
      → Client W E × Device × StepResult E
      → Collecting W E M DE CE × List M
  with_version dc gone sent (c, d, step_done) =
      finish gone (gather_device is_done (record dc { device = d }) c sent)
  with_version dc gone sent (c, d, step_failed x) =
      (leave gone (count_all (record dc { device = d; cl = some c })) (version_failed x), sent)
  with_version dc gone sent (c, d, step_panicked) =
      (leave gone (record dc { device = d; cl = some c }) collect_panicked, sent)

  unfoldable pub collect_connected :
      DeviceCollector W E M CE
      → Client W E
      → List (Client W E)
      → List M
      → Collecting W E M DE CE × List M
  collect_connected dc c gone sent =
      if is_zero dc.device.firmware_version.major
      then with_version dc gone sent (get_version ops respond decode md5 dc.device c)
      else finish gone (gather_device is_done dc c sent)

  abbrev pub not_connected : DeviceCollector W E M CE → DeviceCollector W E M CE
  not_connected dc = count_all (record dc { device = forget_version dc.device })

  -- `collect` behind `connect`.
  unfoldable pub collect_from : List M → Connecting W E M DE CE → Collecting W E M DE CE × List M
  collect_from sent (dc, connected c, gone) = collect_connected dc c gone sent
  collect_from sent (dc, dial_error x, gone) = ((not_connected dc, dial_failed x, gone), sent)
  collect_from sent (dc, login_error x, gone) =
      ((not_connected dc, login_failed_with x, gone), sent)
  collect_from sent (dc, identity_error x, gone) =
      ((not_connected dc, identity_failed x, gone), sent)
  collect_from sent (dc, connect_panicked, gone) = ((dc, collect_panicked, gone), sent)

  -- `collect`: the device collector, the result, the clients it let go, and the channel.
  unfoldable pub collect : DeviceCollector W E M CE → List M → Collecting W E M DE CE × List M
  collect dc sent = collect_from sent (connect ops respond decode md5 dial dc)
