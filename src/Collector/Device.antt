-- ===== src/Collector/Device.antt =====
-- The collection from one device: `deviceCollector` of internal/collector/device_collector.go.
-- `dial` opens a connection, the sink of a new client, or fails. A collector works on the client and
-- on the channel, the list of the metrics that were sent; it reads the device.
use mikrotik_exporter.Prelude.{
  ℕ, Bool, true, false, Option, none, some, List, [], ◌∷◌, if◌then◌else◌, ◌==◌, Bytes, codes,
  is_empty, mul64, ℤ, pos, negsuc,
}
use mikrotik_exporter.Client.Reply.{Reply}
use mikrotik_exporter.Client.Session.{Client, ClientError}
use mikrotik_exporter.Config.Device.{Device}
use mikrotik_exporter.Collector.Gather.{CollectError, DeviceCollectorRc}

abbrev pub default_port : Bool → Bytes → Bytes
default_port tls port = if is_empty port then (if tls then codes "8729" else codes "8728") else port

-- What a zero stands for.
abbrev pub or_default : ℕ → ℕ → ℕ
or_default default n = if n == 0 then default else n

-- The device as `newDeviceCollector` fills it in. The timeouts are patterns of an `int`.
unfoldable pub with_defaults : Device → Device
with_defaults d =
    let timeout = or_default 5 d.timeout in
    record d {
      port = default_port d.tls d.port;
      timeout = timeout;
      collect_timeout = or_default (mul64 timeout 10) d.collect_timeout;
    }

-- What a collector reads and writes.
pub record Scrape (W E M : Type 0) : Type 0 where
  pub client : Client W E
  pub sent : List M

module _ (W E M CE : Type 0) where
  -- `deviceCollector`. A collector is given the device.
  pub record DeviceCollector : Type 0 where
    pub cl : Option (Client W E)
    pub device : Device
    pub collectors : List (Device → DeviceCollectorRc (Scrape W E M) CE)
    pub is_srv : Bool
    pub errors : ℕ

-- `newDeviceCollector`.
abbrev pub new_device_collector :
    {W E M CE : Type 0}
    → Device
    → List (Device → DeviceCollectorRc (Scrape W E M) CE)
    → DeviceCollector W E M CE
new_device_collector d collectors = record {
  cl = none;
  device = with_defaults d;
  collectors = collectors;
  is_srv = elim d.srv [ none ↦ false | some _ ↦ true ];
  errors = 0;
}

-- The errors of the steps behind a dial. `invalid_response` is `ErrInvalidResponse`.
pub data StepError (E : Type 0) : Type 0 where
  run_error : ClientError E → StepError E
  invalid_response version_error : StepError E

-- How a step on a client ends; a read through nil or behind the end of a slice is a panic.
pub data StepResult (E : Type 0) : Type 0 where
  step_done step_panicked : StepResult E
  step_failed : StepError E → StepResult E

pub data Connection (W E DE : Type 0) : Type 0 where
  connected : Client W E → Connection W E DE
  dial_error : DE → Connection W E DE
  login_error : ClientError E → Connection W E DE
  identity_error : StepError E → Connection W E DE
  connect_panicked : Connection W E DE

pub data Collected (E DE CE : Type 0) : Type 0 where
  collected collect_panicked : Collected E DE CE
  dial_failed : DE → Collected E DE CE
  login_failed_with : ClientError E → Collected E DE CE
  identity_failed version_failed : StepError E → Collected E DE CE
  gather_failed : List (CollectError CE) → Collected E DE CE

abbrev pub is_zero : ℤ → Bool
is_zero (pos n) = n == 0
is_zero (negsuc n) = false

-- The reply of a check of the connection: no error, and a sentence at least.
abbrev pub is_alive : {E : Type 0} → Option Reply → Option (ClientError E) → Bool
is_alive r (some x) = false
is_alive none none = false
is_alive (some r) none = elim r.re [ [] ↦ false | s ∷ ss ↦ true ]
